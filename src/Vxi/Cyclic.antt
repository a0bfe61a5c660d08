-- ===== src/Vxi/Cyclic.antt =====
-- `cyclic_uint32_t` of src/vxi11_server/utilities.h: a counter on a closed range.
use riden_dongle.Base.{
  ℕ, zero, suc, ◌+◌, ◌-◌, ◌≤◌, ◌<◌, ◌≡◌, ◌∙◌, ap, Bool, ◌&&◌, ltb, leb, ◌==◌, if◌then◌else◌, arith,
}

pub record Cyclic : Type 0 where
  pub m_data : ℕ
  pub m_start : ℕ
  pub m_end : ℕ

-- The constructor.
unfoldable pub cyclic : ℕ → ℕ → ℕ → Cyclic
cyclic start finish value =
    let m_start = if ltb start finish then start else finish in
    let m_end = if ltb start finish then finish else start in
    record {
      m_start = m_start;
      m_end = m_end;
      m_data = if leb m_start value && leb value m_end then value else m_start;
    }

unfoldable pub is_noncyclic : Cyclic → Bool
is_noncyclic c = c.m_start == c.m_end

-- Decrement and increment, `--` and `++`; what they return is the value after or before, by form.
unfoldable pub goto_prev : Cyclic → Cyclic
goto_prev c = record c { m_data = if ltb c.m_start c.m_data then c.m_data - 1 else c.m_end }

unfoldable pub goto_next : Cyclic → Cyclic
goto_next c = record c { m_data = if ltb c.m_data c.m_end then c.m_data + 1 else c.m_start }

-- `operator++()` and `operator++(int)`: the counter after, and the value that is returned.
unfoldable pub pre_increment : Cyclic → ℕ × Cyclic
pre_increment c = ((goto_next c).m_data, goto_next c)

unfoldable pub post_increment : Cyclic → ℕ × Cyclic
post_increment c = (c.m_data, goto_next c)

unfoldable pub pre_decrement : Cyclic → ℕ × Cyclic
pre_decrement c = ((goto_prev c).m_data, goto_prev c)

unfoldable pub post_decrement : Cyclic → ℕ × Cyclic
post_decrement c = (c.m_data, goto_prev c)

-- The value lies in the range.
pub record InRange (c : Cyclic) : Type 0 where
  pub lo : c.m_start ≤ c.m_data
  pub hi : c.m_data ≤ c.m_end

-- `n` increments.
abbrev pub advance : ℕ → Cyclic → Cyclic
advance zero c = c
advance (suc n) c = goto_next (advance n c)

pub cyclic-InRange : (start finish value : ℕ) → InRange (cyclic start finish value)
unfolding cyclic
cyclic-InRange start finish value = record { lo = ground arith; hi = ground arith }

pub goto_next-InRange : (c : Cyclic) → InRange c → InRange (goto_next c)
unfolding goto_next
goto_next-InRange c r = record { lo = ground (arith, r.lo, r.hi); hi = ground (arith, r.lo, r.hi) }

pub goto_prev-InRange : (c : Cyclic) → InRange c → InRange (goto_prev c)
unfolding goto_prev
goto_prev-InRange c r = record { lo = ground (arith, r.lo, r.hi); hi = ground (arith, r.lo, r.hi) }

abbrev with_data : Cyclic → ℕ → Cyclic
with_data c v = record c { m_data = v }

-- An increment undoes a decrement and the other way round.
pub goto_next-goto_prev :
    (c : Cyclic) → InRange c → (goto_next (goto_prev c) ≡ c) × (goto_prev (goto_next c) ≡ c)
unfolding goto_next goto_prev
goto_next-goto_prev c r = (ap (with_data c) back, ap (with_data c) forth)
  where
    back :
        (let v = if ltb c.m_start c.m_data then c.m_data - 1 else c.m_end in
          if ltb v c.m_end then v + 1 else c.m_start)
        ≡ c.m_data
    back = ground (arith, r.lo, r.hi)

    forth :
        (let v = if ltb c.m_data c.m_end then c.m_data + 1 else c.m_start in
          if ltb c.m_start v then v - 1 else c.m_end)
        ≡ c.m_data
    forth = ground (arith, r.lo, r.hi)

goto_next-with_data :
    (c : Cyclic) (v : ℕ) → v < c.m_end → goto_next (with_data c v) ≡ with_data c (v + 1)
unfolding goto_next
goto_next-with_data c v h = ground arith

advance-with_data :
    (n v : ℕ) (c : Cyclic) → v + n ≤ c.m_end → advance n (with_data c v) ≡ with_data c (v + n)
advance-with_data zero v c h = ap (with_data c) (omega arith)
advance-with_data (suc n) v c h =
    ap goto_next (advance-with_data n v c (omega arith))
    ∙ goto_next-with_data c (v + n) (omega arith)
    ∙ ap (with_data c) (omega arith)

goto_next_wraps : (c : Cyclic) → goto_next (with_data c c.m_end) ≡ with_data c c.m_start
unfolding goto_next
goto_next_wraps c = ground arith

advance-add : (m n : ℕ) (c : Cyclic) → advance (m + n) c ≡ advance m (advance n c)
advance-add zero n c = ap (λ k. advance k c) (omega arith)
advance-add (suc m) n c = ap (λ k. advance k c) shift ∙ ap goto_next (advance-add m n c)
  where
    shift : suc m + n ≡ suc (m + n)
    shift = omega arith

-- As many increments as the range has values lead back to the same value.
pub advance_cycles : (c : Cyclic) → InRange c → advance (c.m_end - c.m_start + 1) c ≡ c
advance_cycles c r =
    ap (λ k. advance k c) count
    ∙ advance-add (c.m_data - c.m_start) (suc (c.m_end - c.m_data)) c
    ∙ ap (λ x. advance (c.m_data - c.m_start) (goto_next x))
        (advance-with_data (c.m_end - c.m_data) c.m_data c (omega (arith, r.hi))
          ∙ ap (with_data c) top)
    ∙ ap (advance (c.m_data - c.m_start)) (goto_next_wraps c)
    ∙ advance-with_data (c.m_data - c.m_start) c.m_start c (omega (arith, r.lo, r.hi))
    ∙ ap (with_data c) back
  where
    count : c.m_end - c.m_start + 1 ≡ c.m_data - c.m_start + suc (c.m_end - c.m_data)
    count = omega (arith, r.lo, r.hi)

    top : c.m_data + (c.m_end - c.m_data) ≡ c.m_end
    top = omega (arith, r.hi)

    back : c.m_start + (c.m_data - c.m_start) ≡ c.m_data
    back = omega (arith, r.lo)
