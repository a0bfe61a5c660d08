-- ===== src/Modbus/Raw/Wait.antt =====
-- How `wait_for_inactive` ends: it always does unless the millisecond counter is about to wrap, and
-- each way of ending has its reason.
use riden_dongle.Base.{
  ℕ, zero, suc, ◌+◌, ◌*◌, ◌%◌, ◌-◌, ◌^◌, ◌≤◌, ◌<◌, ◌≡◌, refl, ◌≢◌, inl, inr, Bool, List, true,
  false, ltb, ltb→lt, ltb-false, Bool-cases, arith, ap, ◌∙◌,
}
use riden_dongle.Modbus.Env.{Env}
use riden_dongle.Modbus.State.{
  RidenModbus, Outcome, ok, fail, hung, Ensures, Ensures-bind, Ensures-ne_hung, Ensures-weaken, M,
  ◌>>=◌,
}
use riden_dongle.Modbus.Raw.{
  wait_loop, wait_for_inactive, request, received, read_holding_registers, write_holding_register,
  write_holding_registers,
}

-- `delay(1)` lets a millisecond pass at least, and a round takes `round` at most, while the counter
-- does not wrap; neither does handing a request to the library take longer.
pub record Clocked (E : Env) (round : ℕ) : Type 0 where
  pub forward :
      (w : E.World)
      → E.millis w + round < 2 ^ 32
      → (E.millis w < E.millis (E.tick w)) × (E.millis (E.tick w) ≤ E.millis w + round)
  pub read_time : (a n : ℕ) (w : E.World) → E.millis (E.read_hreg a n w).1 ≤ E.millis w + round
  pub write_time : (a v : ℕ) (w : E.World) → E.millis (E.write_hreg a v w).1 ≤ E.millis w + round
  pub writes_time :
      (a : ℕ) (vs : List ℕ) (w : E.World) → E.millis (E.write_hregs a vs w).1 ≤ E.millis w + round

module _ ⦃E : Env⦄ where
  -- What each ending of a wait that began at `s` with the limit `wait_until` means.
  abbrev pub Ended : ℕ → RidenModbus E → Outcome (RidenModbus E) (Unit {0}) → Type 0
  Ended wait_until s (ok _ s') =
      (E.server s'.bus ≡ false) × (E.millis s'.bus ≤ wait_until) × (s' ≡ record s { bus = s'.bus })
  Ended wait_until s (fail s') = (wait_until < E.millis s'.bus) × (s' ≡ record s { bus = s'.bus })
  Ended wait_until s hung = ⊥

  wait_loop-Ended :
      (round : ℕ) (fuel wait_until : ℕ) (s : RidenModbus E)
      → Clocked E round
      → wait_until + round < 2 ^ 32
      → E.millis s.bus ≤ wait_until
      → wait_until < E.millis s.bus + fuel
      → Ended wait_until s (wait_loop fuel wait_until s)
  unfolding wait_loop
  wait_loop-Ended round zero wait_until s c nowrap early enough = absurd (omega arith)
  wait_loop-Ended round (suc fuel) wait_until s c nowrap early enough =
      elim (Bool-cases (E.server s.bus)) [
        | inr idle ↦ rw idle (idle, early, refl)
        | inl busy ↦ elim (Bool-cases (ltb wait_until (E.millis (E.tick s.bus)))) [
          | inl late ↦ rw (busy, late) (ltb→lt _ _ late, refl)
          | inr more ↦
              let step = c.forward s.bus (omega arith) in
              rw (busy, more)
                (wait_loop-Ended round fuel wait_until (record s { bus = E.tick s.bus }) c nowrap
                  (ltb-false _ _ more) (omega arith))
        ]
      ]

  -- Once initialised, with `timeout` and a round to go before the counter wraps, `wait_for_inactive`
  -- returns: true with no transaction in flight and the time limit not passed, or false after the
  -- time limit. It changes nothing but the bus.
  pub wait_for_inactive_ends :
      (round : ℕ) (s : RidenModbus E)
      → Clocked E round
      → s.initialized ≡ true
      → E.millis s.bus + s.timeout + round < 2 ^ 32
      → Ended (E.millis s.bus + s.timeout) s (wait_for_inactive s)
  unfolding wait_for_inactive
  wait_for_inactive_ends round s c on room =
      simp (on, limit)
        (wait_loop-Ended round (suc s.timeout) (E.millis s.bus + s.timeout) s c room (omega arith)
          (omega arith))
    where
      limit : (E.millis s.bus + s.timeout) % 2 ^ 32 ≡ E.millis s.bus + s.timeout
      limit = omega arith

  -- The object at a moment of a transfer that began at `s`: still initialised, and by `limit`.
  abbrev By : ℕ → RidenModbus E → RidenModbus E → Type 0
  By limit s t =
      (t.initialized ≡ s.initialized) × (t.timeout ≡ s.timeout) × (E.millis t.bus ≤ limit)

  Ended-By :
      (u limit : ℕ) (s t : RidenModbus E) (o : Outcome (RidenModbus E) (Unit {0}))
      → u ≤ limit
      → t.initialized ≡ s.initialized
      → t.timeout ≡ s.timeout
      → Ended u t o
      → Ensures (λ _. By limit s) o
  Ended-By u limit s t (ok a v) le p q h =
      (ap (λ r. r.initialized) h.2 ∙ p, ap (λ r. r.timeout) h.2 ∙ q, omega arith)
  Ended-By u limit s t (fail v) le p q h = tt
  Ended-By u limit s t hung le p q h = h

  wait_for_inactive-By :
      (round limit final : ℕ) (s t : RidenModbus E)
      → Clocked E round
      → s.initialized ≡ true
      → limit + s.timeout + round < 2 ^ 32
      → limit + s.timeout ≤ final
      → By limit s t
      → Ensures (λ _. By final s) (wait_for_inactive t)
  wait_for_inactive-By round limit final s t c on room le b =
      Ended-By (E.millis t.bus + t.timeout) final s t (wait_for_inactive t) (omega (arith, b)) b.0
        b.1 (wait_for_inactive_ends round t c (b.0 ∙ on) (omega (arith, b)))

  request-By :
      (round limit : ℕ) (s t : RidenModbus E) (call : E.World → Bool × E.World)
      → ((w : E.World) → E.millis (call w).1 ≤ E.millis w + round)
      → By limit s t
      → Ensures (λ _. By (limit + round) s) (request call t)
  request-By round limit s t call time b = elim (Bool-cases (call t.bus).0) [
    | inl taken ↦ rw taken (b.0, b.1, omega (arith, time t.bus, b))
    | inr refused ↦ rw refused tt
  ]

  -- A transfer up to its last part: wait, hand the request over, and go on.
  transfer-By {ℓ} :
      {A : Type ℓ} (round : ℕ) (s : RidenModbus E) (call : E.World → Bool × E.World) (rest : M E A)
      (P : A → RidenModbus E → Type 0)
      → Clocked E round
      → ((w : E.World) → E.millis (call w).1 ≤ E.millis w + round)
      → s.initialized ≡ true
      → E.millis s.bus + s.timeout + round < 2 ^ 32
      → ((t : RidenModbus E) → By (E.millis s.bus + s.timeout + round) s t → Ensures P (rest t))
      → Ensures P ((wait_for_inactive >>= λ _. request call >>= λ _. rest) s)
  transfer-By round s call rest P c time on room ends =
      Ensures-bind wait_for_inactive (λ _. request call >>= λ _. rest) s
        (λ _. By (E.millis s.bus + s.timeout) s) P
        (wait_for_inactive-By round (E.millis s.bus) _ s s c on (omega arith) (omega arith)
          (refl, refl, omega arith))
        (λ _ t b.
          Ensures-bind (request call) (λ _. rest) t (λ _. By (E.millis s.bus + s.timeout + round) s)
            P (request-By round _ s t call time b) (λ _ v d. ends v d))

  -- With two time limits and two rounds to go before the counter wraps, each of the three transfers
  -- of an initialised object returns: it does not stay in a waiting loop.
  pub transfers_return :
      (round : ℕ) (s : RidenModbus E) (start n value : ℕ) (values : List ℕ)
      → Clocked E round
      → s.initialized ≡ true
      → E.millis s.bus + 2 * s.timeout + 2 * round < 2 ^ 32
      → (read_holding_registers start n s ≢ hung)
        × (write_holding_register start value s ≢ hung)
        × (write_holding_registers start values s ≢ hung)
  unfolding read_holding_registers write_holding_register write_holding_registers
  transfers_return round s start n value values c on room = (
    Ensures-ne_hung (λ _ _. Unit {0}) _
        (transfer-By round s (E.read_hreg start n) (wait_for_inactive >>= λ _. received) _ c
          (c.read_time start n) on (omega arith)
          (λ t b.
            Ensures-bind wait_for_inactive (λ _. received) t (λ _ _. Unit {0}) _ (ends t b)
              (λ _ v _. tt))),
    Ensures-ne_hung (λ _ _. Unit {0}) _
        (transfer-By round s (E.write_hreg start value) wait_for_inactive _ c
          (c.write_time start value) on (omega arith) ends),
    Ensures-ne_hung (λ _ _. Unit {0}) _
        (transfer-By round s (E.write_hregs start values) wait_for_inactive _ c
          (c.writes_time start values) on (omega arith) ends),
  )
    where
      ends :
          (t : RidenModbus E)
          → By (E.millis s.bus + s.timeout + round) s t
          → Ensures (λ _ _. Unit {0}) (wait_for_inactive t)
      ends t b =
          Ensures-weaken _ _ (wait_for_inactive t)
            (wait_for_inactive-By round (E.millis s.bus + s.timeout + round)
              (E.millis s.bus + s.timeout + round + s.timeout) s t c on (omega arith) (omega arith)
              b)
            (λ _ _ _. tt)

  -- Where the limit is the largest value of the counter, the test of the limit never passes: with a
  -- transaction that never ends the loop goes on for any number of rounds.
  pub wait_loop_at_wrap :
      (fuel : ℕ) (s : RidenModbus E)
      → ((w : E.World) → E.millis w < 2 ^ 32)
      → ((w : E.World) → E.server w ≡ true)
      → wait_loop fuel (2 ^ 32 - 1) s ≡ hung
  unfolding wait_loop
  wait_loop_at_wrap zero s h busy = rw (busy s.bus)
  wait_loop_at_wrap (suc fuel) s h busy =
      rw (busy s.bus, late) (wait_loop_at_wrap fuel (record s { bus = E.tick s.bus }) h busy)
    where
      late : ltb (2 ^ 32 - 1) (E.millis (E.tick s.bus)) ≡ false
      late = ground (arith, h (E.tick s.bus))
