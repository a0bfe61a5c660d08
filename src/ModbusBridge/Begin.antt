-- ===== src/ModbusBridge/Begin.antt =====
-- The static pointer to the bridge.
use riden_dongle.Base.{
  ℕ, ◌≡◌, refl, ◌∙◌, ap, sym, Bool, Bool-cases, true, false, inl, inr, Option, none, some, ◌==◌,
  if◌then◌else◌, arith,
}
use riden_dongle.ModbusBridge.{Link, RidenModbusBridge, Objects, begin, begun}

module _ {L : Link} where
  -- The pointer is at every object that is initialized, so that there is one at most.
  abbrev pub OnlyOne : Objects L → Type 0
  OnlyOne f = (i : ℕ) → (f.object i).initialized ≡ true → f.one_and_only ≡ some i

  begin-initialized :
      (at : ℕ) (f : Objects L) → (f.object at).initialized ≡ true → begin at f ≡ (true, f)
  unfolding begin
  begin-initialized at f e = λ i. if e i then (true, f) else begun at f f.one_and_only

  begin-new :
      (at : ℕ) (f : Objects L) (p : Option ℕ)
      → (f.object at).initialized ≡ false
      → f.one_and_only ≡ p
      → begin at f ≡ begun at f p
  unfolding begin
  begin-new at f p e q =
      (λ i. if e i then (true, f) else begun at f f.one_and_only) ∙ ap (begun at f) q

  -- What `begin` promises of its result.
  abbrev pub Begun : ℕ → Bool × Objects L → Type 0
  Begun at (res, f) = OnlyOne f × (res ≡ (f.object at).initialized)

  begun-Begun :
      (at : ℕ) (f : Objects L) (p : Option ℕ)
      → (f.object at).initialized ≡ false
      → f.one_and_only ≡ p
      → OnlyOne f
      → Begun at (begun at f p)
  begun-Begun at f (some other) e q one = (one, sym e)
  begun-Begun at f none e q one = (only, own)
    where
      same : (at == at) ≡ true
      same = ground arith

      new : RidenModbusBridge L
      new = record (f.object at) { initialized = true; world = L.begin_server (f.object at).world }

      own : true ≡ (if at == at then new else f.object at).initialized
      own = rw same refl

      only : (i : ℕ) → (if i == at then new else f.object i).initialized ≡ true → some at ≡ some i
      only i h = elim (Bool-cases (i == at)) [
        | inl here ↦ ap some (grind arith)
        | inr there ↦
            cc (q, one i (ap (λ b. (if b then new else f.object i).initialized) (sym there) ∙ h))
      ]

  -- `begin` of any object leaves the pointer at every object that is initialized, and returns true
  -- exactly when its object is initialized then.
  pub begin-OnlyOne : (at : ℕ) (f : Objects L) → OnlyOne f → Begun at (begin at f)
  begin-OnlyOne at f one = elim (Bool-cases (f.object at).initialized) [
    | inl e ↦ rw (begin-initialized at f e) (one, sym e)
    | inr e ↦ rw (begin-new at f f.one_and_only e refl) (begun-Begun at f f.one_and_only e refl one)
  ]
