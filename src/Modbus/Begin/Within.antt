-- ===== src/Modbus/Begin/Within.antt =====
-- Calls of the driver that end between two moments.
use riden_dongle.Base.{ℕ, ◌≤◌, ◌≡◌, refl, ◌∙◌, Bool, true, false, arith, if◌then◌else◌}
use riden_dongle.Modbus.Env.{Env}
use riden_dongle.Modbus.State.{RidenModbus, Outcome, ok, fail, hung, M, ◌>>=◌}

module _ ⦃E : Env⦄ where
  -- A call that ends, true or false, between two moments, and keeps the time limit of the object.
  pub data Within {ℓ} {A : Type ℓ} (lo hi limit : ℕ) : Outcome (RidenModbus E) A → Type ℓ where
    in_time :
        {a : A} {t : RidenModbus E}
        → lo ≤ E.millis t.bus
        → E.millis t.bus ≤ hi
        → t.timeout ≡ limit
        → Within lo hi limit (ok a t)
    in_vain :
        {t : RidenModbus E}
        → lo ≤ E.millis t.bus
        → E.millis t.bus ≤ hi
        → t.timeout ≡ limit
        → Within lo hi limit (fail t)

  pub Within-bind {ℓ κ} :
      {A : Type ℓ} {B : Type κ} (lo mid hi limit : ℕ) (m : M E A) (f : A → M E B)
      (s : RidenModbus E)
      → mid ≤ hi
      → Within lo mid limit (m s)
      → ((a : A) (t : RidenModbus E)
          → lo ≤ E.millis t.bus
          → E.millis t.bus ≤ mid
          → t.timeout ≡ limit
          → Within lo hi limit (f a t))
      → Within lo hi limit ((m >>= f) s)
  Within-bind {A = A} lo mid hi limit m f s le h k = go (m s) h
    where
      go :
          (o : Outcome (RidenModbus E) A)
          → Within lo mid limit o
          → Within lo hi limit (elim o [ ok a t ↦ f a t | fail t ↦ fail t | hung ↦ hung ])
      go (ok a t) (in_time p q e) = k a t p q e
      go (fail t) (in_vain p q e) = in_vain p (omega arith) e
      go hung h = elim h [ ]

  pub Within-weaken {ℓ} :
      {A : Type ℓ} {lo hi later limit limit' : ℕ} (o : Outcome (RidenModbus E) A)
      → hi ≤ later
      → limit ≡ limit'
      → Within lo hi limit o
      → Within lo later limit' o
  Within-weaken (ok a t) le e (in_time p q h) = in_time p (omega arith) (h ∙ e)
  Within-weaken (fail t) le e (in_vain p q h) = in_vain p (omega arith) (h ∙ e)
  Within-weaken hung le e h = elim h [ ]

  pub Within-if {ℓ} :
      {A : Type ℓ} {lo hi limit : ℕ} (b : Bool) (x y : Outcome (RidenModbus E) A)
      → (b ≡ true → Within lo hi limit x)
      → (b ≡ false → Within lo hi limit y)
      → Within lo hi limit (if b then x else y)
  Within-if true x y h k = h refl
  Within-if false x y h k = k refl
