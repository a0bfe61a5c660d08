-- ===== src/Modbus/State.antt =====
-- The RidenModbus object (include/riden_modbus/riden_modbus.h) and the shape of its methods: a method
-- returns false, or returns true and fills its out parameters, or is still in its waiting loop when
-- the fuel is spent.
use riden_dongle.Base.{ℕ, Bool, Option, none, some, String, ◌≡◌, ◌≢◌}
use riden_dongle.Modbus.Env.{Env}

pub data Protection : Type 0 where
  ovp ocp none_tripped : Protection

pub data OutputMode : Type 0 where
  constant_voltage constant_current unknown : OutputMode

module _ (E : Env) where
  open E use {Double, World}

  pub record RidenModbus : Type 0 where
    pub initialized : Bool
    pub type : String
    pub v_multi : Double
    pub i_multi : Double
    pub p_multi : Double
    pub v_in_multi : Double
    pub v_max : Double
    pub i_max : Double
    pub timeout : ℕ
    pub bus : World

  pub record Preset : Type 0 where
    pub voltage : Double
    pub current : Double
    pub over_voltage_protection : Double
    pub over_current_protection : Double

pub data Outcome {ℓ κ} (S : Type κ) (A : Type ℓ) : Type (ℓ ⊔ κ) where
  ok : A → S → Outcome S A
  fail : S → Outcome S A
  hung : Outcome S A

-- A method that may return false. Binding is `if (!m) return false;`.
abbrev pub M {ℓ} : Env → Type ℓ → Type ℓ
M E A = RidenModbus E → Outcome (RidenModbus E) A

infixl 5 ◌>>=◌ ◌>>◌
abbrev pub ◌>>=◌ {ℓ κ} : {E : Env} {A : Type ℓ} {B : Type κ} → M E A → (A → M E B) → M E B
◌>>=◌ m f s = elim (m s) [ ok a s' ↦ f a s' | fail s' ↦ fail s' | hung ↦ hung ]

abbrev pub ◌>>◌ {ℓ κ} : {E : Env} {A : Type ℓ} {B : Type κ} → M E A → M E B → M E B
m >> k = m >>= λ _. k

abbrev pub return {ℓ} : {E : Env} {A : Type ℓ} → A → M E A
return a s = ok a s

-- The value that a method reports, where it returns true.
abbrev pub result {ℓ κ} : {S : Type κ} {A : Type ℓ} → Outcome S A → Option A
result (ok a s) = some a
result (fail s) = none
result hung = none

-- The object after the call.
abbrev pub after {ℓ κ} : {S : Type κ} {A : Type ℓ} → Outcome S A → S → S
after (ok a s) d = s
after (fail s) d = s
after hung d = d

-- Where the call returns true, `P` holds of its value and of the object; and it does not hang.
abbrev pub Ensures {ℓ κ} : {S : Type κ} {A : Type ℓ} → (A → S → Type 0) → Outcome S A → Type 0
Ensures P (ok a s) = P a s
Ensures P (fail s) = Unit {0}
Ensures P hung = ⊥

pub Ensures-bind {ℓ κ} :
    {E : Env} {A : Type ℓ} {B : Type κ} (m : M E A) (f : A → M E B) (s : RidenModbus E)
    (P : A → RidenModbus E → Type 0) (Q : B → RidenModbus E → Type 0)
    → Ensures P (m s)
    → ((a : A) (t : RidenModbus E) → P a t → Ensures Q (f a t))
    → Ensures Q ((m >>= f) s)
Ensures-bind {E} {A} {B} m f s P Q h k = go (m s) h
  where
    go :
        (o : Outcome (RidenModbus E) A)
        → Ensures P o
        → Ensures Q (elim o [ ok a s' ↦ f a s' | fail s' ↦ fail s' | hung ↦ hung ])
    go (ok a t) p = k a t p
    go (fail t) p = tt
    go hung p = absurd p

-- A call that ensures anything has returned.
pub Ensures-ne_hung {ℓ κ} :
    {S : Type κ} {A : Type ℓ} (P : A → S → Type 0) (o : Outcome S A) → Ensures P o → o ≢ hung
Ensures-ne_hung P (ok a s) h = cc
Ensures-ne_hung P (fail s) h = cc
Ensures-ne_hung P hung h = absurd h

pub Ensures-weaken {ℓ κ} :
    {S : Type κ} {A : Type ℓ} (P Q : A → S → Type 0) (o : Outcome S A)
    → Ensures P o
    → ((a : A) (s : S) → P a s → Q a s)
    → Ensures Q o
Ensures-weaken P Q (ok a s) h k = k a s h
Ensures-weaken P Q (fail s) h k = tt
Ensures-weaken P Q hung h k = h

-- A step that has returned true hands over to the rest.
pub bind-ok {ℓ κ} :
    {E : Env} {A : Type ℓ} {B : Type κ} (m : M E A) (f : A → M E B) (s : RidenModbus E) {a : A}
    {t : RidenModbus E}
    → m s ≡ ok a t
    → (m >>= f) s ≡ f a t
bind-ok m f s p = λ i. elim (p i) [ ok a s' ↦ f a s' | fail s' ↦ fail s' | hung ↦ hung ]

-- A step that has returned false ends the method.
pub bind-fail {ℓ κ} :
    {E : Env} {A : Type ℓ} {B : Type κ} (m : M E A) (f : A → M E B) (s : RidenModbus E)
    {t : RidenModbus E}
    → m s ≡ fail t
    → (m >>= f) s ≡ fail t
bind-fail m f s p = λ i. elim (p i) [ ok a s' ↦ f a s' | fail s' ↦ fail s' | hung ↦ hung ]
