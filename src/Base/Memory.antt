-- ===== src/Base/Memory.antt =====
-- Arrays as functions of the index: a register file, or the bytes of a C buffer.
use Prim.Native.Nat.{ℕ, zero, suc, ◌+◌, ◌<◌, ◌≤◌}
use mathlib.Core.Path.{◌≡◌, refl, ap, sym, ◌∙◌}
use mathlib.Core.Bool.{false}
use mathlib.Core.Logic.{◌⊎◌, inl, inr}
use mathlib.Core.Option.{Option, none, some}
use mathlib.Core.List.{List, [], ◌∷◌, ◌++◌}
use native.Mathlib.Omega.{arith}
use native.Mathlib.Nat.{add-zero, zero-add, suc-add}
use riden_dongle.Base.Tests.{◌==◌, ==_iff, Bool-cases, if◌then◌else◌}
use riden_dongle.Base.Lists.{length}

-- The entries from `a` on, `n` of them.
abbrev pub slice : (ℕ → ℕ) → ℕ → ℕ → List ℕ
slice regs a zero = []
slice regs a (suc n) = regs a ∷ slice regs (a + 1) n

abbrev pub update : (ℕ → ℕ) → ℕ → ℕ → ℕ → ℕ
update regs a v i = if i == a then v else regs i

abbrev pub updates : (ℕ → ℕ) → ℕ → List ℕ → ℕ → ℕ
updates regs a [] = regs
updates regs a (v ∷ vs) = updates (update regs a v) (a + 1) vs

pub slice-append :
    (regs : ℕ → ℕ) (a m n : ℕ) → slice regs a m ++ slice regs (a + m) n ≡ slice regs a (m + n)
slice-append regs a zero n = rw (add-zero, zero-add)
slice-append regs a (suc m) n =
    rw (shift, suc-add) (ap (λ vs. regs a ∷ vs) (slice-append regs (a + 1) m n))
  where
    shift : a + suc m ≡ a + 1 + m
    shift = omega arith

-- A slice tells apart only the entries that it covers.
pub slice-ext :
    (f g : ℕ → ℕ) (a n : ℕ) → ((i : ℕ) → a ≤ i → i < a + n → f i ≡ g i) → slice f a n ≡ slice g a n
slice-ext f g a zero h = refl
slice-ext f g a (suc n) h =
    ap (λ v. v ∷ slice f (a + 1) n) (h a (omega arith) (omega arith))
    ∙ ap (λ vs. g a ∷ vs) (slice-ext f g (a + 1) n (λ i lo hi. h i (omega arith) (omega arith)))

-- What is written below or above `i` leaves the entry at `i` alone.
pub updates_outside :
    (f : ℕ → ℕ) (a : ℕ) (vs : List ℕ) (i : ℕ)
    → (i < a) ⊎ (a + length vs ≤ i)
    → updates f a vs i ≡ f i
updates_outside f a [] i h = refl
updates_outside f a (v ∷ vs) i h =
    updates_outside (update f a v) (a + 1) vs i (omega arith) ∙ untouched
  where
    untouched : update f a v i ≡ f i
    untouched = ground arith

-- A slice of what has just been written there.
pub slice-updates : (f : ℕ → ℕ) (a : ℕ) (vs : List ℕ) → slice (updates f a vs) a (length vs) ≡ vs
slice-updates f a [] = refl
slice-updates f a (v ∷ vs) =
    ap (λ x. x ∷ slice (updates (update f a v) (a + 1) vs) (a + 1) (length vs)) first
    ∙ ap (λ xs. v ∷ xs) (slice-updates (update f a v) (a + 1) vs)
  where
    first : updates (update f a v) (a + 1) vs a ≡ v
    first = updates_outside (update f a v) (a + 1) vs a (omega arith) ∙ ground arith

pub length-slice : (f : ℕ → ℕ) (a n : ℕ) → length (slice f a n) ≡ n
length-slice f a zero = refl
length-slice f a (suc n) = ap suc (length-slice f (a + 1) n)

-- Two arrays that agree at an entry agree there after the same writes.
pub updates-ext :
    (f g : ℕ → ℕ) (a : ℕ) (vs : List ℕ) (i : ℕ) → f i ≡ g i → updates f a vs i ≡ updates g a vs i
updates-ext f g a [] i e = e
updates-ext f g a (v ∷ vs) i e =
    updates-ext (update f a v) (update g a v) (a + 1) vs i (ap (λ x. if i == a then v else x) e)

pub slice-updates_append :
    (f : ℕ → ℕ) (a : ℕ) (xs ys : List ℕ) → slice (updates f a (xs ++ ys)) a (length xs) ≡ xs
slice-updates_append f a [] ys = refl
slice-updates_append f a (x ∷ xs) ys =
    ap (λ v. v ∷ slice (updates (update f a x) (a + 1) (xs ++ ys)) (a + 1) (length xs)) first
    ∙ ap (λ vs. x ∷ vs) (slice-updates_append (update f a x) (a + 1) xs ys)
  where
    first : updates (update f a x) (a + 1) (xs ++ ys) a ≡ x
    first = updates_outside (update f a x) (a + 1) (xs ++ ys) a (omega arith) ∙ ground arith

-- The first zero byte of the `n` bytes from `at` on.
abbrev pub find_nul : (ℕ → ℕ) → ℕ → ℕ → Option ℕ
find_nul b at zero = none
find_nul b at (suc n) = if b at == 0 then some at else find_nul b (at + 1) n

abbrev pub NoNul : List ℕ → Type 0
NoNul [] = Unit {0}
NoNul (c ∷ cs) = (0 < c) × NoNul cs

-- Where the first zero byte stands, with those before it, or that none of the `n` bytes is one.
pub find_nul-cases :
    (b : ℕ → ℕ) (at n : ℕ)
    → ((k : ℕ) × (find_nul b at n ≡ some k) × (b k ≡ 0) × ((i : ℕ) → at ≤ i → i < k → 0 < b i))
      ⊎ ((find_nul b at n ≡ none) × ((i : ℕ) → at ≤ i → i < at + n → 0 < b i))
find_nul-cases b at zero = inr (refl, λ i lo hi. absurd (omega arith))
find_nul-cases b at (suc n) = elim (Bool-cases (b at == 0)) [
  | inl e ↦ inl (at, rw e refl, (==_iff (b at) 0).0 e, λ i lo hi. absurd (omega arith))
  | inr e ↦ elim (find_nul-cases b (at + 1) n) [
    | inl (k, found, nul, before) ↦
        inl (k, rw e found, nul, λ i lo hi. from e i lo (λ later. before i later hi))
    | inr (none_found, before) ↦
        inr (rw e none_found, λ i lo hi. from e i lo (λ later. before i later (omega arith)))
  ]
]
  where
    from : (b at == 0) ≡ false → (i : ℕ) → at ≤ i → (at + 1 ≤ i → 0 < b i) → 0 < b i
    from e i lo later = elim (Bool-cases (i == at)) [
      | inl here ↦
          let same : i ≡ at = (==_iff i at).0 here in
          let pos : 0 < b at = ground arith in rw same pos
      | inr away ↦ let past : at + 1 ≤ i = ground arith in later past
    ]

-- Bytes of which none is zero, where they have been written.
pub NoNul-updates :
    (f : ℕ → ℕ) (a : ℕ) (cs : List ℕ) (i : ℕ)
    → NoNul cs
    → a ≤ i
    → i < a + length cs
    → 0 < updates f a cs i
NoNul-updates f a [] i full lo hi = absurd (omega arith)
NoNul-updates f a (c ∷ cs) i (pos, full) lo hi = elim (Bool-cases (i == a)) [
  | inl here ↦
      let same : i ≡ a = (==_iff i a).0 here in
      let first : updates (update f a c) (a + 1) cs i ≡ c =
        updates_outside (update f a c) (a + 1) cs i (inl (omega arith)) ∙ rw here refl in
      rw first pos
  | inr away ↦
      let past : a + 1 ≤ i = ground arith in
      NoNul-updates (update f a c) (a + 1) cs i full past (omega arith)
]

-- The bytes of a text and the zero byte that ends it, in memory.
abbrev pub Holds : (ℕ → ℕ) → ℕ → List ℕ → Type 0
Holds b at [] = b at ≡ 0
Holds b at (c ∷ cs) = (b at ≡ c) × Holds b (at + 1) cs

-- Text without a zero byte ends where its own end is.
pub find_nul-Holds :
    (b : ℕ → ℕ) (at n : ℕ) (cs : List ℕ)
    → NoNul cs
    → Holds b at cs
    → length cs < n
    → find_nul b at n ≡ some (at + length cs)
find_nul-Holds b at zero cs full h lt = absurd (omega arith)
find_nul-Holds b at (suc n) [] full h lt = rw h (ap some (omega arith))
find_nul-Holds b at (suc n) (c ∷ cs) (pos, full) (e, h) lt =
    rw more (find_nul-Holds b (at + 1) n cs full h (omega arith) ∙ ap some (omega arith))
  where
    more : (b at == 0) ≡ false
    more = ground arith

pub slice-Holds : (b : ℕ → ℕ) (at : ℕ) (cs : List ℕ) → Holds b at cs → slice b at (length cs) ≡ cs
slice-Holds b at [] h = refl
slice-Holds b at (c ∷ cs) (e, h) = rw e (ap (λ r. c ∷ r) (slice-Holds b (at + 1) cs h))

pub Holds-ext :
    (f g : ℕ → ℕ) (at : ℕ) (cs : List ℕ)
    → ((i : ℕ) → at ≤ i → i < at + length cs + 1 → f i ≡ g i)
    → Holds f at cs
    → Holds g at cs
Holds-ext f g at [] same h = sym (same at (omega arith) (omega arith)) ∙ h
Holds-ext f g at (c ∷ cs) same (e, h) = (
  sym (same at (omega arith) (omega arith)) ∙ e,
  Holds-ext f g (at + 1) cs (λ i lo hi. same i (omega arith) (omega arith)) h,
)

pub Holds-updates : (f : ℕ → ℕ) (at : ℕ) (cs : List ℕ) → Holds (updates f at (cs ++ 0 ∷ [])) at cs
Holds-updates f at [] = ground arith
Holds-updates f at (c ∷ cs) = (
  updates_outside (update f at c) (at + 1) (cs ++ 0 ∷ []) at (omega arith) ∙ ground arith,
  Holds-updates (update f at c) (at + 1) cs,
)

-- A text that is written before a zero byte.
pub Holds-updates_before :
    (f : ℕ → ℕ) (at : ℕ) (cs : List ℕ) → f (at + length cs) ≡ 0 → Holds (updates f at cs) at cs
Holds-updates_before f at [] e = ap f (omega arith) ∙ e
Holds-updates_before f at (c ∷ cs) e = (
  updates_outside (update f at c) (at + 1) cs at (omega arith) ∙ ground arith,
  Holds-updates_before (update f at c) (at + 1) cs end,
)
  where
    end : update f at c (at + 1 + length cs) ≡ 0
    end =
        let other : (at + 1 + length cs == at) ≡ false = ground arith in
        rw other (ap f (omega arith) ∙ e)

-- A slice that is written where it was taken.
pub updates-slice :
    (g f : ℕ → ℕ) (a n i : ℕ) → a ≤ i → i < a + n → updates g a (slice f a n) i ≡ f i
updates-slice g f a zero i lo hi = absurd (omega arith)
updates-slice g f a (suc n) i lo hi = elim (Bool-cases (i == a)) [
  | inl e ↦
      let here : i ≡ a = (==_iff i a).0 e in
      updates_outside (update g a (f a)) (a + 1) (slice f (a + 1) n) i (inl (omega arith))
      ∙ rw e (ap f (sym here))
  | inr e ↦
      let later : a < i = ground arith in
      updates-slice (update g a (f a)) f (a + 1) n i (omega arith) (omega arith)
]
