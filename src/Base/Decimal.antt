-- ===== src/Base/Decimal.antt =====
-- Numbers as the digits that `sprintf` prints for `%u`.
use Prim.Native.Nat.{ℕ, zero, suc, ◌+◌, ◌-◌, ◌*◌, ◌/◌, ◌%◌, ◌<◌, ◌≤◌}
use mathlib.Core.Path.{◌≡◌, refl, ap, ◌∙◌}
use mathlib.Core.Bool.{true}
use mathlib.Core.Logic.{inl, inr}
use mathlib.Core.List.{List, [], ◌∷◌, ◌++◌}
use native.Mathlib.Omega.{arith}
use riden_dongle.Base.Tests.{ltb, ltb→lt, Bool-cases, if◌then◌else◌}
use riden_dongle.Base.Lists.{length, length-append}

-- The digits of a number, the first one first, where `places` are enough for them.
unfoldable pub digits_of : ℕ → ℕ → List ℕ
digits_of zero n = []
digits_of (suc places) n =
    let rest = digits_of places (n / 10) in
    if ltb n 10 then (48 + n) ∷ [] else rest ++ ((48 + n % 10) ∷ [])

abbrev pub zeros : ℕ → List ℕ
zeros zero = []
zeros (suc n) = 48 ∷ zeros n

-- `%u` and `%0<least>u` of a number of 32 bits, which has ten digits at most.
abbrev pub decimal : ℕ → List ℕ
decimal n = digits_of 10 n

abbrev pub padded : ℕ → ℕ → List ℕ
padded least n = zeros (least - length (decimal n)) ++ decimal n

-- The number that digits stand for, behind those of `n`.
abbrev pub value_from : ℕ → List ℕ → ℕ
value_from n [] = n
value_from n (c ∷ cs) = value_from (n * 10 + (c - 48)) cs

unfoldable pub bound : ℕ → ℕ
bound zero = 1
bound (suc places) = 10 * bound places

value_from-append :
    (n : ℕ) (xs : List ℕ) (c : ℕ) → value_from n (xs ++ (c ∷ [])) ≡ value_from n xs * 10 + (c - 48)
value_from-append n [] c = refl
value_from-append n (x ∷ xs) c = value_from-append (n * 10 + (x - 48)) xs c

pub value-digits_of : (places n : ℕ) → n < bound places → value_from 0 (digits_of places n) ≡ n
unfolding digits_of bound
value-digits_of zero n h = omega arith
value-digits_of (suc places) n h = elim (Bool-cases (ltb n 10)) [
  | inl small ↦ rw small (omega arith)
  | inr large ↦ rw large (
      value_from-append 0 (digits_of places (n / 10)) (48 + n % 10)
      ∙ ap (λ m. m * 10 + (48 + n % 10 - 48)) (value-digits_of places (n / 10) (omega arith))
      ∙ omega arith)
]

length-zeros : (k : ℕ) → length (zeros k) ≡ k
length-zeros zero = refl
length-zeros (suc k) = ap suc (length-zeros k)

value_from-zeros : (k : ℕ) (cs : List ℕ) → value_from 0 (zeros k ++ cs) ≡ value_from 0 cs
value_from-zeros zero cs = refl
value_from-zeros (suc k) cs = value_from-zeros k cs

-- A padded number of 32 bits is read as the number.
pub value-padded : (least n : ℕ) → n < 10000000000 → value_from 0 (padded least n) ≡ n
unfolding bound
value-padded least n h =
    value_from-zeros (least - length (decimal n)) (decimal n) ∙ value-digits_of 10 n (omega arith)

-- A number below 10^k has k digits at most.
length-digits_of : (places k n : ℕ) → n < bound (suc k) → length (digits_of places n) ≤ suc k
unfolding digits_of bound
length-digits_of zero k n h = omega arith
length-digits_of (suc places) zero n h =
    let small : ltb n 10 ≡ true = ground arith in rw small (omega arith)
length-digits_of (suc places) (suc k) n h = elim (Bool-cases (ltb n 10)) [
  | inl small ↦ rw small (omega arith)
  | inr large ↦
      rw (large, length-append (digits_of places (n / 10)) ((48 + n % 10) ∷ []))
        (omega (arith, length-digits_of places k (n / 10) (omega arith)))
]

-- Nine places are enough for the padded digits of a number below 10^9, and two for one below 100.
pub length-padded : (least n : ℕ) → n < 1000000000 → least ≤ 9 → length (padded least n) ≤ 9
unfolding bound
length-padded least n h le =
    rw
      (
        length-append (zeros (least - length (decimal n))) (decimal n),
        length-zeros (least - length (decimal n)),
      )
      (omega (arith, length-digits_of 10 8 n (omega arith)))

pub length-decimal_3 : (n : ℕ) → n < 1000 → length (decimal n) ≤ 3
unfolding bound
length-decimal_3 n h = length-digits_of 10 2 n (omega arith)

-- Each is the code of a decimal digit.
abbrev pub Digits : List ℕ → Type 0
Digits [] = Unit {0}
Digits (c ∷ cs) = (48 ≤ c) × (c ≤ 57) × Digits cs

Digits-append : (xs ys : List ℕ) → Digits xs → Digits ys → Digits (xs ++ ys)
Digits-append [] ys hx hy = hy
Digits-append (x ∷ xs) ys (lo, hi, hx) hy = (lo, hi, Digits-append xs ys hx hy)

pub digits_of-Digits : (places n : ℕ) → Digits (digits_of places n)
unfolding digits_of
digits_of-Digits zero n = tt
digits_of-Digits (suc places) n = elim (Bool-cases (ltb n 10)) [
  | inl small ↦ let one : n < 10 = ltb→lt n 10 small in rw small (omega arith)
  | inr large ↦ rw large (
      Digits-append (digits_of places (n / 10)) ((48 + n % 10) ∷ [])
        (digits_of-Digits places (n / 10)) (omega arith))
]

pub padded-Digits : (least n : ℕ) → Digits (padded least n)
padded-Digits least n =
    Digits-append (zeros (least - length (decimal n))) (decimal n)
      (zeros-Digits (least - length (decimal n))) (digits_of-Digits 10 n)
  where
    zeros-Digits : (k : ℕ) → Digits (zeros k)
    zeros-Digits zero = tt
    zeros-Digits (suc k) = (omega arith, omega arith, zeros-Digits k)

pub padded_at_least : (least n : ℕ) → least ≤ length (padded least n)
padded_at_least least n =
    rw
      (
        length-append (zeros (least - length (decimal n))) (decimal n),
        length-zeros (least - length (decimal n)),
      )
      (omega arith)

-- No zero stands before a number: one below 10 has one digit, and one from 10 to 99 has two.
pub length-decimal_2 : (n : ℕ) → n < 100 → length (decimal n) ≡ (if ltb n 10 then 1 else 2)
unfolding digits_of
length-decimal_2 n h = elim (Bool-cases (ltb n 10)) [
  | inl small ↦ rw small refl
  | inr large ↦ let next : ltb (n / 10) 10 ≡ true = ground arith in rw (large, next) refl
]
