-- ===== src/Base/Text.antt =====
-- Texts as the bytes that C has for them.
use Prim.Native.Nat.{ℕ}
use Prim.Native.Char.{code}
use Prim.Native.String.{String}
use mathlib.Core.Path.{◌≡◌, refl}
use mathlib.Core.Bool.{Bool, true, false}
use mathlib.Core.List.{List, [], ◌∷◌}
use native.Mathlib.Omega.{arith}
use riden_dongle.Base.Tests.{◌==◌}

-- The code points of a text: its bytes, if it is ASCII.
abbrev pub codes : String → List ℕ
codes String.[] = []
codes (String.◌∷◌ c s) = code c ∷ codes s

-- `compareTo(...) == 0` on the bytes.
abbrev pub same : List ℕ → List ℕ → Bool
same [] [] = true
same [] (d ∷ ds) = false
same (c ∷ cs) [] = false
same (c ∷ cs) (d ∷ ds) = let rest = same cs ds in elim (c == d) [ true ↦ rest | false ↦ false ]

pub same_refl : (cs : List ℕ) → same cs cs ≡ true
same_refl [] = refl
same_refl (c ∷ cs) = ground (arith, same_refl cs)

pub same→eq : (cs ds : List ℕ) → same cs ds ≡ true → cs ≡ ds
same→eq [] [] h = refl
same→eq [] (d ∷ ds) h = cc h
same→eq (c ∷ cs) [] h = cc h
same→eq (c ∷ cs) (d ∷ ds) h = ground (arith, same→eq cs ds)
