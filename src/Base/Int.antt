-- ===== src/Base/Int.antt =====
-- C's `int` where the source subtracts below zero: `negsuc n` is -(n + 1).
use Prim.Native.Nat.{ℕ, ◌+◌, ◌-◌, ◌%◌}
use mathlib.Core.Path.{◌≡◌}
use native.Mathlib.Omega.{arith}
use riden_dongle.Base.Tests.{ltb, leb, if◌then◌else◌}

pub data ℤ : Type 0 where
  pos : ℕ → ℤ
  negsuc : ℕ → ℤ

-- a - b
abbrev pub sub_ℕ : ℕ → ℕ → ℤ
sub_ℕ a b = if leb b a then pos (a - b) else negsuc (b - a - 1)

-- a + k
abbrev pub add_ℕ : ℤ → ℕ → ℤ
add_ℕ (pos n) k = pos (n + k)
add_ℕ (negsuc n) k = if ltb n k then pos (k - n - 1) else negsuc (n - k)

-- The conversion to `uint16_t`, modulo 2 ^ 16.
abbrev pub int_to_u16 : ℤ → ℕ
int_to_u16 (pos n) = n % 65536
int_to_u16 (negsuc n) = 65535 - n % 65536

-- A 16-bit word from which `k` was taken off comes back when `k` is added again.
pub int_to_u16-add-sub : (a k : ℕ) → int_to_u16 (add_ℕ (sub_ℕ a k) k) ≡ a % 65536
int_to_u16-add-sub a k = ground arith
