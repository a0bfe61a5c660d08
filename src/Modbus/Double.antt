-- ===== src/Modbus/Double.antt =====
-- The arithmetic of `double` on finite values: IEEE 754 binary64, rounding to nearest, ties to even.
-- A value is a sign and a count of the smallest unit, 2 ^ -1074. Overflow to infinity is left out: the
-- register words and their factors stay far from it.
use riden_dongle.Base.{
  ℕ, zero, suc, ◌+◌, ◌-◌, ◌*◌, ◌/◌, ◌%◌, ◌^◌, Bool, true, false, not, ◌&&◌, ◌||◌, ltb, ◌==◌,
  if◌then◌else◌,
}

pub record Double : Type 0 where
  pub negative : Bool
  pub units : ℕ

abbrev unit : ℕ
unit = 2 ^ 1074

-- The number of binary digits, up to `fuel`.
digits : ℕ → ℕ → ℕ
digits zero n = 0
digits (suc fuel) n = elim (n == 0) [ true ↦ 0 | false ↦ suc (digits fuel (n / 2)) ]

-- The weight of the last of the 53 digits that are kept.
last_place : ℕ → ℕ
unfolding digits
last_place q = if ltb q (2 ^ 53) then 1 else 2 ^ (digits 2200 q - 53)

-- The units nearest to `a / b`.
round_quotient : ℕ → ℕ → ℕ
unfolding last_place
round_quotient a b =
    let step = last_place (a / b) * b in
    let down = a / step in
    let rest = a % step in
    let up = ltb step (2 * rest) || (2 * rest == step && down % 2 == 1) in
    (if up then down + 1 else down) * last_place (a / b)

abbrev differ : Bool → Bool → Bool
differ true b = not b
differ false b = b

-- `literal m e` is m * 10 ^ -e.
unfoldable pub literal : ℕ → ℕ → Double
unfolding round_quotient
literal m e = record { negative = false; units = round_quotient (m * unit) (10 ^ e) }

unfoldable pub of_nat : ℕ → Double
unfolding round_quotient
of_nat n = record { negative = false; units = round_quotient (n * unit) 1 }

unfoldable pub neg : Double → Double
neg x = record x { negative = not x.negative }

unfoldable pub mul : Double → Double → Double
unfolding round_quotient
mul x y = record {
  negative = differ x.negative y.negative;
  units = round_quotient (x.units * y.units) unit;
}

unfoldable pub div : Double → Double → Double
unfolding round_quotient
div x y = record {
  negative = differ x.negative y.negative;
  units = round_quotient (x.units * unit) y.units;
}

-- `uint16_t(x)` truncates; outside 0 to 65535 the language leaves it open, and this wraps.
unfoldable pub to_u16 : Double → ℕ
to_u16 x = (x.units / unit) % 65536
