-- ===== src/Modbus/Values.antt =====
-- The conversions between register words and values at the end of
-- src/riden_modbus/riden_modbus.cpp, and the structures that they fill.
use riden_dongle.Base.{
  ℕ, ◌+◌, ◌*◌, ◌%◌, ◌^◌, List, [], ◌∷◌, get_or, ℤ, pos, sub_ℕ, add_ℕ, int_to_u16, ◌==◌,
  if◌then◌else◌,
}
use riden_dongle.Modbus.Env.{Env}
use riden_dongle.Modbus.State.{
  RidenModbus, Preset, Protection, ovp, ocp, none_tripped, OutputMode, constant_voltage,
  constant_current, unknown,
}

-- The members of `struct tm` that the source reads and writes.
pub record Tm : Type 0 where
  pub tm_year : ℤ
  pub tm_mon : ℤ
  pub tm_mday : ℤ
  pub tm_hour : ℤ
  pub tm_min : ℤ
  pub tm_sec : ℤ

pub record Calibration : Type 0 where
  pub v_out_zero : ℕ
  pub v_out_scale : ℕ
  pub v_back_zero : ℕ
  pub v_back_scale : ℕ
  pub i_out_zero : ℕ
  pub i_out_scale : ℕ
  pub i_back_zero : ℕ
  pub i_back_scale : ℕ

-- Two words, the high one first, as a `uint32_t`.
abbrev pub u32_of_words : List ℕ → ℕ
u32_of_words values = (get_or values 0 0 * 65536 + get_or values 1 0) % 2 ^ 32

unfoldable pub value_to_protection : ℕ → Protection
value_to_protection value = if value == 1 then ovp else if value == 2 then ocp else none_tripped

unfoldable pub value_to_output_mode : ℕ → OutputMode
value_to_output_mode value =
    if value == 0 then constant_voltage else if value == 1 then constant_current else unknown

unfoldable pub values_to_tm : List ℕ → Tm
values_to_tm values = record {
  tm_year = sub_ℕ (get_or values 0 0) 1900;
  tm_mon = sub_ℕ (get_or values 1 0) 1;
  tm_mday = pos (get_or values 2 0);
  tm_hour = pos (get_or values 3 0);
  tm_min = pos (get_or values 4 0);
  tm_sec = pos (get_or values 5 0);
}

unfoldable pub tm_to_values : Tm → List ℕ
tm_to_values time =
    int_to_u16 (add_ℕ time.tm_year 1900)
    ∷ int_to_u16 (add_ℕ time.tm_mon 1)
    ∷ int_to_u16 time.tm_mday
    ∷ int_to_u16 time.tm_hour
    ∷ int_to_u16 time.tm_min
    ∷ int_to_u16 time.tm_sec
    ∷ []

unfoldable pub words_to_calibration : List ℕ → Calibration
words_to_calibration values = record {
  v_out_zero = get_or values 0 0;
  v_out_scale = get_or values 1 0;
  v_back_zero = get_or values 2 0;
  v_back_scale = get_or values 3 0;
  i_out_zero = get_or values 4 0;
  i_out_scale = get_or values 5 0;
  i_back_zero = get_or values 6 0;
  i_back_scale = get_or values 7 0;
}

unfoldable pub calibration_to_words : Calibration → List ℕ
calibration_to_words c =
    c.v_out_zero ∷ c.v_out_scale ∷ c.v_back_zero ∷ c.v_back_scale ∷ c.i_out_zero ∷ c.i_out_scale
    ∷ c.i_back_zero ∷ c.i_back_scale ∷ []

module _ ⦃E : Env⦄ where
  open E use {Double, literal, of_nat, neg, mul, div, to_u16}

  unfoldable pub value_to_voltage : RidenModbus E → ℕ → Double
  value_to_voltage s value = div (of_nat value) s.v_multi

  unfoldable pub value_to_voltage_in : RidenModbus E → ℕ → Double
  value_to_voltage_in s value = div (of_nat value) s.v_in_multi

  unfoldable pub value_to_current : RidenModbus E → ℕ → Double
  value_to_current s value = div (of_nat value) s.i_multi

  unfoldable pub values_to_power : RidenModbus E → List ℕ → Double
  values_to_power s values = div (of_nat (u32_of_words values)) s.p_multi

  unfoldable pub voltage_to_value : RidenModbus E → Double → ℕ
  voltage_to_value s voltage = to_u16 (mul voltage s.v_multi)

  unfoldable pub current_to_value : RidenModbus E → Double → ℕ
  current_to_value s current = to_u16 (mul current s.i_multi)

  unfoldable pub values_to_temperature : List ℕ → Double
  values_to_temperature values =
      if get_or values 0 0 == 0
      then of_nat (get_or values 1 0)
      else neg (of_nat (get_or values 1 0))

  unfoldable pub values_to_ah : List ℕ → Double
  values_to_ah values = div (of_nat (u32_of_words values)) (literal 1000 0)

  unfoldable pub values_to_wh : List ℕ → Double
  values_to_wh values = div (of_nat (u32_of_words values)) (literal 1000 0)

  unfoldable pub values_to_preset : RidenModbus E → List ℕ → Preset E
  values_to_preset s values = record {
    voltage = value_to_voltage s (get_or values 0 0);
    current = value_to_current s (get_or values 1 0);
    over_voltage_protection = value_to_voltage s (get_or values 2 0);
    over_current_protection = value_to_current s (get_or values 3 0);
  }

  unfoldable pub preset_to_values : RidenModbus E → Preset E → List ℕ
  preset_to_values s preset =
      voltage_to_value s preset.voltage
      ∷ current_to_value s preset.current
      ∷ voltage_to_value s preset.over_voltage_protection
      ∷ current_to_value s preset.over_current_protection
      ∷ []
