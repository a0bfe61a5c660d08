-- ===== src/Modbus/AllValues.antt =====
-- `get_all_values` of src/riden_modbus/riden_modbus.cpp: the register file in pieces of 20 registers,
-- decoded into one structure.
pub mod Reading
pub mod Agrees
use riden_dongle.Base.{
  ℕ, zero, suc, ◌+◌, ◌*◌, ◌-◌, ◌%◌, Bool, not, List, [], ◌∷◌, ◌++◌, Option, none, some, get_or,
  drop, min, ltb, ◌==◌, if◌then◌else◌,
}
use riden_dongle.Modbus.Registers.{Register, offset}
use riden_dongle.Modbus.Env.{Env}
use riden_dongle.Modbus.State.{
  RidenModbus, Preset, Protection, OutputMode, ok, hung, M, ◌>>=◌, return,
}
use riden_dongle.Modbus.Values.{
  Tm, Calibration, value_to_protection, value_to_output_mode, values_to_tm, value_to_voltage,
  value_to_voltage_in, value_to_current, values_to_power, values_to_temperature, values_to_ah,
  values_to_wh, values_to_preset,
}
use riden_dongle.Modbus.Raw.{read_holding_registers}
use riden_dongle.Modbus.Access.{with_self}

-- The members that only the full reading fills.
pub record Details (E : Env) : Type 0 where
  pub clock : Tm
  pub calibration : Calibration
  pub is_take_ok : Bool
  pub is_take_out : Bool
  pub is_power_on_boot : Bool
  pub is_buzzer_enabled : Bool
  pub is_logo : Bool
  pub language : ℕ
  pub brightness : ℕ
  pub presets : List (Preset E)

-- `AllValues`; `details` is `none` where the method returned before filling those members.
pub record AllValues (E : Env) : Type 0 where
  pub system_temperature_celsius : E.Double
  pub system_temperature_fahrenheit : E.Double
  pub voltage_set : E.Double
  pub current_set : E.Double
  pub voltage_out : E.Double
  pub current_out : E.Double
  pub power_out : E.Double
  pub voltage_in : E.Double
  pub keypad_locked : Bool
  pub protection : Protection
  pub output_mode : OutputMode
  pub output_on : Bool
  pub current_range : ℕ
  pub is_battery_mode : Bool
  pub voltage_battery : E.Double
  pub probe_temperature_celsius : E.Double
  pub probe_temperature_fahrenheit : E.Double
  pub ah : E.Double
  pub wh : E.Double
  pub details : Option (Details E)

-- `values[+reg]`, and `values[+reg] != 0`.
abbrev pub word : List ℕ → Register → ℕ
word values reg = get_or values (offset reg) 0

abbrev pub flag : List ℕ → Register → Bool
flag values reg = not (word values reg == 0)

-- `&(values[+reg])`.
abbrev pub words_at : List ℕ → Register → List ℕ
words_at values reg = drop (offset reg) values

unfoldable pub decode_calibration : List ℕ → Calibration
decode_calibration values = record {
  v_out_zero = word values Register.v_out_zero;
  v_out_scale = word values Register.v_out_scale;
  v_back_zero = word values Register.v_back_zero;
  v_back_scale = word values Register.v_back_scale;
  i_out_zero = word values Register.i_out_zero;
  i_out_scale = word values Register.i_out_scale;
  i_back_zero = word values Register.i_back_zero;
  i_back_scale = word values Register.i_back_scale;
}

-- One more than the last register that is read.
abbrev pub total_nof_regs_of : Bool → ℕ
total_nof_regs_of subset =
    (if subset then offset Register.subset_end else offset Register.m9_ocp) + 1

module _ ⦃E : Env⦄ where
  -- The loop over `first_reg_to_read`. Each round reads a register at least, so as many rounds as
  -- there are registers are enough.
  unfoldable pub read_registers : ℕ → ℕ → ℕ → M E (List ℕ)
  read_registers zero first_reg_to_read total_nof_regs s =
      if ltb first_reg_to_read total_nof_regs then hung else ok [] s
  read_registers (suc fuel) first_reg_to_read total_nof_regs s =
      let rest = read_registers fuel (first_reg_to_read + 20) total_nof_regs in
      let regs_to_read = min 20 (total_nof_regs - first_reg_to_read) in
      let round =
        (do
          values ← read_holding_registers first_reg_to_read regs_to_read
          others ← rest
          return (values ++ others))
          s in
      if ltb first_reg_to_read total_nof_regs then round else ok [] s

  -- The loop over the presets, from `index` on; M0 is skipped.
  unfoldable pub decode_presets : RidenModbus E → List ℕ → ℕ → ℕ → List (Preset E)
  decode_presets s values zero index = []
  decode_presets s values (suc n) index =
      values_to_preset s (drop (offset Register.m0_v + 4 * (index + 1)) values)
      ∷ decode_presets s values n (index + 1)

  unfoldable pub decode_details : RidenModbus E → List ℕ → Details E
  unfolding decode_calibration decode_presets
  decode_details s values = record {
    clock = values_to_tm (words_at values Register.year);
    calibration = decode_calibration values;
    is_take_ok = flag values Register.take_ok;
    is_take_out = flag values Register.take_out;
    is_power_on_boot = flag values Register.power_on_boot;
    is_buzzer_enabled = flag values Register.buzzer;
    is_logo = flag values Register.logo;
    language = word values Register.language;
    brightness = word values Register.brightness % 256;
    presets = decode_presets s values 9 0;
  }

  unfoldable pub decode_values : RidenModbus E → List ℕ → Option (Details E) → AllValues E
  decode_values s values details = record {
    system_temperature_celsius =
        values_to_temperature (words_at values Register.system_temperature_celsius_sign);
    system_temperature_fahrenheit =
        values_to_temperature (words_at values Register.system_temperature_farhenheit_sign);
    voltage_set = value_to_voltage s (word values Register.voltage_set);
    current_set = value_to_current s (word values Register.current_set);
    voltage_out = value_to_voltage s (word values Register.voltage_out);
    current_out = value_to_current s (word values Register.current_out);
    power_out = values_to_power s (words_at values Register.power_out_h);
    voltage_in = value_to_voltage_in s (word values Register.voltage_in);
    keypad_locked = flag values Register.keypad;
    protection = value_to_protection (word values Register.protection);
    output_mode = value_to_output_mode (word values Register.output_mode);
    output_on = flag values Register.output;
    current_range = word values Register.current_range;
    is_battery_mode = flag values Register.battery_mode;
    voltage_battery = value_to_voltage s (word values Register.voltage_battery);
    probe_temperature_celsius =
        values_to_temperature (words_at values Register.probe_temperature_celsius_sign);
    probe_temperature_fahrenheit =
        values_to_temperature (words_at values Register.probe_temperature_farhenheit_sign);
    ah = values_to_ah (words_at values Register.ah_h);
    wh = values_to_wh (words_at values Register.wh_h);
    details = details;
  }

  unfoldable pub get_all_values : Bool → M E (AllValues E)
  get_all_values subset = do
    let total = total_nof_regs_of subset
    values ← read_registers total 0 total
    with_self
        (λ s. decode_values s values (if subset then none else some (decode_details s values)))
