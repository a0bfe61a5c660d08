-- ===== src/Scpi/Commands.antt =====
-- The command handlers of src/riden_scpi/riden_scpi.cpp.
pub mod Queries
pub mod Settings
use riden_dongle.Base.{
  ℕ, ◌+◌, ◌-◌, ◌%◌, Bool, true, false, ◌&&◌, ◌||◌, Option, none, some, String, ℤ, pos, negsuc,
  add_ℕ, int_to_u16, List, [], ◌∷◌, ltb, leb, ◌==◌, if◌then◌else◌,
}
use riden_dongle.Modbus.Env.{Env}
use riden_dongle.Modbus.State.{
  RidenModbus, Protection, ovp, ocp, none_tripped, OutputMode, constant_voltage, constant_current,
  unknown, Outcome, ok, fail, hung, M,
}
use riden_dongle.Modbus.Values.{Tm}
use riden_dongle.Modbus.Readings.{
  get_system_temperature_celsius, get_probe_temperature_celsius, get_voltage_set, set_voltage_set,
  get_current_set, set_current_set, get_voltage_out, get_current_out, get_power_out, get_protection,
  get_output_mode, get_output_on, set_output_on,
}
use riden_dongle.Modbus.Settings.{
  get_clock, set_date, set_time, is_buzzer_enabled, set_buzzer_enabled, get_language, set_language,
  get_brightness, set_brightness,
}
use riden_dongle.Modbus.Presets.{
  number_of_presets, set_preset, set_over_voltage_protection, set_over_current_protection,
}
use riden_dongle.Scpi.Parser.{
  NumberUnit, unit_none, unit_volt, unit_amper, unit_other, ScpiError, command,
  illegal_parameter_value, data_type_error, Choices, Parser, Reply, res_ok, res_err, stuck, Command,
  refuse, report, query, perform, require, required,
}

abbrev pub temperature_options : Choices
temperature_options = ("SYSTEM", pos 0) ∷ ("PROBE", pos 1) ∷ []

abbrev pub language_options : Choices
language_options =
    ("ENGLISH", pos 0)
    ∷ ("CHINESE", pos 1)
    ∷ ("GERMAN", pos 2)
    ∷ ("FRENCH", pos 3)
    ∷ ("RUSSIAN", pos 4)
    ∷ []

-- `==` on `int`.
abbrev pub eq_int : ℤ → ℤ → Bool
eq_int (pos m) (pos n) = m == n
eq_int (pos m) (negsuc n) = false
eq_int (negsuc m) (pos n) = false
eq_int (negsuc m) (negsuc n) = m == n

abbrev pub is_ovp : Protection → Bool
is_ovp ovp = true
is_ovp ocp = false
is_ovp none_tripped = false

abbrev pub is_ocp : Protection → Bool
is_ocp ovp = false
is_ocp ocp = true
is_ocp none_tripped = false

-- `value.unit != SCPI_UNIT_NONE && value.unit != SCPI_UNIT_VOLT`, and the same for amperes.
abbrev pub not_volt : NumberUnit → Bool
not_volt unit_none = false
not_volt unit_volt = false
not_volt unit_amper = true
not_volt unit_other = true

abbrev pub not_amper : NumberUnit → Bool
not_amper unit_none = false
not_amper unit_volt = true
not_amper unit_amper = false
not_amper unit_other = true

abbrev pub mode_text : OutputMode → String
mode_text constant_voltage = "CV"
mode_text constant_current = "CC"
mode_text unknown = "XX"

module _ ⦃E : Env⦄ (P : Parser E) where
  open E use {Double}

  -- `SCPI_ResultChoice`: the name of the first entry with that tag, else the number.
  abbrev pub result_choice : Choices → ℤ → P.Context → P.Context
  result_choice [] value c = P.result_int32 value c
  result_choice ((name, tag) ∷ options) value c =
      if eq_int tag value then P.result_mnemonic name c else result_choice options value c

  -- `if (test) { push error; return SCPI_RES_ERR; }` before the rest.
  abbrev pub refuse_if : Bool → ScpiError → Command E P → Command E P
  refuse_if test error k s c = if test then refuse P error s c else k s c

  unfoldable pub rcl : Command E P
  rcl = require P P.param_unsigned_int (λ profile.
      refuse_if (ltb profile 1 || leb number_of_presets (profile - 1)) illegal_parameter_value
        (perform P (set_preset profile)))

  unfoldable pub display_brightness : Command E P
  display_brightness = require P P.param_unsigned_int (λ brightness.
      refuse_if (ltb 5 brightness) illegal_parameter_value (perform P (set_brightness brightness)))

  unfoldable pub display_brightness_q : Command E P
  display_brightness_q = query P get_brightness P.result_uint8

  -- `if (language < 0 || language > 4)`, then `set_language`.
  abbrev pub change_language : ℤ → Command E P
  change_language (negsuc n) s c = refuse P illegal_parameter_value s c
  change_language (pos n) s c =
      if ltb 4 n then refuse P illegal_parameter_value s c else perform P (set_language n) s c

  -- `SCPI_ParamToInt` where the parameter is no choice.
  abbrev pub language_number : RidenModbus E → Option ℤ × P.Context → Reply E P
  language_number s (none, c) = refuse P illegal_parameter_value s c
  language_number s (some n, c) = change_language n s c

  abbrev pub language_choice : P.Parameter → RidenModbus E → Option ℤ × P.Context → Reply E P
  language_choice param s (none, c) = language_number s (P.param_to_int param c)
  language_choice param s (some n, c) = change_language n s c

  unfoldable pub display_language : Command E P
  display_language =
      require P P.parameter
        (λ param s c. language_choice param s (P.param_to_choice param language_options c))

  unfoldable pub display_language_q : Command E P
  display_language_q =
      query P get_language (λ language. result_choice language_options (pos language))

  unfoldable pub system_date : Command E P
  system_date = require P P.param_unsigned_int (λ year.
      require P P.param_unsigned_int
        (λ month. require P P.param_unsigned_int (λ day. perform P (set_date year month day))))

  -- The fields of the clock as `uint16_t`.
  abbrev pub show_date : Tm → P.Context → P.Context
  show_date clock c = P.result_uint16 (int_to_u16 clock.tm_mday) (
      P.result_uint16 (int_to_u16 (add_ℕ clock.tm_mon 1))
        (P.result_uint16 (int_to_u16 (add_ℕ clock.tm_year 1900)) c))

  abbrev pub show_time : Tm → P.Context → P.Context
  show_time clock c =
      P.result_uint16 (int_to_u16 clock.tm_sec)
        (P.result_uint16 (int_to_u16 clock.tm_min) (P.result_uint16 (int_to_u16 clock.tm_hour) c))

  unfoldable pub system_date_q : Command E P
  system_date_q = query P get_clock show_date

  unfoldable pub system_time : Command E P
  system_time = require P P.param_unsigned_int (λ hour. require P P.param_unsigned_int (λ minute.
      require P P.param_unsigned_int (λ second. perform P (set_time hour minute second))))

  unfoldable pub system_time_q : Command E P
  system_time_q = query P get_clock show_time

  unfoldable pub output_state : Command E P
  output_state = require P P.param_bool (λ on. perform P (set_output_on on))

  unfoldable pub output_state_q : Command E P
  output_state_q = query P get_output_on P.result_bool

  -- Where the driver fails, this command pushes no error.
  abbrev pub report_mode : P.Context → Outcome (RidenModbus E) OutputMode → Reply E P
  report_mode c (ok mode s) = res_ok s (P.result_text (mode_text mode) c)
  report_mode c (fail s) = res_err s c
  report_mode c hung = stuck

  unfoldable pub output_mode_q : Command E P
  output_mode_q s c = report_mode c (get_output_mode s)

  -- A number in a unit that fits, and the setter for it.
  abbrev pub set_number : (NumberUnit → Bool) → (Double → M E (Unit {0})) → Command E P
  set_number wrong set =
      require P P.param_number
        (λ (value, unit). refuse_if (wrong unit) data_type_error (perform P (set value)))

  unfoldable pub source_voltage : Command E P
  source_voltage = set_number not_volt set_voltage_set

  unfoldable pub source_voltage_q : Command E P
  source_voltage_q = query P get_voltage_set P.result_double

  unfoldable pub source_voltage_protection_tripped_q : Command E P
  source_voltage_protection_tripped_q = query P get_protection (λ p. P.result_bool (is_ovp p))

  unfoldable pub source_current : Command E P
  source_current = set_number not_amper set_current_set

  unfoldable pub source_current_q : Command E P
  source_current_q = query P get_current_set P.result_double

  unfoldable pub source_current_protection_tripped_q : Command E P
  source_current_protection_tripped_q = query P get_protection (λ p. P.result_bool (is_ocp p))

  unfoldable pub measure_voltage_q : Command E P
  measure_voltage_q = query P get_voltage_out P.result_double

  unfoldable pub measure_current_q : Command E P
  measure_current_q = query P get_current_out P.result_double

  unfoldable pub measure_power_q : Command E P
  measure_power_q = query P get_power_out P.result_double

  abbrev pub measure_choice : ℤ → Command E P
  measure_choice choice =
      if eq_int choice (pos 0)
      then query P get_system_temperature_celsius P.result_double
      else query P get_probe_temperature_celsius P.result_double

  -- A parameter that is no choice pushes an error here as well.
  abbrev pub temperature_choice : RidenModbus E → Option ℤ × P.Context → Reply E P
  temperature_choice s (none, c) = refuse P illegal_parameter_value s c
  temperature_choice s (some choice, c) = measure_choice choice s c

  unfoldable pub measure_temperature_q : Command E P
  measure_temperature_q s c = temperature_choice s (P.param_choice temperature_options c)

  unfoldable pub source_voltage_limit : Command E P
  source_voltage_limit = set_number not_volt set_over_voltage_protection

  unfoldable pub source_current_limit : Command E P
  source_current_limit = set_number not_amper set_over_current_protection

  unfoldable pub system_beeper_state : Command E P
  system_beeper_state = require P P.param_bool (λ on. perform P (set_buzzer_enabled on))

  unfoldable pub system_beeper_state_q : Command E P
  system_beeper_state_q = query P is_buzzer_enabled P.result_bool
