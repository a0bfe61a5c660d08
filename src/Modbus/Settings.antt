-- ===== src/Modbus/Settings.antt =====
-- Clock, options and calibration: `get_clock` to `set_calibration` of
-- src/riden_modbus/riden_modbus.cpp.
pub mod RoundTrip
use riden_dongle.Base.{ℕ, ◌%◌, Bool, [], ◌∷◌}
use riden_dongle.Modbus.Registers.{Register, offset}
use riden_dongle.Modbus.Env.{Env}
use riden_dongle.Modbus.State.{RidenModbus, ok, M, ◌>>=◌, return}
use riden_dongle.Modbus.Values.{
  Tm, Calibration, values_to_tm, tm_to_values, words_to_calibration, calibration_to_words,
}
use riden_dongle.Modbus.Raw.{
  read_holding_registers, write_holding_register, write_holding_registers,
}
use riden_dongle.Modbus.Access.{read_word, read_boolean, write_boolean}

module _ ⦃E : Env⦄ where
  unfoldable pub get_clock : M E Tm
  get_clock = do
    values ← read_holding_registers (offset Register.year) 6
    return (values_to_tm values)

  unfoldable pub set_clock : Tm → M E (Unit {0})
  set_clock time = write_holding_registers (offset Register.year) (tm_to_values time)

  -- The parameters are `uint16_t`.
  unfoldable pub set_date : ℕ → ℕ → ℕ → M E (Unit {0})
  set_date year month day =
      write_holding_registers (offset Register.year)
        (year % 65536 ∷ month % 65536 ∷ day % 65536 ∷ [])

  -- The parameters are `uint8_t`.
  unfoldable pub set_time : ℕ → ℕ → ℕ → M E (Unit {0})
  set_time hour minute second =
      write_holding_registers (offset Register.hour) (hour % 256 ∷ minute % 256 ∷ second % 256 ∷ [])

  unfoldable pub is_take_ok : M E Bool
  is_take_ok = read_boolean (offset Register.take_ok)

  unfoldable pub set_take_ok : Bool → M E (Unit {0})
  set_take_ok take_ok = write_boolean (offset Register.take_ok) take_ok

  unfoldable pub is_take_out : M E Bool
  is_take_out = read_boolean (offset Register.take_out)

  unfoldable pub set_take_out : Bool → M E (Unit {0})
  set_take_out take_out = write_boolean (offset Register.take_out) take_out

  unfoldable pub is_power_on_boot : M E Bool
  is_power_on_boot = read_boolean (offset Register.power_on_boot)

  unfoldable pub set_power_on_boot : Bool → M E (Unit {0})
  set_power_on_boot power_on_boot = write_boolean (offset Register.power_on_boot) power_on_boot

  unfoldable pub is_buzzer_enabled : M E Bool
  is_buzzer_enabled = read_boolean (offset Register.buzzer)

  unfoldable pub set_buzzer_enabled : Bool → M E (Unit {0})
  set_buzzer_enabled buzzer = write_boolean (offset Register.buzzer) buzzer

  unfoldable pub is_logo : M E Bool
  is_logo = read_boolean (offset Register.logo)

  unfoldable pub set_logo : Bool → M E (Unit {0})
  set_logo logo = write_boolean (offset Register.logo) logo

  unfoldable pub get_language : M E ℕ
  get_language = read_word (offset Register.language)

  -- The parameter is `uint16_t`.
  unfoldable pub set_language : ℕ → M E (Unit {0})
  set_language language = write_holding_register (offset Register.language) (language % 65536)

  -- `brightness = value` drops the high byte.
  unfoldable pub get_brightness : M E ℕ
  get_brightness = do value ← read_word (offset Register.brightness); return (value % 256)

  -- The parameter is `uint8_t`.
  unfoldable pub set_brightness : ℕ → M E (Unit {0})
  set_brightness brightness = write_holding_register (offset Register.brightness) (brightness % 256)

  unfoldable pub get_calibration : M E Calibration
  get_calibration = do
    values ← read_holding_registers (offset Register.v_out_zero) 8
    return (words_to_calibration values)

  unfoldable pub set_calibration : Calibration → M E (Unit {0})
  set_calibration calibration =
      write_holding_registers (offset Register.v_out_zero) (calibration_to_words calibration)
