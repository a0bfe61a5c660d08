-- ===== src/Modbus/Readings.antt =====
-- Identity, readings and the output: `reboot_to_bootloader` to `set_output_on`, and
-- `get_current_range` to `get_wh`, of src/riden_modbus/riden_modbus.cpp.
use riden_dongle.Base.{ℕ, ◌+◌, ◌*◌, ◌%◌, ◌^◌, Bool, get_or}
use riden_dongle.Modbus.Registers.{Register, offset}
use riden_dongle.Modbus.Env.{Env}
use riden_dongle.Modbus.State.{Protection, OutputMode, M, ◌>>=◌, return}
use riden_dongle.Modbus.Values.{
  value_to_protection, value_to_output_mode, values_to_temperature, values_to_ah, values_to_wh,
}
use riden_dongle.Modbus.Raw.{read_holding_registers, write_holding_register}
use riden_dongle.Modbus.Access.{
  read_word, read_voltage, write_voltage, read_current, write_current, read_power, read_boolean,
  write_boolean,
}

module _ ⦃E : Env⦄ where
  open E use {Double}

  unfoldable pub reboot_to_bootloader : M E (Unit {0})
  reboot_to_bootloader = write_holding_register 256 5633

  unfoldable pub get_id : M E ℕ
  get_id = read_word (offset Register.id)

  unfoldable pub get_serial_number : M E ℕ
  get_serial_number = do
    value ← read_holding_registers (offset Register.serial_number_high) 2
    return ((get_or value 0 0 * 65536 + get_or value 1 0) % 2 ^ 32)

  unfoldable pub get_firmware_version : M E ℕ
  get_firmware_version = read_word (offset Register.firmware)

  unfoldable pub get_system_temperature_celsius : M E Double
  get_system_temperature_celsius = do
    values ← read_holding_registers (offset Register.system_temperature_celsius_sign) 2
    return (values_to_temperature values)

  unfoldable pub get_system_temperature_fahrenheit : M E Double
  get_system_temperature_fahrenheit = do
    values ← read_holding_registers (offset Register.system_temperature_farhenheit_sign) 2
    return (values_to_temperature values)

  unfoldable pub get_voltage_set : M E Double
  get_voltage_set = read_voltage (offset Register.voltage_set)

  unfoldable pub set_voltage_set : Double → M E (Unit {0})
  set_voltage_set voltage = write_voltage (offset Register.voltage_set) voltage

  unfoldable pub get_current_set : M E Double
  get_current_set = read_current (offset Register.current_set)

  unfoldable pub set_current_set : Double → M E (Unit {0})
  set_current_set current = write_current (offset Register.current_set) current

  unfoldable pub get_voltage_out : M E Double
  get_voltage_out = read_voltage (offset Register.voltage_out)

  unfoldable pub get_current_out : M E Double
  get_current_out = read_current (offset Register.current_out)

  unfoldable pub get_power_out : M E Double
  get_power_out = read_power (offset Register.power_out_h)

  unfoldable pub is_keypad_locked : M E Bool
  is_keypad_locked = read_boolean (offset Register.keypad)

  unfoldable pub get_protection : M E Protection
  get_protection = do
    value ← read_word (offset Register.protection)
    return (value_to_protection value)

  unfoldable pub get_output_mode : M E OutputMode
  get_output_mode = do
    value ← read_word (offset Register.output_mode)
    return (value_to_output_mode value)

  unfoldable pub get_output_on : M E Bool
  get_output_on = read_boolean (offset Register.output)

  unfoldable pub set_output_on : Bool → M E (Unit {0})
  set_output_on on = write_boolean (offset Register.output) on

  unfoldable pub get_current_range : M E ℕ
  get_current_range = read_word (offset Register.current_range)

  unfoldable pub is_battery_mode : M E Bool
  is_battery_mode = read_boolean (offset Register.battery_mode)

  unfoldable pub get_voltage_battery : M E Double
  get_voltage_battery = read_voltage (offset Register.voltage_battery)

  unfoldable pub get_probe_temperature_celsius : M E Double
  get_probe_temperature_celsius = do
    values ← read_holding_registers (offset Register.probe_temperature_celsius_sign) 2
    return (values_to_temperature values)

  unfoldable pub get_probe_temperature_fahrenheit : M E Double
  get_probe_temperature_fahrenheit = do
    values ← read_holding_registers (offset Register.probe_temperature_farhenheit_sign) 2
    return (values_to_temperature values)

  unfoldable pub get_ah : M E Double
  get_ah = do values ← read_holding_registers (offset Register.ah_h) 2; return (values_to_ah values)

  unfoldable pub get_wh : M E Double
  get_wh = do values ← read_holding_registers (offset Register.wh_h) 2; return (values_to_wh values)
