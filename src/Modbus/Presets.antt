-- ===== src/Modbus/Presets.antt =====
-- Presets and the protection shortcuts of src/riden_modbus/riden_modbus.cpp: `set_preset` (both),
-- `get_preset` to `set_over_current_protection`. An index is a `uint8_t`.
pub mod Reads
pub mod Guards
pub mod RoundTrip
use riden_dongle.Base.{ℕ, ◌+◌, ◌*◌, ◌-◌, Bool, ◌||◌, ltb, leb, if◌then◌else◌}
use riden_dongle.Modbus.Registers.{Register, offset}
use riden_dongle.Modbus.Env.{Env}
use riden_dongle.Modbus.State.{RidenModbus, Preset, ok, fail, M, ◌>>=◌}
use riden_dongle.Modbus.Values.{values_to_preset, preset_to_values}
use riden_dongle.Modbus.Raw.{
  read_holding_registers, write_holding_register, write_holding_registers,
}
use riden_dongle.Modbus.Access.{with_self, read_voltage, write_voltage, read_current, write_current}

abbrev pub number_of_presets : ℕ
number_of_presets = 9

-- The register at `first` of the preset with that index.
abbrev pub preset_register : Register → ℕ → ℕ
preset_register first index = offset first + 4 * index

module _ ⦃E : Env⦄ where
  open E use {Double}

  -- `if (test) return false;` before the rest.
  abbrev pub unless_refused {ℓ} : {A : Type ℓ} → Bool → M E A → M E A
  unless_refused test m s = if test then fail s else m s

  -- `set_preset(index)`: recall. `index - 1` is taken only where `index` is 1 or more.
  unfoldable pub set_preset : ℕ → M E (Unit {0})
  set_preset index =
      unless_refused (ltb index 1 || leb number_of_presets (index - 1))
        (write_holding_register (offset Register.preset) index)

  -- `set_preset(index, preset)`.
  unfoldable pub store_preset : ℕ → Preset E → M E (Unit {0})
  store_preset index preset = unless_refused (leb number_of_presets index) (do
    values ← with_self (λ s. preset_to_values s preset)
    write_holding_registers (preset_register Register.m0_v index) values)

  unfoldable pub get_preset : ℕ → M E (Preset E)
  get_preset index = unless_refused (leb number_of_presets index) (do
    values ← read_holding_registers (preset_register Register.m0_v index) 4
    with_self (λ s. values_to_preset s values))

  unfoldable pub set_preset_voltage_out : ℕ → Double → M E (Unit {0})
  set_preset_voltage_out index voltage =
      unless_refused (leb number_of_presets index)
        (write_voltage (preset_register Register.m0_v index) voltage)

  unfoldable pub get_preset_voltage_out : ℕ → M E Double
  get_preset_voltage_out index =
      unless_refused (leb number_of_presets index)
        (read_voltage (preset_register Register.m0_v index))

  unfoldable pub set_preset_current_out : ℕ → Double → M E (Unit {0})
  set_preset_current_out index current =
      unless_refused (leb number_of_presets index)
        (write_current (preset_register Register.m0_i index) current)

  unfoldable pub get_preset_current_out : ℕ → M E Double
  get_preset_current_out index =
      unless_refused (leb number_of_presets index)
        (read_current (preset_register Register.m0_i index))

  unfoldable pub set_preset_over_voltage_protection : ℕ → Double → M E (Unit {0})
  set_preset_over_voltage_protection index voltage =
      unless_refused (leb number_of_presets index)
        (write_voltage (preset_register Register.m0_ovp index) voltage)

  unfoldable pub get_preset_over_voltage_protection : ℕ → M E Double
  get_preset_over_voltage_protection index =
      unless_refused (leb number_of_presets index)
        (read_voltage (preset_register Register.m0_ovp index))

  unfoldable pub set_preset_over_current_protection : ℕ → Double → M E (Unit {0})
  set_preset_over_current_protection index current =
      unless_refused (leb number_of_presets index)
        (write_current (preset_register Register.m0_ocp index) current)

  unfoldable pub get_preset_over_current_protection : ℕ → M E Double
  get_preset_over_current_protection index =
      unless_refused (leb number_of_presets index)
        (read_current (preset_register Register.m0_ocp index))

  unfoldable pub set_over_voltage_protection : Double → M E (Unit {0})
  set_over_voltage_protection voltage = set_preset_over_voltage_protection 0 voltage

  unfoldable pub set_over_current_protection : Double → M E (Unit {0})
  set_over_current_protection current = set_preset_over_current_protection 0 current
