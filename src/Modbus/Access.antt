-- ===== src/Modbus/Access.antt =====
-- The helpers of src/riden_modbus/riden_modbus.cpp between raw registers and values: `read_voltage`
-- to `write_boolean`. `reg` is the integer behind a `Register`.
pub mod Reads
use riden_dongle.Base.{ℕ, Bool, not, get_or, ◌==◌, if◌then◌else◌}
use riden_dongle.Modbus.Env.{Env}
use riden_dongle.Modbus.State.{RidenModbus, ok, M, ◌>>=◌, return}
use riden_dongle.Modbus.Values.{
  value_to_voltage, value_to_current, values_to_power, voltage_to_value, current_to_value,
}
use riden_dongle.Modbus.Raw.{read_holding_registers, write_holding_register}

module _ ⦃E : Env⦄ where
  open E use {Double}

  -- A conversion that reads the factors of the object.
  abbrev pub with_self {ℓ} : {A : Type ℓ} → (RidenModbus E → A) → M E A
  with_self f s = ok (f s) s

  -- One register: `uint16_t value; read_holding_registers(reg, &value)`.
  unfoldable pub read_word : ℕ → M E ℕ
  read_word reg = do values ← read_holding_registers reg 1; return (get_or values 0 0)

  unfoldable pub read_voltage : ℕ → M E Double
  read_voltage reg = do value ← read_word reg; with_self (λ s. value_to_voltage s value)

  unfoldable pub write_voltage : ℕ → Double → M E (Unit {0})
  write_voltage reg voltage = do
    value ← with_self (λ s. voltage_to_value s voltage)
    write_holding_register reg value

  unfoldable pub read_current : ℕ → M E Double
  read_current reg = do value ← read_word reg; with_self (λ s. value_to_current s value)

  unfoldable pub write_current : ℕ → Double → M E (Unit {0})
  write_current reg current = do
    value ← with_self (λ s. current_to_value s current)
    write_holding_register reg value

  unfoldable pub read_power : ℕ → M E Double
  read_power reg = do
    values ← read_holding_registers reg 2
    with_self (λ s. values_to_power s values)

  unfoldable pub read_boolean : ℕ → M E Bool
  read_boolean reg = do value ← read_word reg; return (not (value == 0))

  unfoldable pub write_boolean : ℕ → Bool → M E (Unit {0})
  write_boolean reg b = write_holding_register reg (if b then 1 else 0)
