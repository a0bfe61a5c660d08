-- ===== src/Modbus/Presets/Reads.antt =====
-- What `get_preset` returns from a power supply that answers in time.
use riden_dongle.Base.{ℕ, ◌+◌, ◌*◌, ◌<◌, ◌≡◌, refl, false, leb, some, arith}
use riden_dongle.Modbus.Env.{Env}
use riden_dongle.Modbus.State.{RidenModbus, result}
use riden_dongle.Modbus.Values.{values_to_preset, value_to_voltage, value_to_current}
use riden_dongle.Modbus.Raw.{read_holding_registers}
use riden_dongle.Modbus.Raw.Device.{Answers, Ready, slice, read_holding_registers_lem}
use riden_dongle.Modbus.Raw.Calls.{bind-result}
use riden_dongle.Modbus.Access.{with_self}
use riden_dongle.Modbus.Presets.{get_preset}

module _ ⦃E : Env⦄ {timeout : ℕ} (d : Answers E timeout) (s : RidenModbus E) (r : Ready d 1 s) where
  pub get_preset-result :
      (index : ℕ)
      → index < 9
      → result (get_preset index s)
        ≡ some (values_to_preset s (slice (d.regs s.bus) (80 + 4 * index) 4))
  unfolding get_preset values_to_preset value_to_voltage value_to_current
  get_preset-result index h = rw allowed (
      bind-result d 1 (read_holding_registers (80 + 4 * index) 4)
        (λ values. with_self (λ t. values_to_preset t values)) s
        (read_holding_registers_lem d (80 + 4 * index) 4 s r (omega arith)) (λ w. refl))
    where
      allowed : leb 9 index ≡ false
      allowed = ground arith
