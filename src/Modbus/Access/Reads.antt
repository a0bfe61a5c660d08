-- ===== src/Modbus/Access/Reads.antt =====
-- What the reading helpers return from a power supply that answers in time.
use riden_dongle.Base.{ℕ, ◌≤◌, ◌≡◌, refl, not, List, get_or, some, ◌==◌, arith}
use riden_dongle.Modbus.Env.{Env}
use riden_dongle.Modbus.State.{RidenModbus, ◌>>=◌, return, result}
use riden_dongle.Modbus.Values.{value_to_voltage, value_to_current, values_to_power}
use riden_dongle.Modbus.Raw.{read_holding_registers}
use riden_dongle.Modbus.Raw.Device.{Answers, Ready, Does, slice, read_holding_registers_lem}
use riden_dongle.Modbus.Raw.Calls.{Does-bind, bind-result}
use riden_dongle.Modbus.Access.{
  with_self, read_word, read_voltage, read_current, read_power, read_boolean,
}

module _ ⦃E : Env⦄ {timeout : ℕ} (d : Answers E timeout) (s : RidenModbus E) (r : Ready d 1 s) where
  pub read_word_lem : (a : ℕ) → Does d 1 (read_word a) s (d.regs s.bus a) (d.regs s.bus)
  unfolding read_word
  read_word_lem a =
      Does-bind d 1 (read_holding_registers a 1) (λ values. return (get_or values 0 0)) s
        (read_holding_registers_lem d a 1 s r (omega arith)) (λ w. refl)

  -- A block of words and a conversion of it.
  pub block-result {ℓ} :
      {A : Type ℓ} (a n : ℕ) (f : List ℕ → A)
      → n ≤ 20
      → result ((read_holding_registers a n >>= λ values. return (f values)) s)
        ≡ some (f (slice (d.regs s.bus) a n))
  block-result a n f le =
      bind-result d 1 (read_holding_registers a n) (λ values. return (f values)) s
        (read_holding_registers_lem d a n s r le) (λ w. refl)

  -- One word and a conversion of it.
  pub word-result {ℓ} :
      {A : Type ℓ} (a : ℕ) (f : ℕ → A)
      → result ((read_word a >>= λ value. return (f value)) s) ≡ some (f (d.regs s.bus a))
  word-result a f =
      bind-result d 1 (read_word a) (λ value. return (f value)) s (read_word_lem a) (λ w. refl)

  pub read_boolean-result : (a : ℕ) → result (read_boolean a s) ≡ some (not (d.regs s.bus a == 0))
  unfolding read_boolean
  read_boolean-result a = word-result a (λ v. not (v == 0))

  pub read_voltage-result :
      (a : ℕ) → result (read_voltage a s) ≡ some (value_to_voltage s (d.regs s.bus a))
  unfolding read_voltage value_to_voltage
  read_voltage-result a =
      bind-result d 1 (read_word a) (λ value. with_self (λ t. value_to_voltage t value)) s
        (read_word_lem a) (λ w. refl)

  pub read_current-result :
      (a : ℕ) → result (read_current a s) ≡ some (value_to_current s (d.regs s.bus a))
  unfolding read_current value_to_current
  read_current-result a =
      bind-result d 1 (read_word a) (λ value. with_self (λ t. value_to_current t value)) s
        (read_word_lem a) (λ w. refl)

  pub read_power-result :
      (a : ℕ) → result (read_power a s) ≡ some (values_to_power s (slice (d.regs s.bus) a 2))
  unfolding read_power values_to_power
  read_power-result a =
      bind-result d 1 (read_holding_registers a 2)
        (λ values. with_self (λ t. values_to_power t values)) s
        (read_holding_registers_lem d a 2 s r (omega arith)) (λ w. refl)
