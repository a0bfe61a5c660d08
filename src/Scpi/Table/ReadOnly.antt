-- ===== src/Scpi/Table/ReadOnly.antt =====
-- The queries of the table only read.
use riden_dongle.Base.{ℕ, zero, suc, ◌≡◌, true, List, [], ◌∷◌, some, get_elem?, String}
use mathlib.Core.Path.{subst}
use riden_dongle.Modbus.Env.{Env}
use riden_dongle.Modbus.State.{RidenModbus}
use riden_dongle.Modbus.Raw.Device.{Answers, Ready}
use riden_dongle.Modbus.Readings.{
  get_voltage_set, get_current_set, get_voltage_out, get_current_out, get_power_out, get_output_on,
}
use riden_dongle.Modbus.Settings.{is_buzzer_enabled}
use riden_dongle.Scpi.Parser.{Parser, Command}
use riden_dongle.Scpi.Commands.{
  is_ovp, is_ocp, show_date, show_time, system_date_q, system_time_q, output_state_q,
  source_voltage_q, source_voltage_protection_tripped_q, source_current_q,
  source_current_protection_tripped_q, measure_voltage_q, measure_current_q, measure_power_q,
  system_beeper_state_q,
}
use riden_dongle.Scpi.Table.{ScpiCommand, core, own, scpi_commands, is_query}
use riden_dongle.Scpi.Table.Untouched.{
  Untouched, mode-Untouched, temperature-Untouched, boolean-Untouched, voltage-Untouched,
  current-Untouched, power-Untouched, protection-Untouched, clock-Untouched, word-Untouched,
}

-- Each entry of a list has a property.
infixr 5 ◌∷a◌
data All {ℓ} {A : Type ℓ} (Q : A → Type 0) : List A → Type ℓ where
  []a : All Q []
  ◌∷a◌ : {x : A} {xs : List A} → Q x → All Q xs → All Q (x ∷ xs)

All-get_elem? {ℓ} :
    {A : Type ℓ} {Q : A → Type 0} (xs : List A) (i : ℕ) {x : A}
    → All Q xs
    → get_elem? xs i ≡ some x
    → Q x
All-get_elem? [] i h e = absurd (cc e)
All-get_elem? {Q = Q} (y ∷ xs) zero {x} (q ∷a h) e = subst Q (the e) q
  where
    the : some y ≡ some x → y ≡ x
    the e = cc e
All-get_elem? (y ∷ xs) (suc i) (q ∷a h) e = All-get_elem? xs i h e

module _ ⦃E : Env⦄ {timeout : ℕ} (d : Answers E timeout) (s : RidenModbus E) (r : Ready d 1 s)
    (P : Parser E) where
  abbrev IsReadOnly : P.Context → ScpiCommand P → Type 0
  IsReadOnly c (core pattern handler) = Unit {0}
  IsReadOnly c (own pattern command) = is_query pattern ≡ true → Untouched d s r P (command s c)

  table-ReadOnly : (c : P.Context) → All (IsReadOnly c) (scpi_commands P)
  unfolding output_state_q system_beeper_state_q source_voltage_q measure_voltage_q source_current_q
      measure_current_q measure_power_q system_date_q system_time_q
      source_voltage_protection_tripped_q source_current_protection_tripped_q get_output_on
      is_buzzer_enabled get_voltage_set get_voltage_out get_current_set get_current_out
      get_power_out
  table-ReadOnly c =
      tt
      ∷a tt
      ∷a tt
      ∷a tt
      ∷a tt
      ∷a tt
      ∷a tt
      ∷a tt
      ∷a tt
      ∷a tt
      ∷a tt
      ∷a tt
      ∷a tt
      ∷a tt
      ∷a tt
      ∷a tt
      ∷a tt
      ∷a tt
      ∷a tt
      ∷a tt
      ∷a tt
      ∷a tt
      ∷a tt
      ∷a tt
      ∷a tt
      ∷a tt
      ∷a (λ h. cc h)
      ∷a (λ h. cc h)
      ∷a (λ h. (word-Untouched d s r P c).0)
      ∷a (λ h. cc h)
      ∷a (λ h. (word-Untouched d s r P c).1)
      ∷a (λ h. cc h)
      ∷a (λ h. clock-Untouched d s r P (show_date P) c)
      ∷a (λ h. cc h)
      ∷a (λ h. clock-Untouched d s r P (show_time P) c)
      ∷a (λ h. cc h)
      ∷a (λ h. boolean-Untouched d s r P 18 c)
      ∷a (λ h. mode-Untouched d s r P c)
      ∷a (λ h. cc h)
      ∷a (λ h. voltage-Untouched d s r P 8 c)
      ∷a (λ h. protection-Untouched d s r P (λ p. P.result_bool (is_ovp p)) c)
      ∷a (λ h. cc h)
      ∷a (λ h. current-Untouched d s r P 9 c)
      ∷a (λ h. protection-Untouched d s r P (λ p. P.result_bool (is_ocp p)) c)
      ∷a (λ h. voltage-Untouched d s r P 10 c)
      ∷a (λ h. current-Untouched d s r P 11 c)
      ∷a (λ h. power-Untouched d s r P 12 c)
      ∷a (λ h. temperature-Untouched d s r P c)
      ∷a (λ h. cc h)
      ∷a (λ h. cc h)
      ∷a (λ h. cc h)
      ∷a (λ h. boolean-Untouched d s r P 69 c)
      ∷a []a

  -- With a power supply that answers in time: each command of the table that is a handler of RidenScpi
  -- and whose pattern ends in a question mark, whatever its parameters, ends and leaves every register
  -- of the power supply as it was.
  pub queries_read_only :
      (i : ℕ) (pattern : String) (command : Command E P) (c : P.Context)
      → get_elem? (scpi_commands P) i ≡ some (own pattern command)
      → is_query pattern ≡ true
      → Untouched d s r P (command s c)
  queries_read_only i pattern command c entry asks =
      All-get_elem? (scpi_commands P) i (table-ReadOnly c) entry asks
