-- ===== src/Scpi/Commands/Queries.antt =====
-- What the queries report, in terms of the registers of the power supply.
use riden_dongle.Base.{
  ℕ, ◌%◌, ◌<◌, ◌≡◌, refl, ◌∙◌, ap, not, some, add_ℕ, sub_ℕ, int_to_u16, int_to_u16-add-sub, ◌==◌,
  if◌then◌else◌, arith,
}
use riden_dongle.Modbus.Env.{Env}
use riden_dongle.Modbus.State.{RidenModbus, Outcome, ok, fail, hung, M, result}
use riden_dongle.Modbus.Values.{
  value_to_protection, value_to_output_mode, value_to_voltage, value_to_current, values_to_power,
  values_to_tm,
}
use riden_dongle.Modbus.Raw.Device.{Answers, Ready, slice}
use riden_dongle.Modbus.Access.Reads.{
  block-result, word-result, read_boolean-result, read_voltage-result, read_current-result,
  read_power-result,
}
use riden_dongle.Modbus.Readings.{
  get_voltage_set, get_current_set, get_voltage_out, get_current_out, get_power_out, get_protection,
  get_output_mode, get_output_on,
}
use riden_dongle.Modbus.Settings.{get_clock, is_buzzer_enabled, get_brightness}
use riden_dongle.Scpi.Parser.{Parser, Reply, res_ok, query, report}
use riden_dongle.Scpi.Commands.{
  is_ovp, is_ocp, show_date, show_time, mode_text, report_mode, display_brightness_q, system_date_q,
  system_time_q, output_state_q, output_mode_q, source_voltage_q,
  source_voltage_protection_tripped_q, source_current_q, source_current_protection_tripped_q,
  measure_voltage_q, measure_current_q, measure_power_q, system_beeper_state_q,
}

result-ok {ℓ κ} :
    {S : Type κ} {A : Type ℓ} (o : Outcome S A) {v : A} → result o ≡ some v → (t : S) × (o ≡ ok v t)
result-ok (ok a t) h = (t, cc)
result-ok (fail t) h = absurd cc
result-ok hung h = absurd cc

-- A word that lost `k` and gained it again, as the clock's year and month do.
word_back : (n k : ℕ) → n < 65536 → int_to_u16 (add_ℕ (sub_ℕ n k) k) ≡ n
word_back n k h = int_to_u16-add-sub n k ∙ omega arith

word_kept : (n : ℕ) → n < 65536 → n % 65536 ≡ n
word_kept n h = omega arith

module _ ⦃E : Env⦄ {timeout : ℕ} (d : Answers E timeout) (P : Parser E) (s : RidenModbus E)
    (c : P.Context) (r : Ready d 1 s) where
  -- A command ends well with the context `c'`.
  abbrev pub Shows : Reply E P → P.Context → Type 0
  Shows o c' = (t : RidenModbus E) × (o ≡ res_ok t c')

  query-Shows {ℓ} :
      {A : Type ℓ} (m : M E A) (f : A → P.Context → P.Context) {v : A} (c' : P.Context)
      → result (m s) ≡ some v
      → f v c ≡ c'
      → Shows (query P m f s c) c'
  query-Shows m f c' h e =
      let (t, run) = result-ok (m s) h in (t, ap (report P f c) run ∙ ap (res_ok t) e)

  -- With a power supply that answers in time, each of these queries succeeds and writes what its
  -- registers hold: the settings and measurements converted by the scale factors of the model, the
  -- switches as whether their word is not 0, the protections as whether the register says 1 or 2,
  -- the mode as CV for 0, CC for 1 and XX else, and the clock as its six words.
  pub queries_lem :
      ((i : ℕ) → d.regs s.bus i < 65536)
      → let regs = d.regs s.bus in
        Shows (measure_voltage_q P s c) (P.result_double (value_to_voltage s (regs 10)) c)
        × Shows (measure_current_q P s c) (P.result_double (value_to_current s (regs 11)) c)
        × Shows (measure_power_q P s c) (P.result_double (values_to_power s (slice regs 12 2)) c)
        × Shows (source_voltage_q P s c) (P.result_double (value_to_voltage s (regs 8)) c)
        × Shows (source_current_q P s c) (P.result_double (value_to_current s (regs 9)) c)
        × Shows (source_voltage_protection_tripped_q P s c) (P.result_bool (regs 16 == 1) c)
        × Shows (source_current_protection_tripped_q P s c) (P.result_bool (regs 16 == 2) c)
        × Shows (output_state_q P s c) (P.result_bool (not (regs 18 == 0)) c)
        × Shows
            (output_mode_q P s c)
            (P.result_text (if regs 17 == 0 then "CV" else if regs 17 == 1 then "CC" else "XX") c)
        × Shows (system_beeper_state_q P s c) (P.result_bool (not (regs 69 == 0)) c)
        × Shows (display_brightness_q P s c) (P.result_uint8 (regs 72 % 256) c)
        × Shows
            (system_date_q P s c)
            (P.result_uint16 (regs 50) (P.result_uint16 (regs 49) (P.result_uint16 (regs 48) c)))
        × Shows
            (system_time_q P s c)
            (P.result_uint16 (regs 53) (P.result_uint16 (regs 52) (P.result_uint16 (regs 51) c)))
  unfolding measure_voltage_q measure_current_q measure_power_q source_voltage_q source_current_q
      source_voltage_protection_tripped_q source_current_protection_tripped_q output_state_q
      output_mode_q system_beeper_state_q display_brightness_q system_date_q system_time_q
      get_voltage_out get_current_out get_power_out get_voltage_set get_current_set get_protection
      get_output_on get_output_mode is_buzzer_enabled get_brightness get_clock values_to_tm
      value_to_protection value_to_output_mode
  queries_lem words = (
    query-Shows get_voltage_out P.result_double _ (read_voltage-result d s r 10) refl,
    query-Shows get_current_out P.result_double _ (read_current-result d s r 11) refl,
    query-Shows get_power_out P.result_double _ (read_power-result d s r 12) refl,
    query-Shows get_voltage_set P.result_double _ (read_voltage-result d s r 8) refl,
    query-Shows get_current_set P.result_double _ (read_current-result d s r 9) refl,
    query-Shows get_protection (λ p. P.result_bool (is_ovp p)) _
        (word-result d s r 16 value_to_protection)
        (ap (λ b. P.result_bool b c) (ovp_word (d.regs s.bus 16))),
    query-Shows get_protection (λ p. P.result_bool (is_ocp p)) _
        (word-result d s r 16 value_to_protection)
        (ap (λ b. P.result_bool b c) (ocp_word (d.regs s.bus 16))),
    query-Shows get_output_on P.result_bool _ (read_boolean-result d s r 18) refl,
    mode (result-ok (get_output_mode s) (word-result d s r 17 value_to_output_mode)),
    query-Shows is_buzzer_enabled P.result_bool _ (read_boolean-result d s r 69) refl,
    query-Shows get_brightness P.result_uint8 _ (word-result d s r 72 (λ v. v % 256)) refl,
    query-Shows get_clock (show_date P) _ (block-result d s r 48 6 values_to_tm (omega arith)) date,
    query-Shows get_clock (show_time P) _ (block-result d s r 48 6 values_to_tm (omega arith)) time,
  )
    where
      ovp_word : (n : ℕ) → is_ovp (value_to_protection n) ≡ (n == 1)
      ovp_word n = ground arith

      ocp_word : (n : ℕ) → is_ocp (value_to_protection n) ≡ (n == 2)
      ocp_word n = ground arith

      mode :
          (t : RidenModbus E) × (get_output_mode s ≡ ok (value_to_output_mode (d.regs s.bus 17)) t)
          → Shows (report_mode P c (get_output_mode s)) (
              P.result_text
                (if d.regs s.bus 17 == 0 then "CV" else if d.regs s.bus 17 == 1 then "CC" else "XX")
                c)
      mode (t, run) = (t, ap (report_mode P c) run ∙ ap (λ x. res_ok t (P.result_text x c)) text)
        where
          text :
              mode_text (value_to_output_mode (d.regs s.bus 17))
              ≡ (if d.regs s.bus 17 == 0 then "CV" else if d.regs s.bus 17 == 1 then "CC" else "XX")
          text = ground arith

      date :
          show_date P (values_to_tm (slice (d.regs s.bus) 48 6)) c
          ≡ P.result_uint16
              (d.regs s.bus 50)
              (P.result_uint16 (d.regs s.bus 49) (P.result_uint16 (d.regs s.bus 48) c))
      date = λ i. P.result_uint16 (word_kept (d.regs s.bus 50) (words 50) i) (
          P.result_uint16 (word_back (d.regs s.bus 49) 1 (words 49) i)
            (P.result_uint16 (word_back (d.regs s.bus 48) 1900 (words 48) i) c))

      time :
          show_time P (values_to_tm (slice (d.regs s.bus) 48 6)) c
          ≡ P.result_uint16
              (d.regs s.bus 53)
              (P.result_uint16 (d.regs s.bus 52) (P.result_uint16 (d.regs s.bus 51) c))
      time = λ i. P.result_uint16 (word_kept (d.regs s.bus 53) (words 53) i) (
          P.result_uint16 (word_kept (d.regs s.bus 52) (words 52) i)
            (P.result_uint16 (word_kept (d.regs s.bus 51) (words 51) i) c))
