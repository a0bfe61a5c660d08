-- ===== src/Scpi/Tests/Commands.antt =====
-- The theorems on the commands, on the bench.
use riden_dongle.Base.{ℕ, ◌≤◌, ◌<◌, ◌≡◌, refl, ◌⊎◌, true, false, List, [], ◌∷◌, arith}
use riden_dongle.Modbus.Double
use riden_dongle.Modbus.Double.{Double}
use riden_dongle.Modbus.State.{RidenModbus}
use riden_dongle.Modbus.Values.{
  value_to_voltage, value_to_current, values_to_power, voltage_to_value,
}
use riden_dongle.Modbus.Tests.Bench.{bench, bench-Answers, running, running-Ready}
use riden_dongle.Scpi.Parser.{unit_volt, illegal_parameter_value, data_type_error, res_err}
use riden_dongle.Scpi.Commands.{
  rcl, display_brightness, source_voltage, source_voltage_limit, source_current,
  source_current_limit, measure_voltage_q, measure_current_q, measure_power_q, source_voltage_q,
  source_current_q, source_voltage_protection_tripped_q, source_current_protection_tripped_q,
  output_state_q, output_mode_q, system_beeper_state_q, display_brightness_q, system_date_q,
  system_time_q, measure_temperature_q,
}
use riden_dongle.Scpi.Commands.Queries.{Shows, queries_lem}
use riden_dongle.Scpi.Table.Untouched.{Untouched}
use riden_dongle.Scpi.Table.ReadOnly.{queries_read_only}
use riden_dongle.Scpi.Commands.Settings.{Sets, numbers_lem, ranges_lem}
use riden_dongle.Scpi.Tests.Bench.{
  Notes, Shown, shown_double, shown_bool, shown_text, shown_number, shown_error, bench_parser,
}

-- Every register holds 1: constant current, with the voltage limit tripped.
abbrev ones : ℕ → ℕ
ones a = 1

abbrev psu : RidenModbus bench
psu = running ones

abbrev told : ℕ → Notes
told n = record { argument = n; shown = [] }

abbrev noted : List Shown → Notes
noted xs = record { argument = 7; shown = xs }

queries_lem_example :
    let Shown₁ =
      Shows bench-Answers bench_parser psu (told 7) (running-Ready ones 1 (omega arith)) in
    Shown₁
      (measure_voltage_q bench_parser psu (told 7))
      (noted (shown_double (value_to_voltage psu 1) ∷ []))
    × Shown₁
        (measure_current_q bench_parser psu (told 7))
        (noted (shown_double (value_to_current psu 1) ∷ []))
    × Shown₁
        (measure_power_q bench_parser psu (told 7))
        (noted (shown_double (values_to_power psu (1 ∷ 1 ∷ [])) ∷ []))
    × Shown₁
        (source_voltage_q bench_parser psu (told 7))
        (noted (shown_double (value_to_voltage psu 1) ∷ []))
    × Shown₁
        (source_current_q bench_parser psu (told 7))
        (noted (shown_double (value_to_current psu 1) ∷ []))
    × Shown₁
        (source_voltage_protection_tripped_q bench_parser psu (told 7))
        (noted (shown_bool true ∷ []))
    × Shown₁
        (source_current_protection_tripped_q bench_parser psu (told 7))
        (noted (shown_bool false ∷ []))
    × Shown₁ (output_state_q bench_parser psu (told 7)) (noted (shown_bool true ∷ []))
    × Shown₁ (output_mode_q bench_parser psu (told 7)) (noted (shown_text "CC" ∷ []))
    × Shown₁ (system_beeper_state_q bench_parser psu (told 7)) (noted (shown_bool true ∷ []))
    × Shown₁ (display_brightness_q bench_parser psu (told 7)) (noted (shown_number 1 ∷ []))
    × Shown₁
        (system_date_q bench_parser psu (told 7))
        (noted (shown_number 1 ∷ shown_number 1 ∷ shown_number 1 ∷ []))
    × Shown₁
        (system_time_q bench_parser psu (told 7))
        (noted (shown_number 1 ∷ shown_number 1 ∷ shown_number 1 ∷ []))
queries_lem_example =
    queries_lem bench-Answers bench_parser psu (told 7) (running-Ready ones 1 (omega arith))
      (λ i. omega arith)

-- 3.3 V: taken as a voltage, refused as a current.
numbers_lem_example :
    let x = Double.literal 33 1 in
    let r = running-Ready ones 1 (omega arith) in
    let refused = res_err psu (record (told 33) { shown = shown_error data_type_error ∷ [] }) in
    Sets bench-Answers bench_parser psu
      (told 33)
      (told 33)
      r
      (λ i. refl)
      (source_voltage bench_parser psu (told 33))
      8
      (voltage_to_value psu x)
    × Sets bench-Answers bench_parser psu
        (told 33)
        (told 33)
        r
        (λ i. refl)
        (source_voltage_limit bench_parser psu (told 33))
        82
        (voltage_to_value psu x)
    × (source_current bench_parser psu (told 33) ≡ refused)
    × (source_current_limit bench_parser psu (told 33) ≡ refused)
numbers_lem_example =
    numbers_lem bench-Answers bench_parser psu (told 33) (told 33)
      (running-Ready ones 1 (omega arith)) (λ i. refl) (Double.literal 33 1) unit_volt refl

-- 7 is a preset, and no brightness.
ranges_lem_example :
    let refused = res_err psu (noted (shown_error illegal_parameter_value ∷ [])) in
    let r = running-Ready ones 1 (omega arith) in
    let Sets₇ = Sets bench-Answers bench_parser psu (told 7) (told 7) r (λ i. refl) in
    (((1 ≤ 7) × (7 ≤ 9) × Sets₇ (rcl bench_parser psu (told 7)) 19 7)
      ⊎ (((7 < 1) ⊎ (9 < 7)) × (rcl bench_parser psu (told 7) ≡ refused)))
    × (((7 ≤ 5) × Sets₇ (display_brightness bench_parser psu (told 7)) 72 7)
        ⊎ ((5 < 7) × (display_brightness bench_parser psu (told 7) ≡ refused)))
ranges_lem_example =
    ranges_lem bench-Answers bench_parser psu (told 7) (told 7) (running-Ready ones 1 (omega arith))
      (λ i. refl) 7 refl

queries_read_only_example :
    Untouched bench-Answers psu
      (running-Ready ones 1 (omega arith))
      bench_parser
      (measure_temperature_q bench_parser psu (told 1))
queries_read_only_example =
    queries_read_only bench-Answers psu (running-Ready ones 1 (omega arith)) bench_parser 47
      "MEASure[:SCALar]:TEMPerature[:THERmistor][:DC]?" (measure_temperature_q bench_parser)
      (told 1) refl refl
