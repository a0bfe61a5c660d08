-- ===== src/Modbus/Settings/RoundTrip.antt =====
-- What is set is what is read back: clock, options and calibration.
use native.Mathlib.Nat.{mod-eq_of_lt}
use riden_dongle.Base.{
  ℕ, ◌+◌, ◌%◌, ◌<◌, ◌≡◌, refl, ◌∙◌, ap, Bool, true, List, [], ◌∷◌, some, pos, sub_ℕ, not, ◌==◌,
  ==_iff, if◌then◌else◌, arith,
}
use riden_dongle.Modbus.Env.{Env}
use riden_dongle.Modbus.State.{RidenModbus, ◌>>=◌, ◌>>◌, return, result}
use riden_dongle.Modbus.Values.{
  Tm, Calibration, values_to_tm, tm_to_values, words_to_calibration, calibration_to_words,
}
use riden_dongle.Modbus.Raw.{write_holding_register, write_holding_registers}
use riden_dongle.Modbus.Raw.Device.{
  Answers, Ready, slice, updates, write_holding_register_lem, write_holding_registers_lem,
}
use riden_dongle.Modbus.Raw.Calls.{then-result, Ready-le}
use riden_dongle.Modbus.Access.{read_word, read_boolean, write_boolean}
use riden_dongle.Modbus.Access.Reads.{block-result, word-result, read_boolean-result}
use riden_dongle.Modbus.Readings.{get_output_on, set_output_on}
use riden_dongle.Modbus.Settings.{
  get_clock, set_clock, set_date, set_time, is_take_ok, set_take_ok, is_take_out, set_take_out,
  is_power_on_boot, set_power_on_boot, is_buzzer_enabled, set_buzzer_enabled, is_logo, set_logo,
  get_brightness, set_brightness, get_calibration, set_calibration,
}

-- The clock of a year, a month counted from 1, and so on.
abbrev pub clock_of : ℕ → ℕ → ℕ → ℕ → ℕ → ℕ → Tm
clock_of year month day hour minute second = record {
  tm_year = sub_ℕ year 1900;
  tm_mon = sub_ℕ month 1;
  tm_mday = pos day;
  tm_hour = pos hour;
  tm_min = pos minute;
  tm_sec = pos second;
}

tm_to_values-clock_of :
    (year month day hour minute second : ℕ)
    → year < 65536
    → month < 65536
    → day < 65536
    → hour < 65536
    → minute < 65536
    → second < 65536
    → tm_to_values (clock_of year month day hour minute second)
      ≡ year ∷ month ∷ day ∷ hour ∷ minute ∷ second ∷ []
unfolding tm_to_values
tm_to_values-clock_of year month day hour minute second hy hmo hd hh hmi hs = ground arith

module _ ⦃E : Env⦄ {timeout : ℕ} (d : Answers E timeout) (s : RidenModbus E) (r : Ready d 3 s) where
  r₁ : Ready d 1 s
  r₁ = Ready-le d r (omega arith)

  -- Every clock whose six parts fit their registers is read back as it was set, with a power supply
  -- that answers in time and stores those registers.
  pub set_clock-get_clock :
      (year month day hour minute second : ℕ)
      → year < 65536
      → month < 65536
      → day < 65536
      → hour < 65536
      → minute < 65536
      → second < 65536
      → ((i : ℕ) → i < 6 → d.writable (48 + i) ≡ true)
      → result ((set_clock (clock_of year month day hour minute second) >> get_clock) s)
        ≡ some (clock_of year month day hour minute second)
  unfolding set_clock get_clock values_to_tm
  set_clock-get_clock year month day hour minute second hy hmo hd hh hmi hs can =
      rw (tm_to_values-clock_of year month day hour minute second hy hmo hd hh hmi hs) (
        then-result d
          (write_holding_registers 48 (year ∷ month ∷ day ∷ hour ∷ minute ∷ second ∷ [])) get_clock
          s 2 r (write_holding_registers_lem d 48 _ s r₁ can)
          (λ w r' same.
            block-result d (record s { bus = w }) (Ready-le d r' (omega arith)) 48 6 values_to_tm
              (omega arith)
            ∙ ap (λ g. some (values_to_tm (slice g 48 6))) same))

  -- Setting the date and then the time comes to setting the clock of both, where the parts fit the
  -- parameters: 16 bits for the date, 8 for the time.
  pub set_date-set_time-get_clock :
      (year month day hour minute second : ℕ)
      → year < 65536
      → month < 65536
      → day < 65536
      → hour < 256
      → minute < 256
      → second < 256
      → ((i : ℕ) → i < 6 → d.writable (48 + i) ≡ true)
      → result ((set_date year month day >> (set_time hour minute second >> get_clock)) s)
        ≡ some (clock_of year month day hour minute second)
  unfolding set_date set_time get_clock values_to_tm
  set_date-set_time-get_clock year month day hour minute second hy hmo hd hh hmi hs can =
      rw
        (
          mod-eq_of_lt hy,
          mod-eq_of_lt hmo,
          mod-eq_of_lt hd,
          mod-eq_of_lt hh,
          mod-eq_of_lt hmi,
          mod-eq_of_lt hs,
        )
        (then-result d (write_holding_registers 48 date)
          (write_holding_registers 51 time >> get_clock) s 2 r
          (write_holding_registers_lem d 48 date s r₁ (λ i h. can i (omega arith)))
          (λ w r' same.
            then-result d (write_holding_registers 51 time) get_clock (record s { bus = w }) 1 r'
              (write_holding_registers_lem d 51 time (record s { bus = w })
                (Ready-le d r' (omega arith))
                (λ i h. ap d.writable (omega arith) ∙ can (3 + i) (omega arith)))
              (λ v r'' same'.
                block-result d (record s { bus = v }) r'' 48 6 values_to_tm (omega arith)
                ∙ ap (λ g. some (values_to_tm (slice g 48 6)))
                    (same' ∙ ap (λ g. updates g 51 time) same))))
    where
      date : List ℕ
      date = year ∷ month ∷ day ∷ []

      time : List ℕ
      time = hour ∷ minute ∷ second ∷ []

  write-read_boolean :
      (a : ℕ) (b : Bool)
      → d.writable a ≡ true
      → result ((write_boolean a b >> read_boolean a) s) ≡ some b
  unfolding write_boolean
  write-read_boolean a b can =
      then-result d (write_boolean a b) (read_boolean a) s 2 r
        (write_holding_register_lem d a (if b then 1 else 0) s r₁ can)
        (λ w r' same.
          read_boolean-result d (record s { bus = w }) (Ready-le d r' (omega arith)) a
          ∙ ap (λ g. some (not (g a == 0))) same
          ∙ ground (arith, ==_iff a a))

  -- Each switch is read back as it was set: the output, and the five options.
  pub switches_round_trip :
      (b : Bool)
      → ((i : ℕ) → d.writable i ≡ true)
      → (result ((set_output_on b >> get_output_on) s) ≡ some b)
        × (result ((set_take_ok b >> is_take_ok) s) ≡ some b)
        × (result ((set_take_out b >> is_take_out) s) ≡ some b)
        × (result ((set_power_on_boot b >> is_power_on_boot) s) ≡ some b)
        × (result ((set_buzzer_enabled b >> is_buzzer_enabled) s) ≡ some b)
        × (result ((set_logo b >> is_logo) s) ≡ some b)
  unfolding set_output_on get_output_on set_take_ok is_take_ok set_take_out is_take_out
      set_power_on_boot is_power_on_boot set_buzzer_enabled is_buzzer_enabled set_logo is_logo
  switches_round_trip b can = (
    write-read_boolean 18 b (can 18),
    write-read_boolean 66 b (can 66),
    write-read_boolean 67 b (can 67),
    write-read_boolean 68 b (can 68),
    write-read_boolean 69 b (can 69),
    write-read_boolean 70 b (can 70),
  )

  write-read_word {ℓ} :
      {A : Type ℓ} (a v : ℕ) (f : ℕ → A)
      → d.writable a ≡ true
      → result ((write_holding_register a v >> (read_word a >>= λ value. return (f value))) s)
        ≡ some (f v)
  write-read_word a v f can =
      then-result d (write_holding_register a v) (read_word a >>= λ value. return (f value)) s 2 r
        (write_holding_register_lem d a v s r₁ can)
        (λ w r' same.
          word-result d (record s { bus = w }) (Ready-le d r' (omega arith)) a f
          ∙ ap (λ g. some (f (g a))) same
          ∙ ap (λ b. some (f (if b then v else d.regs s.bus a))) ((==_iff a a).1 refl))

  -- A brightness of 8 bits and a calibration are read back as they were set; the words of the
  -- calibration go to their registers in the order of the structure.
  pub set_brightness-set_calibration_round_trip :
      (brightness : ℕ) (c : Calibration)
      → brightness < 256
      → ((i : ℕ) → d.writable i ≡ true)
      → (result ((set_brightness brightness >> get_brightness) s) ≡ some brightness)
        × (result ((set_calibration c >> get_calibration) s) ≡ some c)
  unfolding set_brightness get_brightness set_calibration get_calibration words_to_calibration
      calibration_to_words
  set_brightness-set_calibration_round_trip brightness c h can = (
    write-read_word 72 (brightness % 256) (λ v. v % 256) (can 72) ∙ ap some (omega arith),
    then-result d (write_holding_registers 55 (calibration_to_words c)) get_calibration s 2 r
        (write_holding_registers_lem d 55 (calibration_to_words c) s r₁ (λ i h'. can (55 + i)))
        (λ w r' same.
          block-result d (record s { bus = w }) (Ready-le d r' (omega arith)) 55 8
            words_to_calibration (omega arith)
          ∙ ap (λ g. some (words_to_calibration (slice g 55 8))) same),
  )
