-- ===== src/Modbus/AllValues/Agrees.antt =====
-- `get_all_values` against the single getters: each member is what its own getter returns.
use riden_dongle.Base.{
  ℕ, suc, ◌+◌, ◌<◌, ◌≡◌, refl, true, false, List, [], ◌++◌, zero, ◌%◌, Option, get_elem?, none,
  some, arith,
}
use riden_dongle.Modbus.Env.{Env}
use riden_dongle.Modbus.State.{RidenModbus, Preset, result}
use riden_dongle.Modbus.Values.{
  values_to_tm, values_to_power, values_to_temperature, values_to_ah, values_to_wh,
  values_to_preset, value_to_protection, value_to_output_mode, words_to_calibration,
}
use riden_dongle.Modbus.Raw.Device.{Answers, Ready, slice}
use riden_dongle.Modbus.Raw.Calls.{Ready-le, Does-result}
use riden_dongle.Modbus.Access.{read_word}
use riden_dongle.Modbus.Access.Reads.{
  block-result, word-result, read_word_lem, read_boolean-result, read_voltage-result,
  read_current-result, read_power-result,
}
use riden_dongle.Modbus.Readings.{
  get_system_temperature_celsius, get_system_temperature_fahrenheit, get_voltage_set,
  get_current_set, get_voltage_out, get_current_out, get_power_out, is_keypad_locked,
  get_protection, get_output_mode, get_output_on, get_current_range, is_battery_mode,
  get_voltage_battery, get_probe_temperature_celsius, get_probe_temperature_fahrenheit, get_ah,
  get_wh,
}
use riden_dongle.Modbus.Settings.{
  get_clock, is_take_ok, is_take_out, is_power_on_boot, is_buzzer_enabled, is_logo, get_language,
  get_brightness, get_calibration,
}
use riden_dongle.Modbus.Presets.{get_preset}
use riden_dongle.Modbus.Presets.Reads.{get_preset-result}
use riden_dongle.Modbus.AllValues.{
  AllValues, Details, get_all_values, decode_values, decode_details, decode_presets,
}
use riden_dongle.Modbus.AllValues.Reading.{get_all_values_lem}

module _ ⦃E : Env⦄ where
  -- Each member that both readings fill, but `voltage_in`, which has no getter.
  pub record Agrees (s : RidenModbus E) (av : AllValues E) : Type 0 where
    pub system_celsius :
        result (get_system_temperature_celsius s) ≡ some av.system_temperature_celsius
    pub system_fahrenheit :
        result (get_system_temperature_fahrenheit s) ≡ some av.system_temperature_fahrenheit
    pub voltage_set : result (get_voltage_set s) ≡ some av.voltage_set
    pub current_set : result (get_current_set s) ≡ some av.current_set
    pub voltage_out : result (get_voltage_out s) ≡ some av.voltage_out
    pub current_out : result (get_current_out s) ≡ some av.current_out
    pub power_out : result (get_power_out s) ≡ some av.power_out
    pub keypad_locked : result (is_keypad_locked s) ≡ some av.keypad_locked
    pub protection : result (get_protection s) ≡ some av.protection
    pub output_mode : result (get_output_mode s) ≡ some av.output_mode
    pub output_on : result (get_output_on s) ≡ some av.output_on
    pub current_range : result (get_current_range s) ≡ some av.current_range
    pub battery_mode : result (is_battery_mode s) ≡ some av.is_battery_mode
    pub voltage_battery : result (get_voltage_battery s) ≡ some av.voltage_battery
    pub probe_celsius : result (get_probe_temperature_celsius s) ≡ some av.probe_temperature_celsius
    pub probe_fahrenheit :
        result (get_probe_temperature_fahrenheit s) ≡ some av.probe_temperature_fahrenheit
    pub ah : result (get_ah s) ≡ some av.ah
    pub wh : result (get_wh s) ≡ some av.wh

  -- Each member that only the full reading fills.
  pub record DetailsAgree (s : RidenModbus E) (dt : Details E) : Type 0 where
    pub clock : result (get_clock s) ≡ some dt.clock
    pub calibration : result (get_calibration s) ≡ some dt.calibration
    pub take_ok : result (is_take_ok s) ≡ some dt.is_take_ok
    pub take_out : result (is_take_out s) ≡ some dt.is_take_out
    pub power_on_boot : result (is_power_on_boot s) ≡ some dt.is_power_on_boot
    pub buzzer : result (is_buzzer_enabled s) ≡ some dt.is_buzzer_enabled
    pub logo : result (is_logo s) ≡ some dt.is_logo
    pub language : result (get_language s) ≡ some dt.language
    pub brightness : result (get_brightness s) ≡ some dt.brightness
    pub presets : (i : ℕ) → i < 8 → result (get_preset (i + 1) s) ≡ get_elem? dt.presets i
    pub last_preset :
        (result (get_preset 9 s) ≡ none) × ((p : Preset E) × (get_elem? dt.presets 8 ≡ some p))

module _ ⦃E : Env⦄ {timeout : ℕ} (d : Answers E timeout) (s : RidenModbus E) (r : Ready d 1 s) where
  decode_values-Agrees :
      (values rest : List ℕ) (dt : Option (Details E))
      → values ≡ slice (d.regs s.bus) 0 43 ++ rest
      → Agrees s (decode_values s values dt)
  unfolding decode_values get_system_temperature_celsius get_system_temperature_fahrenheit
      get_voltage_set get_current_set get_voltage_out get_current_out get_power_out is_keypad_locked
      get_protection get_output_mode get_output_on get_current_range is_battery_mode
      get_voltage_battery get_probe_temperature_celsius get_probe_temperature_fahrenheit get_ah
      get_wh values_to_temperature values_to_power values_to_ah values_to_wh
  decode_values-Agrees values rest dt e = rw e (record {
    system_celsius = block-result d s r 4 2 values_to_temperature (omega arith);
    system_fahrenheit = block-result d s r 6 2 values_to_temperature (omega arith);
    voltage_set = read_voltage-result d s r 8;
    current_set = read_current-result d s r 9;
    voltage_out = read_voltage-result d s r 10;
    current_out = read_current-result d s r 11;
    power_out = read_power-result d s r 12;
    keypad_locked = read_boolean-result d s r 15;
    protection = word-result d s r 16 value_to_protection;
    output_mode = word-result d s r 17 value_to_output_mode;
    output_on = read_boolean-result d s r 18;
    current_range = Does-result d 1 (read_word 20) s (read_word_lem d s r 20);
    battery_mode = read_boolean-result d s r 32;
    voltage_battery = read_voltage-result d s r 33;
    probe_celsius = block-result d s r 34 2 values_to_temperature (omega arith);
    probe_fahrenheit = block-result d s r 36 2 values_to_temperature (omega arith);
    ah = block-result d s r 38 2 values_to_ah (omega arith);
    wh = block-result d s r 40 2 values_to_wh (omega arith);
  })

  decode_presets-get_preset :
      (values : List ℕ) (i : ℕ)
      → values ≡ slice (d.regs s.bus) 0 120
      → i < 8
      → result (get_preset (i + 1) s) ≡ get_elem? (decode_presets s values 9 0) i
  unfolding decode_presets values_to_preset
  decode_presets-get_preset values zero e h = rw e (get_preset-result d s r 1 (omega arith))
  decode_presets-get_preset values (suc zero) e h = rw e (get_preset-result d s r 2 (omega arith))
  decode_presets-get_preset values (suc (suc zero)) e h =
      rw e (get_preset-result d s r 3 (omega arith))
  decode_presets-get_preset values (suc (suc (suc zero))) e h =
      rw e (get_preset-result d s r 4 (omega arith))
  decode_presets-get_preset values (suc (suc (suc (suc zero)))) e h =
      rw e (get_preset-result d s r 5 (omega arith))
  decode_presets-get_preset values (suc (suc (suc (suc (suc zero))))) e h =
      rw e (get_preset-result d s r 6 (omega arith))
  decode_presets-get_preset values (suc (suc (suc (suc (suc (suc zero)))))) e h =
      rw e (get_preset-result d s r 7 (omega arith))
  decode_presets-get_preset values (suc (suc (suc (suc (suc (suc (suc zero))))))) e h =
      rw e (get_preset-result d s r 8 (omega arith))
  decode_presets-get_preset values (suc (suc (suc (suc (suc (suc (suc (suc i)))))))) e h =
      absurd (omega arith)

  decode_details-Agree :
      (values : List ℕ)
      → values ≡ slice (d.regs s.bus) 0 120
      → DetailsAgree s (decode_details s values)
  unfolding decode_details get_clock is_take_ok is_take_out is_power_on_boot is_buzzer_enabled
      is_logo get_language get_brightness get_calibration values_to_tm words_to_calibration
      get_preset
  decode_details-Agree values e = record {
    clock = rw e (block-result d s r 48 6 values_to_tm (omega arith));
    calibration = rw e (block-result d s r 55 8 words_to_calibration (omega arith));
    take_ok = rw e (read_boolean-result d s r 66);
    take_out = rw e (read_boolean-result d s r 67);
    power_on_boot = rw e (read_boolean-result d s r 68);
    buzzer = rw e (read_boolean-result d s r 69);
    logo = rw e (read_boolean-result d s r 70);
    language = rw e (Does-result d 1 (read_word 71) s (read_word_lem d s r 71));
    brightness = rw e (word-result d s r 72 (λ v. v % 256));
    presets = λ i h. decode_presets-get_preset values i e h;
    last_preset = (refl, (_, refl));
  }

module _ ⦃E : Env⦄ {timeout : ℕ} (d : Answers E timeout) (s : RidenModbus E)
    (r : Ready d 120 s) where
  -- With a power supply that answers in time, either reading returns, and every member but
  -- `voltage_in` is what its own getter returns for the same object; the members of the details are
  -- filled exactly in the full reading, and agree likewise, the presets M1 to M8 with `get_preset` 1
  -- to 8. M9 is read here and refused by `get_preset`.
  pub get_all_values-Agrees :
      ((av : AllValues E) × (result (get_all_values true s) ≡ some av)
        × Agrees s av
        × (av.details ≡ none))
      × ((av : AllValues E) × (dt : Details E) × (result (get_all_values false s) ≡ some av)
          × Agrees s av
          × (av.details ≡ some dt)
          × DetailsAgree s dt)
  unfolding decode_values
  get_all_values-Agrees = (
    (
      _,
      Does-result d 120 (get_all_values true) s (get_all_values_lem d true s r),
      decode_values-Agrees d s (Ready-le d r (omega arith)) _ [] _ refl,
      refl,
    ),
    (
      _,
      _,
      Does-result d 120 (get_all_values false) s (get_all_values_lem d false s r),
      decode_values-Agrees d s (Ready-le d r (omega arith)) _ (slice (d.regs s.bus) 43 77) _ refl,
      refl,
      decode_details-Agree d s (Ready-le d r (omega arith)) _ refl,
    ),
  )
