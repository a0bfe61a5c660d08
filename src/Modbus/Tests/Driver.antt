-- ===== src/Modbus/Tests/Driver.antt =====
-- The theorems on the driver's operations, on the bench.
use riden_dongle.Base.{ℕ, ◌≤◌, ◌<◌, ◌≡◌, refl, ◌⊎◌, true, false, List, none, some, arith}
use riden_dongle.Modbus.Double
use riden_dongle.Modbus.Double.{Double}
use riden_dongle.Modbus.State.{RidenModbus, Preset, ok, fail, result, ◌>>◌}
use riden_dongle.Modbus.Values.{Calibration}
use riden_dongle.Modbus.Raw.{
  read_holding_registers, write_holding_register, write_holding_registers,
}
use riden_dongle.Modbus.Raw.Device.{Ready}
use riden_dongle.Modbus.Settings.{get_clock, set_clock}
use riden_dongle.Modbus.Settings.RoundTrip.{clock_of, set_clock-get_clock}
use riden_dongle.Modbus.Presets.{
  set_preset, store_preset, get_preset, set_preset_voltage_out, set_preset_current_out,
  set_preset_over_voltage_protection, set_preset_over_current_protection,
}
use riden_dongle.Modbus.Presets.Guards.{Recalls, Stores, Refuses, presets_by_index}
use riden_dongle.Modbus.Presets.RoundTrip.{stored, store_preset-get_preset, parts-get_preset}
use riden_dongle.Modbus.AllValues.{AllValues, Details, get_all_values}
use riden_dongle.Modbus.AllValues.Agrees.{Agrees, DetailsAgree, get_all_values-Agrees}
use riden_dongle.Modbus.Begin.{begin}
use riden_dongle.Modbus.Begin.Identify.{Known, begin_recognises}
use riden_dongle.Modbus.Tests.Bench.{bench, bench-Answers, fresh, running, running-Ready, counting}

abbrev psu : RidenModbus bench
psu = running counting

psu-Ready : (n : ℕ) → n ≤ 1000 → Ready bench-Answers n psu
psu-Ready n h = running-Ready counting n h

get_all_values-Agrees_example :
    ((av : AllValues bench) × (result (get_all_values true psu) ≡ some av)
      × Agrees psu av
      × (av.details ≡ none))
    × ((av : AllValues bench) × (dt : Details bench) × (result (get_all_values false psu) ≡ some av)
        × Agrees psu av
        × (av.details ≡ some dt)
        × DetailsAgree psu dt)
get_all_values-Agrees_example =
    get_all_values-Agrees bench-Answers psu (psu-Ready 120 (omega arith))

-- An RD6006P: its id is 60065.
abbrev rd6006p : ℕ → ℕ
rd6006p a = 60065

begin_recognises_example :
    (Known 60065
      × (t : RidenModbus bench) × (begin 9600 (fresh rd6006p) ≡ ok tt t)
      × Ready bench-Answers 9 t)
    ⊎ (¬ Known 60065
        × (t : RidenModbus bench) × (begin 9600 (fresh rd6006p) ≡ fail t)
        × ((start n value : ℕ) (values : List ℕ)
            → (read_holding_registers start n t ≡ fail t)
              × (write_holding_register start value t ≡ fail t)
              × (write_holding_registers start values t ≡ fail t)))
begin_recognises_example =
    begin_recognises bench-Answers 9600 9 (fresh rd6006p) refl refl refl refl (omega arith)

set_clock-get_clock_example :
    result ((set_clock (clock_of 2024 2 29 23 59 58) >> get_clock) psu)
    ≡ some (clock_of 2024 2 29 23 59 58)
set_clock-get_clock_example =
    set_clock-get_clock bench-Answers psu (psu-Ready 3 (omega arith)) 2024 2 29 23 59 58
      (omega arith) (omega arith) (omega arith) (omega arith) (omega arith) (omega arith)
      (λ i h. refl)

abbrev factory : Calibration
factory = record {
  v_out_zero = 1;
  v_out_scale = 2;
  v_back_zero = 3;
  v_back_scale = 4;
  i_out_zero = 5;
  i_out_scale = 6;
  i_back_zero = 7;
  i_back_scale = 8;
}

-- 3.3 V, 0.5 A, and limits of 4 V and 1 A.
abbrev logic_supply : Preset bench
logic_supply = record {
  voltage = Double.literal 33 1;
  current = Double.literal 5 1;
  over_voltage_protection = Double.literal 4 0;
  over_current_protection = Double.literal 1 0;
}

presets_by_index_example :
    let r = psu-Ready 5 (omega arith) in
    let x = Double.literal 33 1 in
    ((1 ≤ 9) × (9 ≤ 8) × Recalls bench-Answers psu r 9 × Stores bench-Answers psu r 9 logic_supply)
    ⊎ (((◌≡◌ {A = ℕ} 9 0)
          × (set_preset 9 psu ≡ fail psu)
          × Stores bench-Answers psu r 9 logic_supply)
        ⊎ (((◌≡◌ {A = ℕ} 9 9) × Recalls bench-Answers psu r 9 × Refuses 9 psu logic_supply x)
            ⊎ ((9 < 9) × (set_preset 9 psu ≡ fail psu) × Refuses 9 psu logic_supply x)))
presets_by_index_example =
    presets_by_index bench-Answers psu (psu-Ready 5 (omega arith)) 9 logic_supply
      (Double.literal 33 1) (λ i. refl)

store_preset-get_preset_example :
    result ((store_preset 3 logic_supply >> get_preset 3) psu)
    ≡ some (stored bench-Answers psu (psu-Ready 5 (omega arith)) logic_supply)
store_preset-get_preset_example =
    store_preset-get_preset bench-Answers psu (psu-Ready 5 (omega arith)) 3 logic_supply
      (omega arith) (λ i. refl)

parts-get_preset_example :
    result (
      (set_preset_voltage_out 3 logic_supply.voltage
          >> (set_preset_current_out 3 logic_supply.current
              >> (set_preset_over_voltage_protection 3 logic_supply.over_voltage_protection
                  >> (set_preset_over_current_protection 3 logic_supply.over_current_protection
                      >> get_preset 3))))
        psu)
    ≡ some (stored bench-Answers psu (psu-Ready 5 (omega arith)) logic_supply)
parts-get_preset_example =
    parts-get_preset bench-Answers psu (psu-Ready 5 (omega arith)) 3 logic_supply (omega arith)
      (λ i. refl)

-- `uint16_t(voltage * v_multi)` truncates: 0.29 V goes out as 28 hundredths.
truncation : Double.to_u16 (Double.mul (Double.literal 29 2) (Double.literal 100 0)) ≡ 28
unfolding Double.to_u16 Double.mul Double.literal
truncation = refl

exact_thirty_three : Double.to_u16 (Double.mul (Double.literal 33 1) (Double.literal 100 0)) ≡ 330
unfolding Double.to_u16 Double.mul Double.literal
exact_thirty_three = refl
