-- ===== src/Http/Details.antt =====
-- The page of `handle_psu_get`: what `get_all_values` has read, in five boxes.
use riden_dongle.Base.{
  ℕ, ◌+◌, ◌-◌, ◌%◌, ◌^◌, List, [], ◌∷◌, ◌++◌, ℤ, pos, negsuc, add_ℕ, ltb, leb, if◌then◌else◌,
}
use riden_dongle.Modbus.Env.{Env}
use riden_dongle.Modbus.State.{Preset}
use riden_dongle.Modbus.Values.{Tm, Calibration}
use riden_dongle.Modbus.AllValues.{AllValues, Details}
use riden_dongle.Http.Output.{Text, lit, decimal, fixed, printed, ◌+t◌}
use riden_dongle.Http.Board.{Platform}
use riden_dongle.Http.Rows.{
  protection_to_string, outputmode_to_string, language_to_string, yes_no, send_info_row, box,
  voltage_to_string, current_to_string, power_to_string,
}

-- The conversion of an `int` to `unsigned`.
abbrev pub int_to_u32 : ℤ → ℕ
int_to_u32 (pos n) = n % 2 ^ 32
int_to_u32 (negsuc n) = 2 ^ 32 - 1 - n % 2 ^ 32

-- How many digits `%u` prints for a number of 32 bits.
abbrev pub digits : ℕ → ℕ
digits n =
    if ltb n 10
    then 1
    else if ltb n 100
    then 2
    else if ltb n 1000
    then 3
    else if ltb n 10000
    then 4
    else if ltb n 100000
    then 5
    else if ltb n 1000000
    then 6
    else if ltb n 10000000
    then 7
    else if ltb n 100000000
    then 8
    else if ltb n 1000000000
    then 9
    else 10

-- How many characters `%0<least>u` prints.
abbrev pub printed_width : ℕ → ℕ → ℕ
printed_width least n = if leb least (digits n) then digits n else least

-- The arguments of `sprintf(clock_string, "%04u-%02u-%02u %02u:%02u:%02u", ...)`.
abbrev pub clock_arguments : Tm → List ℕ
clock_arguments clock =
    int_to_u32 (add_ℕ clock.tm_year 1900)
    ∷ int_to_u32 (add_ℕ clock.tm_mon 1)
    ∷ int_to_u32 clock.tm_mday
    ∷ int_to_u32 clock.tm_hour
    ∷ int_to_u32 clock.tm_min
    ∷ int_to_u32 clock.tm_sec
    ∷ []

abbrev pub clock_string : {D : Type 0} → Tm → Text D
clock_string clock = printed "%04u-%02u-%02u %02u:%02u:%02u" (clock_arguments clock)

-- What it prints, without the terminator.
abbrev pub clock_length : Tm → ℕ
clock_length clock =
    printed_width 4 (int_to_u32 (add_ℕ clock.tm_year 1900))
    + printed_width 2 (int_to_u32 (add_ℕ clock.tm_mon 1))
    + printed_width 2 (int_to_u32 clock.tm_mday)
    + printed_width 2 (int_to_u32 clock.tm_hour)
    + printed_width 2 (int_to_u32 clock.tm_min)
    + printed_width 2 (int_to_u32 clock.tm_sec)
    + 5

module _ (E : Env) (P : Platform E.Double) where
  open E use {Double}

  abbrev pub supply_rows : AllValues E → List (Text Double)
  supply_rows av =
      send_info_row "Output" (lit (if av.output_on then "On" else "Off"))
      ++ (send_info_row "Set" (
            voltage_to_string E P av.voltage_set
            +t lit " / "
            +t current_to_string E P av.current_set)
          ++ (send_info_row "Out" (
                voltage_to_string E P av.voltage_out
                +t lit " / "
                +t current_to_string E P av.current_out
                +t lit " / "
                +t power_to_string E P av.power_out)
              ++ (send_info_row "Protection" (protection_to_string av.protection)
                  ++ (send_info_row "Output Mode" (outputmode_to_string av.output_mode)
                      ++ (send_info_row "Current Range" (decimal av.current_range)
                          ++ (send_info_row "Battery Mode" (yes_no av.is_battery_mode)
                              ++ (send_info_row "Voltage Battery"
                                    (voltage_to_string E P av.voltage_battery)
                                  ++ (send_info_row "Ah" (fixed av.ah 3 +t lit " Ah")
                                      ++ send_info_row "Wh" (fixed av.wh 3 +t lit " Wh")))))))))

  abbrev pub environment_rows : AllValues E → List (Text Double)
  environment_rows av =
      send_info_row "Voltage In" (voltage_to_string E P av.voltage_in)
      ++ (send_info_row "System Temperature" (
            fixed av.system_temperature_celsius 0
            +t lit "&deg;C"
            +t lit " / "
            +t fixed av.system_temperature_fahrenheit 0
            +t lit "&deg;F")
          ++ send_info_row "Probe Temperature" (
              fixed av.probe_temperature_celsius 0
              +t lit "&deg;C"
              +t lit " / "
              +t fixed av.probe_temperature_fahrenheit 0
              +t lit "&deg;F"))

  abbrev pub settings_rows : AllValues E → Details E → List (Text Double)
  settings_rows av dt =
      send_info_row "Keypad Locked" (yes_no av.keypad_locked)
      ++ (send_info_row "Time" (clock_string dt.clock)
          ++ (send_info_row "Take OK" (yes_no dt.is_take_ok)
              ++ (send_info_row "Take Out" (yes_no dt.is_take_out)
                  ++ (send_info_row "Power on boot" (yes_no dt.is_power_on_boot)
                      ++ (send_info_row "Buzzer enabled" (yes_no dt.is_buzzer_enabled)
                          ++ (send_info_row "Logo" (yes_no dt.is_logo)
                              ++ (send_info_row "Language" (language_to_string dt.language)
                                  ++ send_info_row "Brightness" (decimal dt.brightness))))))))

  abbrev pub calibration_rows : Calibration → List (Text Double)
  calibration_rows c =
      send_info_row "V_OUT_ZERO" (decimal c.v_out_zero)
      ++ (send_info_row "V_OUT_SCALE" (decimal c.v_out_scale)
          ++ (send_info_row "V_BACK_ZERO" (decimal c.v_back_zero)
              ++ (send_info_row "V_BACK_SCALE" (decimal c.v_back_scale)
                  ++ (send_info_row "I_OUT_ZERO" (decimal c.i_out_zero)
                      ++ (send_info_row "I_OUT_SCALE" (decimal c.i_out_scale)
                          ++ (send_info_row "I_BACK_ZERO" (decimal c.i_back_zero)
                              ++ send_info_row "I_BACK_SCALE" (decimal c.i_back_scale)))))))

  abbrev pub preset_heading : ℕ → Text Double
  preset_heading preset =
      lit "<tr><th colspan='2' style='text-align:left'>Preset "
      +t decimal (preset + 1)
      +t lit " (M"
      +t decimal (preset + 1)
      +t lit ")"
      +t lit "</th></tr>"

  -- The loop over the presets, from the one with the given index on.
  abbrev pub preset_rows : ℕ → List (Preset E) → List (Text Double)
  preset_rows preset [] = []
  preset_rows preset (p ∷ ps) =
      preset_heading preset
      ∷ (send_info_row "Preset Voltage" (voltage_to_string E P p.voltage)
          ++ (send_info_row "Preset Current" (current_to_string E P p.current)
              ++ (send_info_row "Preset OVP" (voltage_to_string E P p.over_voltage_protection)
                  ++ (send_info_row "Preset OCP" (current_to_string E P p.over_current_protection)
                      ++ preset_rows (preset + 1) ps))))

  unfoldable pub details_body : AllValues E → Details E → List (Text Double)
  details_body av dt =
      box "            <a style='float:right' href='.'>Refresh</a><h2>Power Supply Details</h2>"
        (supply_rows av)
      ++ (box "            <h2>Environment</h2>" (environment_rows av)
          ++ (box "            <h2>Settings</h2>" (settings_rows av dt)
              ++ (box "            <h2>Calibration</h2>" (calibration_rows dt.calibration)
                  ++ box "            <h2>Presets</h2>" (preset_rows 0 dt.presets))))
