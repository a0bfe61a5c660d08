-- ===== src/Modbus/Registers.antt =====
-- The holding registers of the power supply: include/riden_modbus/riden_modbus_registers.h.
-- The two entries that the enumeration itself calls no registers keep their places.
use riden_dongle.Base.{ℕ}

pub data Register : Type 0 where
  id serial_number_high serial_number_low firmware system_temperature_celsius_sign : Register
  system_temperature_celsius_value system_temperature_farhenheit_sign : Register
  system_temperature_farhenheit_value voltage_set current_set voltage_out current_out : Register
  power_out_h power_out_l voltage_in keypad protection output_mode output preset : Register
  current_range battery_mode voltage_battery probe_temperature_celsius_sign : Register
  probe_temperature_celsius_value probe_temperature_farhenheit_sign : Register
  probe_temperature_farhenheit_value ah_h ah_l wh_h wh_l subset_end year month day hour : Register
  minute second v_out_zero v_out_scale v_back_zero v_back_scale i_out_zero i_out_scale : Register
  i_back_zero i_back_scale take_ok take_out power_on_boot buzzer logo language brightness : Register
  m0_v m0_i m0_ovp m0_ocp m1_v m1_i m1_ovp m1_ocp m2_v m2_i m2_ovp m2_ocp m3_v m3_i m3_ovp :
      Register
  m3_ocp m4_v m4_i m4_ovp m4_ocp m5_v m5_i m5_ovp m5_ocp m6_v m6_i m6_ovp m6_ocp m7_v m7_i :
      Register
  m7_ovp m7_ocp m8_v m8_i m8_ovp m8_ocp m9_v m9_i m9_ovp m9_ocp system bootloader : Register

-- `operator+`: the address of a register.
abbrev pub offset : Register → ℕ
offset id = 0
offset serial_number_high = 1
offset serial_number_low = 2
offset firmware = 3
offset system_temperature_celsius_sign = 4
offset system_temperature_celsius_value = 5
offset system_temperature_farhenheit_sign = 6
offset system_temperature_farhenheit_value = 7
offset voltage_set = 8
offset current_set = 9
offset voltage_out = 10
offset current_out = 11
offset power_out_h = 12
offset power_out_l = 13
offset voltage_in = 14
offset keypad = 15
offset protection = 16
offset output_mode = 17
offset output = 18
offset preset = 19
offset current_range = 20
offset battery_mode = 32
offset voltage_battery = 33
offset probe_temperature_celsius_sign = 34
offset probe_temperature_celsius_value = 35
offset probe_temperature_farhenheit_sign = 36
offset probe_temperature_farhenheit_value = 37
offset ah_h = 38
offset ah_l = 39
offset wh_h = 40
offset wh_l = 41
offset subset_end = 42
offset year = 48
offset month = 49
offset day = 50
offset hour = 51
offset minute = 52
offset second = 53
offset v_out_zero = 55
offset v_out_scale = 56
offset v_back_zero = 57
offset v_back_scale = 58
offset i_out_zero = 59
offset i_out_scale = 60
offset i_back_zero = 61
offset i_back_scale = 62
offset take_ok = 66
offset take_out = 67
offset power_on_boot = 68
offset buzzer = 69
offset logo = 70
offset language = 71
offset brightness = 72
offset m0_v = 80
offset m0_i = 81
offset m0_ovp = 82
offset m0_ocp = 83
offset m1_v = 84
offset m1_i = 85
offset m1_ovp = 86
offset m1_ocp = 87
offset m2_v = 88
offset m2_i = 89
offset m2_ovp = 90
offset m2_ocp = 91
offset m3_v = 92
offset m3_i = 93
offset m3_ovp = 94
offset m3_ocp = 95
offset m4_v = 96
offset m4_i = 97
offset m4_ovp = 98
offset m4_ocp = 99
offset m5_v = 100
offset m5_i = 101
offset m5_ovp = 102
offset m5_ocp = 103
offset m6_v = 104
offset m6_i = 105
offset m6_ovp = 106
offset m6_ocp = 107
offset m7_v = 108
offset m7_i = 109
offset m7_ovp = 110
offset m7_ocp = 111
offset m8_v = 112
offset m8_i = 113
offset m8_ovp = 114
offset m8_ocp = 115
offset m9_v = 116
offset m9_i = 117
offset m9_ovp = 118
offset m9_ocp = 119
offset system = 256
offset bootloader = 5633
