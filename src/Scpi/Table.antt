-- ===== src/Scpi/Table.antt =====
-- The table of commands of src/riden_scpi/riden_scpi.cpp: which handler runs for which pattern.
pub mod Untouched
pub mod ReadOnly
use riden_dongle.Base.{ℕ, Bool, false, String, List, [], ◌∷◌, ◌==◌}
use riden_dongle.Base.Text.{codes}
use riden_dongle.Modbus.Env.{Env}
use riden_dongle.Scpi.Parser.{Parser, Command}
use riden_dongle.Scpi.Commands.{
  display_brightness, display_brightness_q, display_language, display_language_q, measure_current_q,
  measure_power_q, measure_temperature_q, measure_voltage_q, output_mode_q, output_state,
  output_state_q, rcl, source_current, source_current_limit, source_current_protection_tripped_q,
  source_current_q, source_voltage, source_voltage_limit, source_voltage_protection_tripped_q,
  source_voltage_q, system_beeper_state, system_beeper_state_q, system_date, system_date_q,
  system_time, system_time_q,
}

-- The handlers of the parser's library, by their names.
pub data Core : Type 0 where
  core_cls core_ese core_ese_q core_esr_q core_idn_q core_opc core_opc_q core_rst core_sre
        core_sre_q core_stb_q core_tst_q core_wai system_error_next_q system_error_count_q
        system_version_q status_operation_event_q status_operation_condition_q
        status_operation_enable status_operation_enable_q status_questionable_event_q
        status_questionable_condition_q status_questionable_enable status_questionable_enable_q
        status_preset :
      Core

-- `scpi_command_t`: a pattern with a handler of the library or of RidenScpi.
pub data ScpiCommand {E : Env} (P : Parser E) : Type 0 where
  core : String → Core → ScpiCommand P
  own : String → Command E P → ScpiCommand P

module _ ⦃E : Env⦄ (P : Parser E) where
  abbrev pub scpi_commands : List (ScpiCommand P)
  scpi_commands =
      core "*CLS" core_cls
      ∷ core "*ESE" core_ese
      ∷ core "*ESE?" core_ese_q
      ∷ core "*ESR?" core_esr_q
      ∷ core "*IDN?" core_idn_q
      ∷ core "*OPC" core_opc
      ∷ core "*OPC?" core_opc_q
      ∷ core "*RST" core_rst
      ∷ core "*SRE" core_sre
      ∷ core "*SRE?" core_sre_q
      ∷ core "*STB?" core_stb_q
      ∷ core "*TST?" core_tst_q
      ∷ core "*WAI" core_wai
      ∷ core "SYSTem:ERRor[:NEXT]?" system_error_next_q
      ∷ core "SYSTem:ERRor:COUNt?" system_error_count_q
      ∷ core "SYSTem:VERSion?" system_version_q
      ∷ core "STATus:OPERation?" status_operation_event_q
      ∷ core "STATus:OPERation:EVENt?" status_operation_event_q
      ∷ core "STATus:OPERation:CONDition?" status_operation_condition_q
      ∷ core "STATus:OPERation:ENABle" status_operation_enable
      ∷ core "STATus:OPERation:ENABle?" status_operation_enable_q
      ∷ core "STATus:QUEStionable[:EVENt]?" status_questionable_event_q
      ∷ core "STATus:QUEStionable:CONDition?" status_questionable_condition_q
      ∷ core "STATus:QUEStionable:ENABle" status_questionable_enable
      ∷ core "STATus:QUEStionable:ENABle?" status_questionable_enable_q
      ∷ core "STATus:PRESet" status_preset
      ∷ own "*RCL" (rcl P)
      ∷ own "DISPlay:BRIGhtness" (display_brightness P)
      ∷ own "DISPlay:BRIGhtness?" (display_brightness_q P)
      ∷ own "DISPlay:LANGuage" (display_language P)
      ∷ own "DISPlay:LANGuage?" (display_language_q P)
      ∷ own "SYSTem:DATE" (system_date P)
      ∷ own "SYSTem:DATE?" (system_date_q P)
      ∷ own "SYSTem:TIME" (system_time P)
      ∷ own "SYSTem:TIME?" (system_time_q P)
      ∷ own "OUTPut[:STATe]" (output_state P)
      ∷ own "OUTPut[:STATe]?" (output_state_q P)
      ∷ own "OUTPut:MODE?" (output_mode_q P)
      ∷ own "[SOURce]:VOLTage[:LEVel][:IMMediate][:AMPLitude]" (source_voltage P)
      ∷ own "[SOURce]:VOLTage[:LEVel][:IMMediate][:AMPLitude]?" (source_voltage_q P)
      ∷ own "[SOURce]:VOLTage:PROTection:TRIPped?" (source_voltage_protection_tripped_q P)
      ∷ own "[SOURce]:CURRent[:LEVel][:IMMediate][:AMPLitude]" (source_current P)
      ∷ own "[SOURce]:CURRent[:LEVel][:IMMediate][:AMPLitude]?" (source_current_q P)
      ∷ own "[SOURce]:CURRent:PROTection:TRIPped?" (source_current_protection_tripped_q P)
      ∷ own "MEASure[:SCALar]:VOLTage[:DC]?" (measure_voltage_q P)
      ∷ own "MEASure[:SCALar]:CURRent[:DC]?" (measure_current_q P)
      ∷ own "MEASure[:SCALar]:POWer[:DC]?" (measure_power_q P)
      ∷ own "MEASure[:SCALar]:TEMPerature[:THERmistor][:DC]?" (measure_temperature_q P)
      ∷ own "[SOURce]:VOLTage:LIMit" (source_voltage_limit P)
      ∷ own "[SOURce]:CURRent:LIMit" (source_current_limit P)
      ∷ own "SYSTem:BEEPer:STATe" (system_beeper_state P)
      ∷ own "SYSTem:BEEPer:STATe?" (system_beeper_state_q P)
      ∷ []

-- The last character of a pattern is `?`.
abbrev pub ends_in : List ℕ → ℕ → Bool
ends_in [] c = false
ends_in (d ∷ []) c = d == c
ends_in (d ∷ e ∷ ds) c = ends_in (e ∷ ds) c

abbrev pub is_query : String → Bool
is_query pattern = ends_in (codes pattern) b'?'
