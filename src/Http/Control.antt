-- ===== src/Http/Control.antt =====
-- The requests that read and drive the output: `handle_status_get`, `handle_set_i`, `handle_set_v` and
-- `handle_toggle_out`.
use riden_dongle.Base.{Bool, true, false, not, List, [], ◌∷◌, Option, none, some, if◌then◌else◌}
use riden_dongle.Modbus.Env.{Env}
use riden_dongle.Modbus.State.{RidenModbus, OutputMode, constant_voltage, constant_current, unknown}
use riden_dongle.Modbus.Begin.{is_connected}
use riden_dongle.Modbus.Readings.{set_current_set, set_voltage_set, get_output_on, set_output_on}
use riden_dongle.Modbus.AllValues.{AllValues, get_all_values}
use riden_dongle.Vxi.Net.{done, Act, ◌>>=◌}
use riden_dongle.Http.Output.{Text, lit, fixed, ◌+t◌, Sent, send, send_content}
use riden_dongle.Http.Board.{Platform, Board, Dongle, Request, modbus, call}
use riden_dongle.Http.Rows.{protection_to_string}

abbrev pub is_constant_voltage : OutputMode → Bool
is_constant_voltage constant_voltage = true
is_constant_voltage constant_current = false
is_constant_voltage unknown = false

abbrev pub true_false : {D : Type 0} → Bool → Text D
true_false b = lit (if b then "true" else "false")

abbrev pub or_false : Option Bool → Bool
or_false none = false
or_false (some on) = on

module _ ⦃E : Env⦄ where
  open E use {Double, literal, neg}

  -- The JSON text of the readings and of the limits of the driver.
  abbrev pub status_text : Platform Double → AllValues E → RidenModbus E → Text Double
  status_text P av driver =
      lit "{"
      +t (lit "\"out_on\": " +t true_false av.output_on)
      +t (lit ",\"set_v\": " +t fixed av.voltage_set 3)
      +t (lit ",\"set_c\": " +t fixed av.current_set 3)
      +t (lit ",\"out_v\": " +t fixed av.voltage_out 3)
      +t (lit ",\"out_c\": " +t fixed av.current_out 3)
      +t (lit ",\"batt_mode\": " +t true_false av.is_battery_mode)
      +t (lit ",\"cvmode\": " +t true_false (is_constant_voltage av.output_mode))
      +t (lit ",\"prot\": \"" +t protection_to_string av.protection +t lit "\"")
      +t (lit ",\"batt_v\": " +t fixed av.voltage_battery 3)
      +t (if P.less av.probe_temperature_celsius (neg (literal 50 0))
          then lit ",\"ext_t_c\": null"
          else lit ",\"ext_t_c\": " +t fixed av.probe_temperature_celsius 2)
      +t (lit ",\"int_t_c\": " +t fixed av.system_temperature_celsius 2)
      +t (lit ",\"ah\": " +t fixed av.ah 3)
      +t (lit ",\"wh\": " +t fixed av.wh 3)
      +t (lit ",\"max_v\": " +t fixed driver.v_max 3)
      +t (lit ",\"max_c\": " +t fixed driver.i_max 3)
      +t lit "}"

  module _ {B : Board E} where
    abbrev pub status_reply : Option (AllValues E) → Act (Dongle E B) (List (Sent Double))
    status_reply none s =
        done
          (send 500 "text/plain" (lit "Not connected to power supply") ∷ send_content (lit "") ∷ [])
          s
    status_reply (some av) s =
        done
          (send 200 "application/json" (status_text B.platform av (modbus s))
            ∷ send_content (lit "")
            ∷ [])
          s

    unfoldable pub handle_status_get : Act (Dongle E B) (List (Sent Double))
    handle_status_get s =
        if is_connected (modbus s)
        then (call (get_all_values true) >>= status_reply) s
        else status_reply none s

    abbrev pub set_reply : Option (Unit {0}) → Act (Dongle E B) (List (Sent Double))
    set_reply (some _) s = done (send 200 "text/plain" (lit "OK") ∷ []) s
    set_reply none s = done (send 500 "text/plain" (lit "Failed to set") ∷ []) s

    unfoldable pub handle_set_i : Request → Act (Dongle E B) (List (Sent Double))
    handle_set_i request s =
        let v = B.platform.strtod (request.arg "plain") in
        if is_connected (modbus s)
        then (call (set_current_set v) >>= set_reply) s
        else set_reply none s

    unfoldable pub handle_set_v : Request → Act (Dongle E B) (List (Sent Double))
    handle_set_v request s =
        let v = B.platform.strtod (request.arg "plain") in
        if is_connected (modbus s)
        then (call (set_voltage_set v) >>= set_reply) s
        else set_reply none s

    abbrev pub toggle_reply : Option (Unit {0}) → Act (Dongle E B) (List (Sent Double))
    toggle_reply (some _) s = handle_status_get s
    toggle_reply none s = done (send 500 "text/plain" (lit "Failed to toggle output") ∷ []) s

    abbrev pub toggle : Act (Dongle E B) (List (Sent Double))
    toggle = do
      on ← call get_output_on
      set ← call (set_output_on (not (or_false on)))
      toggle_reply set

    unfoldable pub handle_toggle_out : Act (Dongle E B) (List (Sent Double))
    handle_toggle_out s =
        if is_connected (modbus s)
        then toggle s
        else done (send 500 "text/plain" (lit "Not connected to power supply") ∷ []) s
