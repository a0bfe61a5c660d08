-- ===== src/Http/Routes.antt =====
-- `begin` of RidenHttpServer: which method handles which request. The library's server takes the first
-- route that fits, and the one for what is not found otherwise.
use riden_dongle.Base.{ℕ, Bool, true, false, ◌&&◌, String, List, [], ◌∷◌, if◌then◌else◌}
use text.Mathlib.Text.{◌==◌}
use riden_dongle.Modbus.Env.{Env}
use riden_dongle.Vxi.Net.{Act}
use riden_dongle.Http.Output.{Sent}
use riden_dongle.Http.Board.{Board, Dongle, Request}
use riden_dongle.Http.Root.{handle_root_get}
use riden_dongle.Http.Control.{handle_status_get, handle_set_i, handle_set_v, handle_toggle_out}
use riden_dongle.Http.Settings.{
  handle_config_get, handle_config_post, handle_disconnect_client_post, handle_reboot_dongle_get,
}
use riden_dongle.Http.Services.{
  handle_psu_get, handle_control_get, handle_not_found, finish_firmware_update_post,
  handle_modbus_qps, handle_lxi_identification,
}

pub data Method : Type 0 where
  http_get http_post : Method

pub data Handler : Type 0 where
  root_get psu_get config_get config_post control_get status_get set_i set_v toggle_out : Handler
  disconnect_client_post reboot_dongle_get firmware_update_post lxi_identification : Handler
  modbus_qps not_found : Handler

pub record Route : Type 0 where
  pub uri : String
  pub method : Method
  pub handler : Handler

abbrev route : String → Method → Handler → Route
route uri method handler = record { uri = uri; method = method; handler = handler }

-- `server.on` in the order of the calls.
abbrev pub routes : List Route
routes =
    route "/" http_get root_get
    ∷ route "/psu/" http_get psu_get
    ∷ route "/config/" http_get config_get
    ∷ route "/config/" http_post config_post
    ∷ route "/control/" http_get control_get
    ∷ route "/status" http_get status_get
    ∷ route "/set_i" http_post set_i
    ∷ route "/set_v" http_post set_v
    ∷ route "/toggle_out" http_get toggle_out
    ∷ route "/disconnect_client/" http_post disconnect_client_post
    ∷ route "/reboot/dongle/" http_get reboot_dongle_get
    ∷ route "/firmware/update/" http_post firmware_update_post
    ∷ route "/lxi/identification" http_get lxi_identification
    ∷ route "/qps/modbus/" http_get modbus_qps
    ∷ []

abbrev pub same_method : Method → Method → Bool
same_method http_get http_get = true
same_method http_get http_post = false
same_method http_post http_get = false
same_method http_post http_post = true

abbrev pub find_route : String → Method → List Route → Handler
find_route uri method [] = not_found
find_route uri method (r ∷ rs) =
    if r.uri == uri && same_method r.method method then r.handler else find_route uri method rs

module _ ⦃E : Env⦄ {B : Board E} where
  -- The method of each handler; `rounds` bounds the loop over the DNS servers.
  abbrev pub handle : ℕ → Handler → Request → Act (Dongle E B) (List (Sent E.Double))
  handle rounds root_get request = handle_root_get rounds
  handle rounds psu_get request = handle_psu_get
  handle rounds config_get request = handle_config_get
  handle rounds config_post request = handle_config_post request
  handle rounds control_get request = handle_control_get
  handle rounds status_get request = handle_status_get
  handle rounds set_i request = handle_set_i request
  handle rounds set_v request = handle_set_v request
  handle rounds toggle_out request = handle_toggle_out
  handle rounds disconnect_client_post request = handle_disconnect_client_post request
  handle rounds reboot_dongle_get request = handle_reboot_dongle_get request
  handle rounds firmware_update_post request = finish_firmware_update_post
  handle rounds lxi_identification request = handle_lxi_identification
  handle rounds modbus_qps request = handle_modbus_qps
  handle rounds not_found request = handle_not_found
