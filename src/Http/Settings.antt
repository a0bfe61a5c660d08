-- ===== src/Http/Settings.antt =====
-- The requests that change the dongle: `handle_config_get` and `handle_config_post`,
-- `handle_disconnect_client_post` and `handle_reboot_dongle_get`.
use riden_dongle.Base.{
  ℕ, ◌%◌, ◌^◌, Bool, List, [], ◌∷◌, ◌++◌, Option, none, some, take, ◌==◌, if◌then◌else◌,
}
use riden_dongle.Base.Text.{codes, same}
use riden_dongle.Modbus.Env.{Env}
use riden_dongle.Vxi.Net.{done, waiting, overrun, Act, ◌>>=◌, return}
use riden_dongle.Vxi.Server.{disconnect_client as vxi_disconnect_client}
use riden_dongle.Scpi.Server.{disconnect_client as scpi_disconnect_client}
use riden_dongle.ModbusBridge.Clients.{
  RidenModbusTcp, disconnect_client as bridge_disconnect_client,
}
use riden_dongle.Config.{
  Eeprom, RidenConfig, commit, set_timezone_name, set_uart_baudrate, set_config_portal_on_boot,
}
use riden_dongle.Config.Timezones.{timezones, get_number_of_timezones}
use riden_dongle.Config.Timezones.Zone.{Timezone}
use riden_dongle.Http.Output.{
  Text, lit, bytes, static, decimal, ◌+t◌, html_config_body_1, html_config_body_2,
  html_config_body_3, html_rebooting_dongle_body, html_rebooting_dongle_config_portal_body_1,
  html_rebooting_dongle_config_portal_body_2, Sent, send, send_content, content_length_unknown,
  contents, page,
}
use riden_dongle.Http.Board.{Platform, Board, Dongle, Request, scpi, with_scpi, on_platform}
use riden_dongle.Http.Root.{scpi_protocol, modbustcp_protocol, vxi11_protocol}

abbrev pub uart_baudrates : List ℕ
uart_baudrates =
    9600 ∷ 19200 ∷ 38400 ∷ 57600 ∷ 115200 ∷ 230400 ∷ 250000 ∷ 460800 ∷ 921600 ∷ 1000000 ∷ []

module _ {D : Type 0} where
  abbrev pub option_row : Bool → Text D → Text D
  option_row selected value =
      if selected
      then lit "<option value='" +t value +t lit "' selected>" +t value +t lit "</option>"
      else lit "<option value='" +t value +t lit "'>" +t value +t lit "</option>"

  -- The two loops of `handle_config_get`.
  abbrev pub timezone_options : List ℕ → List Timezone → List (Text D)
  timezone_options configured [] = []
  timezone_options configured (z ∷ zs) =
      option_row (same (codes z.name) configured) (lit z.name) ∷ timezone_options configured zs

  abbrev pub baudrate_options : ℕ → List ℕ → List (Text D)
  baudrate_options configured [] = []
  baudrate_options configured (option ∷ options) =
      option_row (option == configured) (decimal option) ∷ baudrate_options configured options

  abbrev pub send_redirect_root : List (Sent D)
  send_redirect_root =
      content_length_unknown
      ∷ send 200 "text/html"
          (lit "<html><body><script>window.location = '/';</script></body></html>")
      ∷ send_content (lit "")
      ∷ []

  abbrev pub send_redirect_self : List ℕ → List (Sent D)
  send_redirect_self uri =
      content_length_unknown
      ∷ send 200 "text/html" (lit "<html>")
      ∷ contents (
          lit "<body>"
          ∷ lit "<script>"
          ∷ lit "  location.replace('"
          ∷ bytes uri
          ∷ lit "');"
          ∷ lit "</script>"
          ∷ lit "</body>"
          ∷ lit "</html>"
          ∷ lit ""
          ∷ [])

-- The configuration with the two settings of a request.
abbrev pub posted : {D : Type 0} {P : Eeprom} → Platform D → Request → RidenConfig P → RidenConfig P
posted platform request c =
    set_uart_baudrate (platform.strtoull (request.arg "uart_baudrate") % 2 ^ 32)
      (set_timezone_name (request.arg "timezone") c)

module _ ⦃E : Env⦄ {B : Board E} where
  open E use {Double}

  abbrev pub config_body : Dongle E B → List (Text Double)
  config_body s =
      static html_config_body_1
      ∷ (timezone_options s.config.tz_name (take get_number_of_timezones timezones)
          ++ (static html_config_body_2
              ∷ (baudrate_options s.config.uart_baudrate uart_baudrates
                  ++ (static html_config_body_3 ∷ []))))

  unfoldable pub handle_config_get : Act (Dongle E B) (List (Sent Double))
  handle_config_get s = done (page (config_body s)) s

  -- A call of the configuration.
  abbrev pub on_config {ℓ} : {A : Type ℓ} → Act (RidenConfig B.eeprom) A → Act (Dongle E B) A
  on_config m s = elim (m s.config) [
    | done a c ↦ done a (record s { config = c })
    | waiting ↦ waiting
    | overrun ↦ overrun
  ]

  abbrev pub on_modbus_tcp {ℓ} : {A : Type ℓ} → Act (RidenModbusTcp B.tcp) A → Act (Dongle E B) A
  on_modbus_tcp m s = elim (m s.modbus_tcp) [
    | done a c ↦ done a (record s { modbus_tcp = c })
    | waiting ↦ waiting
    | overrun ↦ overrun
  ]

  unfoldable pub handle_config_post : Request → Act (Dongle E B) (List (Sent Double))
  handle_config_post request s =
      (on_config commit >>= λ success. return (send_redirect_self request.uri))
        (record s { config = posted B.platform request s.config })

  -- Which server `disconnect_client` goes to, by the protocol.
  abbrev pub disconnect : ℕ → List ℕ → Act (Dongle E B) (Unit {0})
  disconnect ip protocol s =
      if same protocol scpi_protocol
      then done tt (with_scpi (scpi_disconnect_client ip (scpi s)) s)
      else if same protocol modbustcp_protocol
      then on_modbus_tcp (bridge_disconnect_client ip) s
      else if same protocol vxi11_protocol
      then done tt (record s { vxi_server = vxi_disconnect_client ip s.vxi_server })
      else done tt s

  abbrev pub disconnect_if : Option ℕ → List ℕ → Act (Dongle E B) (Unit {0})
  disconnect_if none protocol s = done tt s
  disconnect_if (some ip) protocol s = disconnect ip protocol s

  unfoldable pub handle_disconnect_client_post : Request → Act (Dongle E B) (List (Sent Double))
  handle_disconnect_client_post request =
      disconnect_if (B.platform.from_string (request.arg "ip")) (request.arg "protocol") >>= λ _.
      return send_redirect_root

  -- The body of the page for a portal that is asked for, and for none.
  abbrev pub portal_body : Dongle E B → List (Text Double)
  portal_body s =
      static html_rebooting_dongle_config_portal_body_1
      ∷ bytes (B.platform.hostname s.platform)
      ∷ static html_rebooting_dongle_config_portal_body_2
      ∷ []

  abbrev pub rebooted : Dongle E B → Dongle E B
  rebooted s =
      on_platform (λ w. B.platform.delay 1000 (B.platform.reset (B.platform.delay 500 w))) s

  abbrev pub reboot_to_portal : Act (Dongle E B) (List (Sent Double))
  reboot_to_portal s =
      (on_config commit >>= λ success. λ t. done (page (portal_body t)) (rebooted t))
        (record s { config = set_config_portal_on_boot s.config })

  unfoldable pub handle_reboot_dongle_get : Request → Act (Dongle E B) (List (Sent Double))
  handle_reboot_dongle_get request s =
      if same (request.arg "config_portal") (codes "true")
      then reboot_to_portal s
      else done (page (static html_rebooting_dongle_body ∷ [])) (rebooted s)
