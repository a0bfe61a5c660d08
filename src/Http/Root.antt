-- ===== src/Http/Root.antt =====
-- The page of `handle_root_get`, and the strings that it shares with `handle_lxi_identification`.
use riden_dongle.Base.{
  ℕ, zero, suc, ◌+◌, ◌/◌, ◌%◌, ◌^◌, List, [], ◌∷◌, ◌++◌, Option, none, some, ltb, if◌then◌else◌,
}
use riden_dongle.Base.Text.{codes}
use riden_dongle.Modbus.Env.{Env}
use riden_dongle.Modbus.Begin.{is_connected, get_type}
use riden_dongle.Modbus.Readings.{get_firmware_version, get_serial_number}
use riden_dongle.Vxi.Net.{done, waiting, overrun, Act, ◌>>=◌, return}
use riden_dongle.Vxi.Server.{get_connected_clients as vxi_connected_clients}
use riden_dongle.Scpi.Server.{get_connected_clients as scpi_connected_clients}
use riden_dongle.ModbusBridge.Clients.{get_connected_clients as bridge_connected_clients}
use riden_dongle.Http.Output.{
  Text, lit, bytes, static, decimal, printed, ◌+t◌, html_no_connection_body, Sent, page,
}
use riden_dongle.Http.Board.{Platform, Board, Dongle, scpi, modbus, call}
use riden_dongle.Http.Rows.{send_info_row, send_client_row, box}
use riden_dongle.Http.Details.{printed_width}

abbrev pub scpi_protocol : List ℕ
scpi_protocol = codes "SCPI RAW"

abbrev pub modbustcp_protocol : List ℕ
modbustcp_protocol = codes "Modbus TCP"

abbrev pub vxi11_protocol : List ℕ
vxi11_protocol = codes "VXI-11"

abbrev pub build_row : {D : Type 0} → Option (List ℕ) → List (Text D)
build_row none = []
build_row (some build_time) = send_info_row "Build Time" (bytes build_time)

module _ {D : Type 0} (P : Platform D) where
  abbrev pub send_dongle_info : List (Text D)
  send_dongle_info =
      box "            <h2>Riden Dongle</h2>"
        (send_info_row "Version" (bytes P.version_string) ++ build_row P.build_time)

  -- The rows of the clients of one protocol.
  abbrev pub client_rows : List ℕ → List ℕ → List (Text D)
  client_rows protocol [] = []
  client_rows protocol (ip ∷ ips) =
      send_client_row (P.to_string ip) protocol ++ client_rows protocol ips

module _ ⦃E : Env⦄ {B : Board E} where
  open E use {Double}

  -- A local variable after a call that may not have set it.
  abbrev pub or_stack : Option ℕ → ℕ → Dongle E B → ℕ
  or_stack (some value) limit s = value
  or_stack none limit s = B.platform.stack s.platform % limit

  abbrev pub firmware_version_string : Act (Dongle E B) (Text Double)
  firmware_version_string = do
    reported ← call get_firmware_version
    (λ s.
        let firmware_version = or_stack reported (2 ^ 16) s in
        done (printed "%u.%u" (firmware_version / 100 ∷ firmware_version % 100 ∷ [])) s)

  -- `sprintf(serial_number_string, "%08u", serial_number)` into 10 bytes.
  abbrev pub print_serial_number : ℕ → Act (Dongle E B) (Text Double)
  print_serial_number serial_number s =
      if ltb (printed_width 8 serial_number) 10
      then done (printed "%08u" (serial_number ∷ [])) s
      else overrun

  abbrev pub serial_number_string : Act (Dongle E B) (Text Double)
  serial_number_string = do
    reported ← call get_serial_number
    (λ s. print_serial_number (or_stack reported (2 ^ 32) s) s)

  abbrev pub local_ip : Dongle E B → List ℕ
  local_ip s = B.platform.to_string (B.platform.local_ip s.platform)

  -- `get_visa_resource` of VXI_Server and of RidenScpi.
  abbrev pub vxi_visa_resource : Dongle E B → Text Double
  vxi_visa_resource s = lit "TCPIP::" +t bytes (local_ip s) +t lit "::INSTR"

  abbrev pub scpi_visa_resource : Dongle E B → Text Double
  scpi_visa_resource s =
      lit "TCPIP::"
      +t bytes (local_ip s)
      +t lit "::"
      +t decimal (B.platform.scpi_port s.platform)
      +t lit "::SOCKET"

  abbrev pub send_power_supply_info : Act (Dongle E B) (List (Text Double))
  send_power_supply_info s =
      let type = get_type (modbus s) in
      (do
        firmware ← firmware_version_string
        serial ← serial_number_string
        return (
            box "            <a style='float:right' href='/psu/'>Details</a><h2>Power Supply</h2>" (
              send_info_row "Model" (lit type)
              ++ (send_info_row "Firmware" firmware ++ send_info_row "Serial Number" serial))))
        s

  -- The loop over `WiFi.dnsIP(i)` until one is not set; it is still in the loop after `rounds` of them.
  abbrev pub dns_row :
      Option ℕ → Act (Dongle E B) (List (Text Double)) → Act (Dongle E B) (List (Text Double))
  dns_row none more = return []
  dns_row (some ip) more = do
    rest ← more
    return (send_info_row "DNS" (bytes (B.platform.to_string ip)) ++ rest)

  abbrev pub dns_rows : ℕ → ℕ → Act (Dongle E B) (List (Text Double))
  dns_rows zero i s = dns_row (B.platform.dns_ip i s.platform) (λ t. waiting) s
  dns_rows (suc rounds) i s = dns_row (B.platform.dns_ip i s.platform) (dns_rows rounds (i + 1)) s

  abbrev pub network_rows : Dongle E B → List (Text Double)
  network_rows s =
      let w = s.platform in
      send_info_row "Hostname" (bytes (B.platform.hostname w))
      ++ (send_info_row "MDNS" (bytes (B.platform.hostname w) +t lit ".local")
          ++ (send_info_row "WiFi network" (bytes (B.platform.ssid w))
              ++ (send_info_row "IP" (bytes (local_ip s))
                  ++ (send_info_row "Subnet"
                        (bytes (B.platform.to_string (B.platform.subnet_mask w)))
                      ++ send_info_row "Default Gateway"
                          (bytes (B.platform.to_string (B.platform.gateway_ip w)))))))

  abbrev pub send_network_info : ℕ → Act (Dongle E B) (List (Text Double))
  send_network_info rounds s =
      (do
        dns ← dns_rows rounds 0
        return (box "            <h2>Network Configuration</h2>" (network_rows s ++ dns)))
        s

  abbrev pub send_services : Dongle E B → List (Text Double)
  send_services s = box "            <h2>Network Services</h2>" (
      send_info_row "Web Server Port" (decimal 80)
      ++ (send_info_row "Modbus TCP Port" (decimal B.platform.modbustcp_port)
          ++ (send_info_row "VXI-11 Port" (decimal s.vxi_server.vxi_port.m_data)
              ++ (send_info_row "SCPI RAW Port" (decimal (B.platform.scpi_port s.platform))
                  ++ (send_info_row "VISA Resource Address VXI-11" (vxi_visa_resource s)
                      ++ send_info_row "VISA Resource Address RAW" (scpi_visa_resource s))))))

  abbrev pub all_client_rows : Dongle E B → List (Text Double)
  all_client_rows s =
      client_rows B.platform vxi11_protocol (vxi_connected_clients s.vxi_server)
      ++ (client_rows B.platform scpi_protocol (scpi_connected_clients (scpi s))
          ++ client_rows B.platform modbustcp_protocol (bridge_connected_clients s.modbus_tcp))

  abbrev pub send_connected_clients : Dongle E B → List (Text Double)
  send_connected_clients s =
      lit "        <div class='box'>"
      ∷ lit "            <h2>Connected Clients</h2>"
      ∷ lit "            <table class='clients'>"
      ∷ lit "                <thead><tr>"
      ∷ lit "                <th>IP address</th>"
      ∷ lit "                <th>Protocol</th>"
      ∷ lit "                <th></th>"
      ∷ lit "                </tr></thead>"
      ∷ lit "                <tbody>"
      ∷ (all_client_rows s
          ++ (lit "                </tbody>"
              ∷ lit "            </table>"
              ∷ lit "        </div>"
              ∷ []))

  abbrev pub root_body : ℕ → Act (Dongle E B) (List (Text Double))
  root_body rounds = do
    supply ← send_power_supply_info
    network ← send_network_info rounds
    (λ s.
        done
          (send_dongle_info B.platform
            ++ (supply ++ (network ++ (send_services s ++ send_connected_clients s))))
          s)

  unfoldable pub handle_root_get : ℕ → Act (Dongle E B) (List (Sent Double))
  handle_root_get rounds s =
      if is_connected (modbus s)
      then (root_body rounds >>= λ body. return (page body)) s
      else done (page (static html_no_connection_body ∷ [])) s
