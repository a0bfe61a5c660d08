-- ===== src/Main/Setup.antt =====
-- `setup` of src/main.cpp: the settings, the power supply, the network and the servers.
use riden_dongle.Base.{
  ℕ, zero, suc, ◌+◌, ◌-◌, ◌%◌, ◌^◌, Bool, true, false, String, [], ◌∷◌, Option, none, some, length,
  leb, if◌then◌else◌,
}
use riden_dongle.Base.Text.{codes}
use riden_dongle.Modbus.Env.{Env}
use riden_dongle.Modbus.Begin.{begin as modbus_begin, is_connected, get_type}
use riden_dongle.Modbus.Readings.{get_serial_number}
use riden_dongle.Vxi.Net.{done, waiting, overrun, Act, ◌>>=◌, ◌>>◌, modify}
use riden_dongle.Vxi.Bind.{begin as bind_begin}
use riden_dongle.Vxi.Server.{begin as vxi_begin}
use riden_dongle.Scpi.Start.{begin as scpi_begin}
use riden_dongle.Config.{begin as config_begin}
use riden_dongle.Http.Output.{Text, lit, printed, ◌+t◌}
use riden_dongle.Http.Board.{Board, Dongle, modbus, with_modbus, with_scpi, call, on_platform}
use riden_dongle.Http.Details.{printed_width}
use riden_dongle.Http.Root.{or_stack}
use riden_dongle.Http.Settings.{on_config}
use riden_dongle.Main.{Machine, Station, on_dongle, on_machine}
use riden_dongle.Main.Wifi.{connect_wifi}

module _ ⦃E : Env⦄ {B : Board E} (M : Machine E B) where
  open E use {Double, millis}

  abbrev pub paused : ℕ → Dongle E B → Dongle E B
  paused ms s = with_modbus (record (modbus s) { bus = M.pause ms (modbus s).bus }) s

  -- After an attempt: whether it is the last one.
  abbrev pub retry :
      Act (Dongle E B) (Unit {0}) → ℕ → Option (Unit {0}) → Act (Dongle E B) (Unit {0})
  retry again start (some _) s = done tt s
  retry again start none s =
      let rest = again (paused 100 s) in
      if leb 5000 ((millis (modbus s).bus + 2 ^ 32 - start) % 2 ^ 32) then done tt s else rest

  -- `while (!riden_modbus.begin())`, with at most so many attempts.
  unfoldable pub wait_for_supply : ℕ → ℕ → Act (Dongle E B) (Unit {0})
  wait_for_supply zero start s = waiting
  wait_for_supply (suc attempts) start s =
      (call (modbus_begin s.config.uart_baudrate) >>= retry (wait_for_supply attempts start) start)
        s

  -- `sprintf(hostname, "%s-%08u", ...)` into 100 bytes.
  abbrev pub print_hostname : String → ℕ → Act (Dongle E B) (Text Double)
  print_hostname type serial_number s =
      if leb (length (codes type) + 1 + printed_width 8 serial_number) 99
      then done (lit type +t lit "-" +t printed "%08u" (serial_number ∷ [])) s
      else overrun

  abbrev pub hostname : Act (Dongle E B) (Text Double)
  hostname = do
    reported ← call get_serial_number
    (λ s. print_hostname (get_type (modbus s)) (or_stack reported (2 ^ 32) s) s)

  -- Without a network the module is reset.
  abbrev pub reset_unless : Bool → Act (Dongle E B) (Unit {0})
  reset_unless true s = done tt s
  reset_unless false s = done tt (on_platform (λ w. B.platform.delay 1000 (B.platform.reset w)) s)

  abbrev pub start_scpi : Act (Station E B M) Bool
  start_scpi s = elim (scpi_begin M.libraries (s.identity, s.dongle.vxi_server.scpi)) [
    | done a (i, t) ↦ done a (record s { identity = i; dongle = with_scpi t s.dongle })
    | waiting ↦ waiting
    | overrun ↦ overrun
  ]

  abbrev pub start_vxi : Dongle E B → Dongle E B
  start_vxi s = record s { vxi_server = vxi_begin s.vxi_server }

  abbrev pub start_servers : Act (Station E B M) (Unit {0})
  start_servers = do
    start_scpi
    on_dongle M.bridge_begin
    modify (λ s. record s {
      dongle = start_vxi s.dongle;
      rpc_bind_server = bind_begin s.rpc_bind_server;
      connected = true;
    })

  -- With a power supply, and without one.
  abbrev pub online : Act (Station E B M) (Unit {0})
  online = do
    name ← on_dongle hostname
    joined ← on_dongle (connect_wifi M (some name))
    on_dongle (reset_unless joined)
    start_servers

  abbrev pub offline : Act (Station E B M) (Unit {0})
  offline = do
    joined ← on_dongle (connect_wifi M none)
    on_dongle (reset_unless joined)
    modify (λ s. record s { connected = false })

  abbrev pub find_supply : ℕ → Act (Dongle E B) (Unit {0})
  find_supply attempts s = wait_for_supply attempts (millis (modbus s).bus) s

  abbrev pub start_network : Act (Station E B M) (Unit {0})
  start_network s = if is_connected (modbus s.dongle) then online s else offline s

  unfoldable pub setup : ℕ → Act (Station E B M) (Unit {0})
  setup attempts = do
    on_dongle (on_config config_begin)
    on_dongle (find_supply attempts)
    start_network
    on_machine M.http_begin
