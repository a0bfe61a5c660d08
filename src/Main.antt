-- ===== src/Main.antt =====
-- The main program, src/main.cpp: its static objects and flags, and `loop`.
pub mod Flags
pub mod Wifi
pub mod Network
pub mod Setup
pub mod Offline
pub mod Boot
pub mod Tests
pub mod Clock
use riden_dongle.Base.{ℕ, Bool, true, false, not, ◌&&◌, String, List, [], Option, if◌then◌else◌}
use riden_dongle.Modbus.Env.{Env}
use riden_dongle.Modbus.State.{RidenModbus}
use riden_dongle.Modbus.Values.{Tm}
use riden_dongle.Modbus.Settings.{set_clock}
use riden_dongle.Modbus.Begin.{loop as modbus_loop}
use riden_dongle.Vxi.Net.{Run, done, waiting, overrun, Act, ◌>>=◌, ◌>>◌, modify, return}
use riden_dongle.Vxi.Bind.{Udp, BindServer, loop as bind_loop}
use riden_dongle.Vxi.Server.{loop as vxi_loop}
use riden_dongle.Scpi.Server.{loop as scpi_loop}
use riden_dongle.Scpi.Start.{Identity, Libraries}
use riden_dongle.Http.Output.{Text, Sent}
use riden_dongle.Http.Board.{Board, Dongle, Request, with_scpi, call, on_platform}
use riden_dongle.Http.Services.{Upload, handle_firmware_update_post}
use riden_dongle.Http.Routes.{Handler, handle}

-- What the main program uses besides. `task` is `modbus_tcp.task()`, the whole of `modbus_bridge.loop`,
-- with the callbacks that it makes; `local_time` is `time` and `localtime_r`.
pub record Machine (E : Env) (B : Board E) : Type 1 where
  pub udp : Udp
  -- What RidenScpi starts, and the start of the bridge and of the library's web server.
  pub libraries : Libraries B.socket (RidenModbus E × B.Context)
  pub bridge_begin : Act (Dongle E B) (Unit {0})
  pub http_begin : B.platform.World → B.platform.World
  -- `delay`, as the driver and its clock see it.
  pub pause : ℕ → E.World → E.World
  pub task : Act (Dongle E B) (Unit {0})
  pub local_time : B.platform.World → Tm
  pub mdns_update : B.platform.World → B.platform.World
  pub ota_handle : B.platform.World → B.platform.World
  -- `WiFiManager`, for a host name or a null pointer, with the callback that it makes.
  pub start_config_portal : Option (Text E.Double) → B.platform.World → Bool × B.platform.World
  pub auto_connect : Option (Text E.Double) → B.platform.World → Bool × B.platform.World
  pub mdns_begin : Text E.Double → B.platform.World → Bool × B.platform.World
  -- `configTime` of NTP_SERVER, with `on_time_received` as its callback.
  pub config_time : String → B.platform.World → B.platform.World
  -- The interval to keep alive, and ArduinoOTA with its services.
  pub keep_alive : B.platform.World → B.platform.World
  pub ota_begin : Option (Text E.Double) → B.platform.World → B.platform.World

pub record Station (E : Env) (B : Board E) (M : Machine E B) : Type 0 where
  pub dongle : Dongle E B
  pub identity : Identity
  pub rpc_bind_server : BindServer B.net M.udp
  pub has_time : Bool
  pub did_update_time : Bool
  pub connected : Bool

-- What the library's web server has for the handlers in one turn.
pub data Arrival : Type 0 where
  nothing : Arrival
  request : Handler → Request → Arrival
  upload : Upload → Arrival

module _ ⦃E : Env⦄ {B : Board E} where
  -- `http_server.loop()`, with the calls that a handler makes.
  abbrev pub handle_client : ℕ → Arrival → Act (Dongle E B) (List (Sent E.Double))
  handle_client rounds nothing s = done [] s
  handle_client rounds (request h r) s = handle rounds h r s
  handle_client rounds (upload u) s = done [] (handle_firmware_update_post u s)

  abbrev pub serve_scpi : Act (Dongle E B) (Unit {0})
  serve_scpi s = elim (scpi_loop (λ t. done tt (B.scpi_input t)) s.vxi_server.scpi) [
    | done a t ↦ done a (with_scpi t s)
    | waiting ↦ waiting
    | overrun ↦ overrun
  ]

  abbrev pub serve_vxi : ℕ → Act (Dongle E B) (Unit {0})
  serve_vxi polls s = elim (vxi_loop polls s.vxi_server) [
    | done a t ↦ done a (record s { vxi_server = t })
    | waiting ↦ waiting
    | overrun ↦ overrun
  ]

  module _ {M : Machine E B} where
    abbrev pub on_dongle {ℓ} : {A : Type ℓ} → Act (Dongle E B) A → Act (Station E B M) A
    on_dongle m s = elim (m s.dongle) [
      | done a t ↦ done a (record s { dongle = t })
      | waiting ↦ waiting
      | overrun ↦ overrun
    ]

    abbrev pub serve_bind : ℕ → Act (Station E B M) (Unit {0})
    serve_bind polls s = elim (bind_loop polls s.dongle.vxi_server s.rpc_bind_server) [
      | done a t ↦ done a (record s { rpc_bind_server = t })
      | waiting ↦ waiting
      | overrun ↦ overrun
    ]

    abbrev pub on_machine : (B.platform.World → B.platform.World) → Act (Station E B M) (Unit {0})
    on_machine f s = done tt (record s { dongle = on_platform f s.dongle })

    -- `Setting PSU clock`; whether the driver has set it is not looked at.
    abbrev pub set_psu_clock : Act (Station E B M) (Unit {0})
    set_psu_clock s =
        (on_dongle (call (set_clock (M.local_time s.dongle.platform))) >>= λ result.
        modify (λ t. record t { did_update_time = true }))
          s

    unfoldable pub update_time : Act (Station E B M) (Unit {0})
    update_time s = if s.has_time && not s.did_update_time then set_psu_clock s else done tt s

    -- What `loop` does where the power supply is connected.
    abbrev pub serve : ℕ → Act (Station E B M) (Unit {0})
    serve polls = do
      update_time
      on_machine M.mdns_update
      on_dongle (call modbus_loop)
      on_dongle serve_scpi
      on_dongle M.task
      serve_bind polls
      on_dongle (serve_vxi polls)

    abbrev pub serve_if : ℕ → Act (Station E B M) (Unit {0})
    serve_if polls s = if s.connected then serve polls s else done tt s

    -- `polls` bounds the waits for a writable client, `rounds` the loop over the DNS servers.
    unfoldable pub loop : ℕ → ℕ → Arrival → Act (Station E B M) (List (Sent E.Double))
    loop polls rounds arrival = do
      serve_if polls
      sent ← on_dongle (handle_client rounds arrival)
      on_machine M.ota_handle
      return sent

    -- Called once the time has been received.
    abbrev pub on_time_received : Station E B M → Station E B M
    on_time_received s = record s { has_time = true }
