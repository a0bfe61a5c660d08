-- ===== src/Http/Board.antt =====
-- The dongle as the web server sees it: its components, the platform around them, and a request.
use riden_dongle.Base.{ℕ, Bool, String, List, Option, none, some}
use riden_dongle.Modbus.Env.{Env}
use riden_dongle.Modbus.State.{RidenModbus, Outcome, ok, fail, hung, M}
use riden_dongle.Vxi.Net.{Net, Run, done, waiting, Act}
use riden_dongle.Vxi.Server.{VxiServer}
use riden_dongle.Scpi.Server.{Socket, RidenScpi}
use riden_dongle.Scpi.Bridge.{scpi_handler}
use riden_dongle.ModbusBridge.Clients.{TcpLibrary, RidenModbusTcp}
use riden_dongle.Config.{Eeprom, RidenConfig}
use riden_dongle.Http.Output.{Text}

-- The ESP8266 libraries and the C library. `World` is the Wi-Fi module, the updater and the reset.
pub record Platform (D : Type 0) : Type 1 where
  pub World : Type 0
  pub less : D → D → Bool
  pub strtod : List ℕ → D
  pub strtoull : List ℕ → ℕ
  -- `ip.fromString` and `ip.toString`.
  pub from_string : List ℕ → Option ℕ
  pub to_string : ℕ → List ℕ
  pub hostname : World → List ℕ
  pub ssid : World → List ℕ
  pub mac_address : World → List ℕ
  pub local_ip : World → ℕ
  pub subnet_mask : World → ℕ
  pub gateway_ip : World → ℕ
  -- `dnsIP(i)`, where it is set.
  pub dns_ip : ℕ → World → Option ℕ
  pub version_string : List ℕ
  pub build_time : Option (List ℕ)
  -- The lines that the template engine makes of LXI_IDENTIFICATION_TEMPLATE and the values.
  pub render : List (Text D) → List (Text D)
  -- `tcpServer.port()` of RidenScpi, and MODBUSTCP_PORT.
  pub scpi_port : World → ℕ
  pub modbustcp_port : ℕ
  -- What an uninitialised local variable holds.
  pub stack : World → ℕ
  pub delay : ℕ → World → World
  pub reset : World → World
  pub restart : World → World
  pub stop_client : World → World
  pub yield : World → World
  -- WiFiUDP, ESP and Update.
  pub stop_all : World → World
  pub free_sketch_space : World → ℕ
  pub update_begin : ℕ → World → Bool × World
  pub update_write : List ℕ → World → ℕ × World
  pub update_end : Bool → World → World
  pub update_has_error : World → Bool
  pub update_error : World → List ℕ

-- The libraries that the components stand on, and the parser's context and input function.
pub record Board (E : Env) : Type 1 where
  pub net : Net
  pub socket : Socket
  pub Context : Type 0
  pub scpi_input :
      RidenScpi socket (RidenModbus E × Context) → RidenScpi socket (RidenModbus E × Context)
  pub tcp : TcpLibrary
  pub eeprom : Eeprom
  pub platform : Platform E.Double

-- The power supply's driver is in the device of RidenScpi, and RidenScpi in the VXI-11 server, as the
-- objects refer to one another. `modbus_tcp` is the member of RidenModbusBridge.
pub record Dongle (E : Env) (B : Board E) : Type 0 where
  pub vxi_server : VxiServer B.net (scpi_handler B.socket (RidenModbus E × B.Context) B.scpi_input)
  pub modbus_tcp : RidenModbusTcp B.tcp
  pub config : RidenConfig B.eeprom
  pub platform : B.platform.World

-- `server.arg(name)`, `server.uri()`.
pub record Request : Type 0 where
  pub arg : String → List ℕ
  pub uri : List ℕ

module _ {E : Env} {B : Board E} where
  abbrev pub scpi : Dongle E B → RidenScpi B.socket (RidenModbus E × B.Context)
  scpi s = s.vxi_server.scpi

  abbrev pub with_scpi : RidenScpi B.socket (RidenModbus E × B.Context) → Dongle E B → Dongle E B
  with_scpi t s = record s { vxi_server = record s.vxi_server { scpi = t } }

  abbrev pub modbus : Dongle E B → RidenModbus E
  modbus s = s.vxi_server.scpi.device.0

  abbrev pub with_modbus : RidenModbus E → Dongle E B → Dongle E B
  with_modbus t s =
      with_scpi (record s.vxi_server.scpi { device = (t, s.vxi_server.scpi.device.1) }) s

  -- A call of the driver, with what it reports where it returns true.
  abbrev pub called {ℓ} :
      {A : Type ℓ} → Dongle E B → Outcome (RidenModbus E) A → Run (Dongle E B) (Option A)
  called s (ok a t) = done (some a) (with_modbus t s)
  called s (fail t) = done none (with_modbus t s)
  called s hung = waiting

  abbrev pub call {ℓ} : {A : Type ℓ} → M E A → Act (Dongle E B) (Option A)
  call m s = called s (m (modbus s))

  abbrev pub on_platform : (B.platform.World → B.platform.World) → Dongle E B → Dongle E B
  on_platform f s = record s { platform = f s.platform }
