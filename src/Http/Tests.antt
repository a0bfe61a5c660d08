-- ===== src/Http/Tests.antt =====
-- A dongle on libraries that note what they are told, with a power supply whose registers are plain.
use riden_dongle.Base.{
  ℕ, ◌≡◌, refl, if◌then◌else◌, Bool, true, false, List, [], ◌∷◌, none, some, arith,
}
use riden_dongle.Base.Text.{codes}
use text.Mathlib.Text.{◌==◌}
use riden_dongle.Modbus.Double
use riden_dongle.Modbus.Double.{Double}
use riden_dongle.Modbus.Raw.Device.{update, slice}
use riden_dongle.Modbus.AllValues.{decode_values, decode_details}
use riden_dongle.Modbus.State.{RidenModbus}
use riden_dongle.Modbus.Tests.Bench.{bench, bench-Answers, running, running-Ready}
use riden_dongle.Vxi.Net.{done, overrun}
use riden_dongle.Vxi.Tests.Bench.{bench_net, idle_wire}
use riden_dongle.Scpi.Server.{RidenScpi}
use riden_dongle.Scpi.Tests.Bench.{bench_socket}
use riden_dongle.ModbusBridge.Tests.{hub}
use riden_dongle.Config.{commit}
use riden_dongle.Config.Tests.{chip, settings, saved_chip}
use riden_dongle.Http.Output.{lit, send, send_content, page}
use riden_dongle.Http.Board.{Platform, Board, Dongle, Request}
use riden_dongle.Http.Details.{clock_length, details_body}
use riden_dongle.Http.Control.{status_text, handle_toggle_out}
use riden_dongle.Http.Settings.{
  posted, send_redirect_root, handle_config_post, handle_disconnect_client_post,
}
use riden_dongle.Http.Services.{handle_psu_get}
use riden_dongle.Http.Routes.{handle, modbus_qps}
use riden_dongle.Http.Driven.{with_bus, readings, toggle_out_lem}
use riden_dongle.Http.Clock.{psu_lem}
use riden_dongle.Http.Disconnect.{vxi_11, protocol_of, listed, Gone, disconnect_listed}
use riden_dongle.Http.Saved.{config_post_overrun}
use riden_dongle.Http.Replies.{Replies, handle-Replies}

-- The Wi-Fi module: whether the last thing asked for was a reset, and the milliseconds waited.
pub record Module : Type 0 where
  pub was_reset : Bool
  pub waited : ℕ

abbrev pub bench_platform : Platform Double
bench_platform = record {
  World = Module;
  less = λ x y. false;
  strtod = λ text. Double.literal 125 2;
  strtoull = λ text. 115200;
  from_string = λ text. some 0;
  to_string = λ ip. ip ∷ [];
  hostname = λ w. codes "riden";
  ssid = λ w. codes "lab";
  mac_address = λ w. codes "00";
  local_ip = λ w. 10;
  subnet_mask = λ w. 24;
  gateway_ip = λ w. 1;
  dns_ip = λ i w. none;
  version_string = codes "1.0";
  build_time = none;
  render = λ lines. lines;
  scpi_port = λ w. 5025;
  modbustcp_port = 502;
  stack = λ w. 0;
  delay = λ ms w. record w { waited = ms };
  reset = λ w. record w { was_reset = true };
  restart = λ w. record w { was_reset = true };
  stop_client = λ w. w;
  yield = λ w. w;
  stop_all = λ w. w;
  free_sketch_space = λ w. 1000000;
  update_begin = λ size w. (true, w);
  update_write = λ bytes w. (0, w);
  update_end = λ now w. w;
  update_has_error = λ w. false;
  update_error = λ w. [];
}

abbrev pub board : Board bench
board = record {
  net = bench_net;
  socket = bench_socket;
  Context = ℕ;
  scpi_input = λ s. s;
  tcp = hub;
  eeprom = chip;
  platform = bench_platform;
}

abbrev pub scpi_with : (ℕ → ℕ) → RidenScpi bench_socket (RidenModbus bench × ℕ)
scpi_with regs = record {
  input = λ i. 0;
  position = 0;
  input_length = 256;
  write_buffer = λ i. 0;
  write_buffer_length = 0;
  external_control = true;
  external_output_ready = false;
  device = (running regs, 0);
  world = record { is_open = true; incoming = []; sent = [] };
}

abbrev pub dongle : (ℕ → ℕ) → Dongle bench board
dongle regs = record {
  vxi_server = record {
    connection = record { read_buffer = λ i. 0; send_buffer = λ i. 0; world = idle_wire };
    vxi_port = record { m_data = 9010; m_start = 9010; m_end = 9012 };
    scpi = scpi_with regs;
    outbuffer = λ i. 0;
  };
  modbus_tcp = record { tcpclient = []; world = [] };
  config = settings;
  platform = record { was_reset = false; waited = 0 };
}

-- Registers that hold a clock, an output that is on, and a maximum of each.
abbrev pub regs : ℕ → ℕ
regs a = 20

abbrev pub request : List ℕ → List ℕ → Request
request protocol timezone = record {
  arg =
      λ name. if name == "protocol" then protocol else if name == "timezone" then timezone else [];
  uri = codes "/config/";
}

toggle_out_lem_example :
    let later = update regs 18 0 in
    let av = readings (running regs) later in
    (w : bench.World) × (handle_toggle_out (dongle regs)
      ≡ done
          (send 200 "application/json" (status_text bench_platform av (running regs))
            ∷ send_content (lit "")
            ∷ [])
          (with_bus w (dongle regs)))
    × (bench.server w ≡ false)
    × (bench-Answers.regs w ≡ later)
    × (av.output_on ≡ false)
toggle_out_lem_example =
    toggle_out_lem bench-Answers (dongle regs) (running-Ready regs 122 (omega arith)) refl

psu_lem_example :
    let dt = decode_details (running regs) (slice regs 0 120) in
    let av = decode_values (running regs) (slice regs 0 120) (some dt) in
    (w : bench.World) × (handle_psu_get (dongle regs)
      ≡ done (page (details_body bench bench_platform av dt)) (with_bus w (dongle regs)))
    × (bench.server w ≡ false)
    × (bench-Answers.regs w ≡ regs)
    × (clock_length dt.clock ≡ 19)
psu_lem_example =
    psu_lem bench-Answers (dongle regs) (running-Ready regs 120 (omega arith))
      (omega arith, omega arith, omega arith, omega arith, omega arith, omega arith)

vxi_11-listed : listed vxi_11 (dongle regs) ≡ 0 ∷ []
unfolding riden_dongle.Vxi.Server.get_connected_clients
vxi_11-listed = refl

disconnect_listed_example :
    (t : Dongle bench board) × (handle_disconnect_client_post
        (request (protocol_of vxi_11) [])
        (dongle regs)
      ≡ done send_redirect_root t)
    × Gone vxi_11 (dongle regs) t
disconnect_listed_example =
    disconnect_listed vxi_11 0 (request (protocol_of vxi_11) []) (dongle regs) (λ w. refl)
      (λ w. refl) refl refl vxi_11-listed

-- The request that saves the time zone `Asia/Tokyo`.
abbrev pub tokyo : Request
tokyo = request [] (codes "Asia/Tokyo")

tokyo-commit :
    commit (posted bench_platform tokyo settings)
    ≡ done true (saved_chip (posted bench_platform tokyo settings))
unfolding commit
tokyo-commit = refl

-- A text of 104 characters.
abbrev long : Request
long = request [] (
    codes
      "abcdefghijklmabcdefghijklmabcdefghijklmabcdefghijklmabcdefghijklmabcdefghijklmabcdefghijklmabcdefghijklm")

config_post_overrun_example : handle_config_post long (dongle regs) ≡ overrun
config_post_overrun_example = config_post_overrun long (dongle regs) (omega arith)

handle-Replies_example : Replies (handle 3 modbus_qps tokyo (dongle regs))
handle-Replies_example = handle-Replies 3 modbus_qps tokyo (dongle regs)
