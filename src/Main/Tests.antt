-- ===== src/Main/Tests.antt =====
-- Turns of the main loop on the bench of the web server.
pub mod Restart
pub mod Cold
use riden_dongle.Base.{◌+◌, ◌≡◌, refl, true, false, [], ◌∷◌, some, none, pos, arith}
use riden_dongle.Base.Text.{codes}
use riden_dongle.Modbus.Values.{Tm, tm_to_values}
use riden_dongle.Modbus.Raw.Device.{updates}
use riden_dongle.Modbus.Tests.Bench.{bench, bench-Answers, fresh, running, running-Ready}
use riden_dongle.Vxi.Net.{Run, done, waiting, overrun}
use riden_dongle.Vxi.Tests.Bench.{idle_wire}
use riden_dongle.Vxi.Tests.Bind.{mail, mapper}
use riden_dongle.Scpi.Start.{blank_identity}
use riden_dongle.Scpi.Tests.Start.{bench_libraries}
use riden_dongle.Config.{RidenConfig, commit, begin, set_config_portal_on_boot}
use riden_dongle.Config.Loading.{with_settings}
use riden_dongle.Config.Timezones.{timezones, get_timezone}
use riden_dongle.Config.Timezones.Africa.{africa}
use riden_dongle.Config.Timezones.America.{america}
use riden_dongle.Config.Timezones.Asia.{asia}
use riden_dongle.Config.Timezones.Europe.{europe}
use riden_dongle.Config.Timezones.Oceans.{oceans}
use riden_dongle.Config.Timezones.Zone.{zone}
use riden_dongle.Config.Tests.{chip, chip-Keeps, settings, saved_chip}
use riden_dongle.Http.Output.{lit, page}
use riden_dongle.Http.Board.{Dongle, Request}
use riden_dongle.Http.Driven.{with_bus}
use riden_dongle.Http.Settings.{
  posted, send_redirect_self, handle_config_post, portal_body, rebooted, handle_reboot_dongle_get,
}
use riden_dongle.Http.Tests.{bench_platform, board, dongle, regs, tokyo}
use riden_dongle.Main.{Machine, Station, nothing, loop, update_time, on_time_received}
use riden_dongle.Main.Clock.{stays, time_received, clock_once, clock_set}
use riden_dongle.Main.Wifi.{join, connect_wifi}
use riden_dongle.Main.Setup.{setup}
use riden_dongle.Main.Network.{chosen_zone, portal_restart}

-- The 20th of May 2024, 10:30:00.
abbrev now : Tm
now = record {
  tm_year = pos 124;
  tm_mon = pos 4;
  tm_mday = pos 20;
  tm_hour = pos 10;
  tm_min = pos 30;
  tm_sec = pos 0;
}

abbrev pub machine : Machine bench board
machine = record {
  udp = mail;
  libraries = bench_libraries;
  bridge_begin = λ s. done tt s;
  http_begin = λ w. w;
  pause = λ ms w. record w { now = w.now + ms };
  task = λ s. done tt s;
  local_time = λ w. now;
  mdns_update = λ w. w;
  ota_handle = λ w. w;
  start_config_portal = λ hostname w. (true, w);
  auto_connect = λ hostname w. (true, w);
  mdns_begin = λ hostname w. (true, w);
  config_time = λ tz w. record w { waited = 1 };
  keep_alive = λ w. w;
  ota_begin = λ hostname w. w;
}

-- A dongle whose VXI-11 connection is lost.
abbrev lost : Dongle bench board
lost = record (dongle regs) {
  vxi_server = record (dongle regs).vxi_server {
    connection = record {
      read_buffer = λ i. 0;
      send_buffer = λ i. 0;
      world = record idle_wire { is_up = false };
    };
  };
}

abbrev pub station : Station bench board machine
station = record {
  dongle = lost;
  identity = blank_identity;
  rpc_bind_server = mapper [] [];
  has_time = true;
  did_update_time = false;
  connected = true;
}

clock_set_example :
    (w : bench.World) × (update_time station
      ≡ done tt (record station { dongle = with_bus w lost; did_update_time = true }))
    × (bench.server w ≡ false)
    × (bench-Answers.regs w ≡ updates regs 48 (tm_to_values now))
clock_set_example =
    clock_set bench-Answers station (running-Ready regs 1 (omega arith)) (λ i h. refl) refl refl

-- A dongle that is not to open its portal.
abbrev pub plain : Dongle bench board
plain = record (dongle regs) { config = record settings { config_portal_on_boot = false } }

-- The station after a turn.
abbrev turned : Station bench board machine
turned = record station {
  dongle =
      record (with_bus
        (record {
          regs = updates regs 48 (2024 ∷ 5 ∷ 20 ∷ 10 ∷ 30 ∷ 0 ∷ []);
          busy = false;
          incoming = [];
          now = 9;
        })
        lost) {
          vxi_server = record lost.vxi_server {
            connection = record lost.vxi_server.connection {
              world = record idle_wire { is_open = false; is_up = false; port = 9011 };
            };
            vxi_port = record lost.vxi_server.vxi_port { m_data = 9011 };
            scpi = record lost.vxi_server.scpi {
              device = (
                record (running regs) {
                  bus = record {
                    regs = updates regs 48 (2024 ∷ 5 ∷ 20 ∷ 10 ∷ 30 ∷ 0 ∷ []);
                    busy = false;
                    incoming = [];
                    now = 9;
                  };
                },
                0,
              );
              world = record { is_open = false; incoming = []; sent = [] };
            };
          };
        };
  did_update_time = true;
}

station-loop : loop 3 3 nothing station ≡ done [] turned
unfolding loop update_time riden_dongle.Modbus.Settings.set_clock
    riden_dongle.Modbus.Raw.write_holding_registers riden_dongle.Modbus.Raw.wait_for_inactive
    riden_dongle.Modbus.Raw.wait_loop riden_dongle.Modbus.Begin.loop riden_dongle.Scpi.Server.loop
    riden_dongle.Vxi.Bind.loop riden_dongle.Vxi.Server.available riden_dongle.Vxi.Server.loop
    riden_dongle.Vxi.Server.begin_next riden_dongle.Vxi.Cyclic.is_noncyclic
    riden_dongle.Vxi.Cyclic.goto_next tm_to_values
station-loop = refl

clock_once_example :
    (update_time (on_time_received turned) ≡ done tt (on_time_received turned))
    × ((on_time_received turned).connected ≡ true)
clock_once_example =
    clock_once 3 3 nothing [] station turned (on_time_received turned) refl refl station-loop
      (time_received stays)
