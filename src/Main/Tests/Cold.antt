-- ===== src/Main/Tests/Cold.antt =====
-- A start without a power supply that is known.
use riden_dongle.Base.{◌≤◌, ◌≡◌, false, arith}
use riden_dongle.Modbus.Tests.Bench.{bench-Clocked, bench, fresh}
use riden_dongle.Vxi.Net.{Run, done, waiting, overrun}
use riden_dongle.Config.{RidenConfig, set_config_portal_on_boot}
use riden_dongle.Http.Tests.{board, regs}
use riden_dongle.Main.{Machine, Station, nothing, loop, update_time}
use riden_dongle.Main.Setup.{setup, find_supply}
use riden_dongle.Main.Boot.{Delays, find_supply_ends}
use riden_dongle.Modbus.Begin.Ends.{Passing}
use riden_dongle.Http.Board.{Dongle, modbus}
use riden_dongle.Main.Tests.{machine, station, plain}

-- Before `setup`, with a power supply whose id is not known.
abbrev cold : Station bench board machine
cold = record station {
  dongle = record plain {
    vxi_server = record plain.vxi_server {
      scpi = record plain.vxi_server.scpi { device = (fresh regs, 0) };
    };
  };
  has_time = false;
  connected = false;
}

abbrev state_after {ℓ κ} : {S : Type κ} {A : Type ℓ} → S → Run S A → S
state_after s (done a t) = t
state_after s waiting = s
state_after s overrun = s

abbrev alone : Station bench board machine
alone = state_after station (setup machine 60 cold)

bench-Passing : Passing bench 1
bench-Passing = record {
  clocked = bench-Clocked;
  read_forward = λ a n w h. omega arith;
  serial_forward = λ baud w h. (omega arith, omega arith);
}

bench-Delays : Delays bench machine 1
bench-Delays = record { passing = bench-Passing; delay = λ ms w h. (omega arith, omega arith) }

find_supply_ends_example :
    (t : Dongle bench board) × (find_supply machine 51 cold.dongle ≡ done tt t)
    × (bench.millis (modbus t).bus ≤ 6112)
find_supply_ends_example = find_supply_ends machine 1 cold.dongle bench-Delays (omega arith)
