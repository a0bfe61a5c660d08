-- ===== src/Scpi/Tests/Start.antt =====
-- The start of RidenScpi with a parser that begins with an empty buffer.
use riden_dongle.Base.{
  ℕ, ◌≡◌, ◌≤◌, refl, false, List, [], ◌∷◌, ◌++◌, length, ◌==◌, if◌then◌else◌, arith,
}
use riden_dongle.Base.Memory.{Holds}
use riden_dongle.Base.Text.{codes}
use riden_dongle.Base.Decimal.{digits_of, padded, value_from, Digits}
use riden_dongle.Modbus.State.{RidenModbus}
use riden_dongle.Modbus.Tests.Bench.{bench, bench-Answers, running}
use riden_dongle.Scpi.Server.{RidenScpi}
use riden_dongle.Scpi.Start.{Identity, Libraries, blank_identity, start, begin}
use riden_dongle.Scpi.Start.Identified.{begin_identifies}
use riden_dongle.Scpi.Tests.Bench.{bench_socket}

abbrev pub bench_libraries : Libraries bench_socket (RidenModbus bench × ℕ)
bench_libraries = record {
  scpi_init = λ idn2 idn3 idn4 s. record s { position = 0; input_length = 256 };
  begin_server = λ w. w;
  stack = λ w. 7;
}

-- The version 105.
abbrev contents : ℕ → ℕ
contents a = if a == 3 then 105 else a

abbrev supply : RidenModbus bench
supply = record (running contents) { type = "RD6006" }

abbrev riden_scpi : RidenScpi bench_socket (RidenModbus bench × ℕ)
riden_scpi = record {
  input = λ i. 0;
  position = 0;
  input_length = 0;
  write_buffer = λ i. 0;
  write_buffer_length = 0;
  external_control = false;
  external_output_ready = false;
  device = (supply, 0);
  world = record { is_open = false; incoming = []; sent = [] };
}

begin_identifies_example :
    (j : Identity) × (w : bench.World) × (begin bench_libraries (blank_identity, riden_scpi)
      ≡ start bench_libraries j (record riden_scpi { device = (record supply { bus = w }, 0) }))
    × Holds j.idn2 0 (codes "RD6006")
    × ((digits : List ℕ) × Holds j.idn3 0 digits
        × Digits digits
        × (8 ≤ length digits)
        × (value_from 0 digits ≡ 65538))
    × ((whole : List ℕ) × (rest : List ℕ) × Holds j.idn4 0 (whole ++ b'.' ∷ rest)
        × Digits whole
        × Digits rest
        × (value_from 0 whole ≡ 1)
        × (value_from 0 rest ≡ 5)
        × (length rest ≡ 1))
    × (bench-Answers.regs w ≡ contents)
begin_identifies_example =
    begin_identifies bench-Answers bench_libraries blank_identity riden_scpi refl
      (record { on = refl; idle = refl; limit = refl; left = omega arith }) (omega arith) refl
      (omega arith) (omega arith)

-- The text of a serial number.
padded_65538 : padded 8 65538 ≡ codes "00065538"
unfolding digits_of
padded_65538 = refl
