-- ===== src/Scpi/Tests/Server.antt =====
-- The theorems on the buffers, the socket and the bridge, on the bench.
use riden_dongle.Base.{
  ℕ, ◌+◌, ◌≤◌, ◌<◌, ◌≡◌, refl, ◌≢◌, ◌⊎◌, Bool, true, false, List, [], ◌∷◌, arith,
}
use riden_dongle.Vxi.Net.{Run, done, waiting, overrun, ◌>>◌, modify}
use riden_dongle.Vxi.Server as Vxi
use riden_dongle.Vxi.Server.{VxiServer}
use riden_dongle.Vxi.Tests.Bench.{bench_net, idle_wire}
use riden_dongle.Scpi.Server.{RidenScpi, read_line, scpi_flush, loop}
use riden_dongle.Scpi.Server.Output.{write_all, Delivered, result_lem}
use riden_dongle.Scpi.Server.Input.{inserted, line_lem}
use riden_dongle.Scpi.Bridge.{scpi_handler}
use riden_dongle.Scpi.Bridge.Control.{lost_link_blocks}
use riden_dongle.Scpi.Tests.Bench.{bench_socket, Line}

-- The parser's state is how many lines it was given.
abbrev object : Bool → ℕ → List ℕ → RidenScpi bench_socket ℕ
object external position incoming = record {
  input = λ i. 0;
  position = position;
  input_length = position;
  write_buffer = λ i. 0;
  write_buffer_length = 0;
  external_control = external;
  external_output_ready = false;
  device = 0;
  world = record { is_open = true; incoming = incoming; sent = [] };
}

abbrev count_line : RidenScpi bench_socket ℕ → RidenScpi bench_socket ℕ
count_line s = record s { device = s.device + 1; position = 0; input_length = 0 }

abbrev parse : RidenScpi bench_socket ℕ → Run (RidenScpi bench_socket ℕ) (Unit {0})
parse s = done tt (count_line s)

-- "12.5" and "V" in two parts.
abbrev answer_parts : List (List ℕ)
answer_parts = (49 ∷ 50 ∷ 46 ∷ 53 ∷ []) ∷ (86 ∷ []) ∷ []

abbrev reading : RidenScpi bench_socket ℕ
reading = object true 0 []

result_lem_example :
    ((5 ≤ 256)
      × (t : RidenScpi bench_socket ℕ) × ((write_all answer_parts >> modify scpi_flush) reading
          ≡ done tt t)
      × Delivered true (49 ∷ 50 ∷ 46 ∷ 53 ∷ 86 ∷ []) 256 reading t)
    ⊎ ((256 < 5) × (write_all answer_parts reading ≡ overrun))
result_lem_example = result_lem answer_parts 256 reading refl (omega arith) refl

-- "*RST" and a line feed.
abbrev reset_line : List ℕ
reset_line = 42 ∷ 82 ∷ 83 ∷ 84 ∷ 10 ∷ []

abbrev rest : List ℕ → Line
rest incoming = record { is_open = true; incoming = incoming; sent = [] }

line_lem_example :
    read_line parse 257 (object false 0 reset_line)
    ≡ parse (
        inserted parse
          (10 ∷ [])
          (rest [])
          (inserted parse (42 ∷ 82 ∷ 83 ∷ 84 ∷ []) (rest (10 ∷ [])) (object false 0 reset_line)))
line_lem_example =
    line_lem parse (42 ∷ 82 ∷ 83 ∷ 84 ∷ []) (object false 0 reset_line) (rest (10 ∷ []))
      (refl, (refl, (refl, (refl, tt)))) (omega arith) (refl, (refl, (refl, (refl, refl)))) refl

-- One byte is left in the buffer, and two come in.
abbrev crowded : RidenScpi bench_socket ℕ
crowded = object false 255 (65 ∷ 66 ∷ [])

parse_returns : (t : RidenScpi bench_socket ℕ) → parse t ≢ waiting
parse_returns t = cc

abbrev lost_link : VxiServer bench_net (scpi_handler bench_socket ℕ count_line)
lost_link = record {
  connection = record {
    read_buffer = λ i. 0;
    send_buffer = λ i. 0;
    world = record idle_wire { is_up = false };
  };
  vxi_port = record { m_data = 9010; m_start = 9010; m_end = 9010 };
  scpi = reading;
  outbuffer = λ i. 0;
}

lost_link_blocks_example :
    (t : VxiServer bench_net (scpi_handler bench_socket ℕ count_line)) × (Vxi.loop 3 lost_link
      ≡ done tt t)
    × (t.scpi.external_control ≡ true)
    × (loop parse t.scpi ≡ done tt (record t.scpi { world = bench_socket.stop t.scpi.world }))
lost_link_blocks_example = lost_link_blocks count_line 3 lost_link parse refl refl refl refl
