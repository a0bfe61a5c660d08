-- ===== src/Vxi/Tests/Packets.antt =====
-- The theorems on counters, words and frames, on the bench.
use riden_dongle.Base.{
  ℕ, zero, suc, ◌+◌, ◌^◌, ◌≤◌, ◌≡◌, refl, inl, List, [], ◌∷◌, ◌++◌, take, length, arith,
}
use riden_dongle.Vxi.Cyclic.{Cyclic}
use riden_dongle.Vxi.Words.{htonl, get_word}
use riden_dongle.Vxi.Net.{done}
use riden_dongle.Vxi.Transport.{Connection, get_packet, send_packet}
use riden_dongle.Vxi.Transport.Send.{Sends, send_packet_lem}
use riden_dongle.Vxi.Transport.Receive.{Received, get_packet-Received}
use riden_dongle.Vxi.Tests.Bench.{bench_net, idle_wire}

-- Three ports, at the last of them.
abbrev ports : Cyclic
ports = record { m_data = 9012; m_start = 9010; m_end = 9012 }

abbrev connection : Connection bench_net
connection = record { read_buffer = λ i. 3; send_buffer = λ i. i; world = idle_wire }

-- A body of three bytes, which takes one byte of padding.
send_packet_lem_example :
    Sends
      (get_word connection.read_buffer 4)
      3
      connection
      idle_wire
      (send_packet bench_net 2 256 23 connection)
send_packet_lem_example =
    send_packet_lem 2 256 3 connection idle_wire (omega arith) (omega arith)
      (inl (omega arith, refl))

-- A prefix that promises more than the buffer can hold.
abbrev flood : Connection bench_net
flood = record connection { world = record idle_wire { incoming = 255 ∷ 255 ∷ 255 ∷ 255 ∷ 1 ∷ [] } }

length-take_le : (n : ℕ) (xs : List ℕ) → length (take n xs) ≤ n
length-take_le zero xs = omega arith
length-take_le (suc n) [] = omega arith
length-take_le (suc n) (x ∷ xs) = omega (arith, length-take_le n xs)

get_packet-Received_example :
    (len : ℕ) × (t : Connection bench_net) × (get_packet bench_net 256 flood ≡ done len t)
    × Received bench_net 256 flood len t
get_packet-Received_example =
    get_packet-Received bench_net 256 flood (λ n w. length-take_le n w.incoming) (omega arith)

abbrev six : List ℕ
six = 1 ∷ 2 ∷ 3 ∷ 4 ∷ 5 ∷ 6 ∷ []

abbrev whole : Connection bench_net
whole = record connection { world = record idle_wire { incoming = htonl (2 ^ 31 + 6) ++ six } }
