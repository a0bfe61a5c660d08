-- ===== src/Vxi/Tests/Server.antt =====
-- The theorems on the VXI-11 server, on the bench.
use riden_dongle.Base.{
  ℕ, ◌+◌, ◌^◌, ◌≡◌, refl, ◌⊎◌, inl, inr, true, false, List, [], ◌∷◌, ◌++◌, arith,
}
use riden_dongle.Base.Memory.{updates}
use riden_dongle.Vxi.Words.{htonl, ntohl, get_word, set_word}
use riden_dongle.Vxi.Net.{done, overrun}
use riden_dongle.Vxi.Transport.Frame.{frame}
use riden_dongle.Vxi.Server.{VxiServer, handle_packet, loop}
use riden_dongle.Vxi.Protocol.{words}
use riden_dongle.Vxi.Server.Replies.{Replies}
use riden_dongle.Vxi.Server.Commands.{handle_packet_lem}
use riden_dongle.Vxi.Server.Loop.{loop_lem}
use riden_dongle.Vxi.Server.Overrun.{unchecked_lengths}
use riden_dongle.Vxi.Tests.Bench.{bench_net, echo, Wire, Echo, call, idle_wire, server_with}

abbrev quiet : Echo
quiet = record { controlled = true; said = [] }

-- A DEV_WRITE of "*IDN?" and a line feed.
abbrev write_call : List ℕ
write_call = call 11 (0 ∷ 0 ∷ 0 ∷ 8 ∷ 6 ∷ []) ++ (42 ∷ 73 ∷ 68 ∷ 78 ∷ 63 ∷ 10 ∷ [])

abbrev writing : VxiServer bench_net echo
writing = record (server_with idle_wire quiet) {
  connection = record {
    read_buffer = updates (λ i. 0) 4 write_call;
    send_buffer = λ i. 0;
    world = idle_wire;
  };
}

-- The line feed is trimmed, and the length that is acknowledged counts it.
handle_packet_lem_example :
    Replies writing
      (handle_packet 3 writing)
      false
      (words (0 ∷ 0 ∷ 6 ∷ []))
      (record quiet { said = 42 ∷ 73 ∷ 68 ∷ 78 ∷ 63 ∷ [] })
      idle_wire
    ⊎ (⊥ × (handle_packet 3 writing ≡ overrun))
unfolding get_word ntohl htonl
handle_packet_lem_example =
    handle_packet_lem 3 writing idle_wire (inl (omega arith, refl)) (omega arith)

-- A CREATE_LINK of "inst0" comes in over the wire.
abbrev create_call : List ℕ
create_call = call 10 (1 ∷ 0 ∷ 0 ∷ 5 ∷ []) ++ (105 ∷ 110 ∷ 115 ∷ 116 ∷ 48 ∷ [])

abbrev free : Echo
free = record { controlled = false; said = [] }

abbrev asking : Wire
asking = record idle_wire { incoming = htonl (2 ^ 31 + 61) ++ create_call }

loop_lem_example :
    ((t : VxiServer bench_net echo) × (loop 3 (server_with asking free) ≡ done tt t)
      × (t.connection.world
          ≡ record idle_wire { sent = frame 7 (words (0 ∷ 0 ∷ 0 ∷ 0 ∷ 252 ∷ [])) ∷ [] })
      × (t.scpi ≡ record free { controlled = true })
      × (t.vxi_port ≡ (server_with asking free).vxi_port))
    ⊎ (⊥ × (loop 3 (server_with asking free) ≡ overrun))
unfolding get_word set_word ntohl htonl
loop_lem_example =
    loop_lem 3 61 (server_with asking free) create_call
      (record idle_wire { incoming = create_call }) idle_wire idle_wire refl refl (omega arith)
      (omega arith) refl refl refl (inl (omega arith, refl)) (inr (omega arith))

-- The link is held when the client goes away.
abbrev lost : Wire
lost = record idle_wire { is_up = false }

-- A CREATE_LINK that says its name has 196 bytes.
abbrev hostile : VxiServer bench_net echo
hostile = record (server_with idle_wire free) {
  connection = record {
    read_buffer = updates (λ i. 0) 4 (call 10 (1 ∷ 0 ∷ 0 ∷ 196 ∷ []));
    send_buffer = λ i. 0;
    world = idle_wire;
  };
}

unchecked_lengths_example : handle_packet 3 hostile ≡ overrun
unfolding get_word ntohl htonl
unchecked_lengths_example = unchecked_lengths 3 hostile (refl, omega arith)
