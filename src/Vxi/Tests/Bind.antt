-- ===== src/Vxi/Tests/Bind.antt =====
-- The theorems on the port mapper, on the bench.
use riden_dongle.Base.{ℕ, ◌+◌, ◌^◌, ◌≡◌, refl, inl, false, List, [], ◌∷◌, ◌++◌, length, take, arith}
use riden_dongle.Vxi.Words.{htonl, ntohl, get_word, set_word}
use riden_dongle.Vxi.Net.{done}
use riden_dongle.Vxi.Transport.Frame.{frame}
use riden_dongle.Vxi.Server.{VxiServer}
use riden_dongle.Vxi.Protocol.{words}
use riden_dongle.Vxi.Bind.{Udp, BindServer, loop}
use riden_dongle.Vxi.Bind.Replies.{Mapped, loop_tcp}
use riden_dongle.Vxi.Tests.Bench.{bench_net, echo, Wire, idle_wire, server_with}

-- Datagrams that have come in, and those that were sent.
pub record Mail : Type 0 where
  pub inbox : List (List ℕ)
  pub outbox : List (List ℕ)

abbrev first_of : List (List ℕ) → List ℕ
first_of [] = []
first_of (x ∷ xs) = x

abbrev pub mail : Udp
mail = record {
  World = Mail;
  begin = λ port w. w;
  parse_packet = λ w. (length (first_of w.inbox), w);
  read = λ n w. (take n (first_of w.inbox), w);
  send = λ bytes w. record w { outbox = bytes ∷ w.outbox };
}

-- GET_PORT of the transaction 5.
abbrev get_port : List ℕ
get_port = words (5 ∷ 0 ∷ 2 ∷ 100000 ∷ 2 ∷ 3 ∷ 0 ∷ 0 ∷ 0 ∷ 0 ∷ 395183 ∷ 1 ∷ 6 ∷ 0 ∷ [])

abbrev pub closed : Wire
closed = record idle_wire { is_open = false; is_up = false }

abbrev vxi : VxiServer bench_net echo
vxi = server_with closed (record { controlled = false; said = [] })

abbrev pub mapper : List (List ℕ) → List ℕ → BindServer bench_net mail
mapper inbox incoming = record {
  udp_read_buffer = λ i. 0;
  udp_send_buffer = λ i. 0;
  udp = record { inbox = inbox; outbox = [] };
  tcp = record {
    read_buffer = λ i. 0;
    send_buffer = λ i. 0;
    world = record closed { incoming = incoming };
  };
}

loop_tcp_example :
    (t : BindServer bench_net mail) × (rc : ℕ) × (port : ℕ) × (loop 3 vxi
        (mapper [] (htonl (2 ^ 31 + 56) ++ get_port))
      ≡ done tt t)
    × Mapped 100000 3 9010 rc port
    × (t.tcp.world ≡ record idle_wire { sent = frame 5 (words (rc ∷ port ∷ [])) ∷ [] })
    × (t.udp ≡ record { inbox = []; outbox = [] })
unfolding get_word set_word ntohl htonl
loop_tcp_example =
    loop_tcp 3 56 vxi (mapper [] (htonl (2 ^ 31 + 56) ++ get_port)) get_port
      (record idle_wire { incoming = get_port }) idle_wire idle_wire refl refl refl (omega arith)
      (omega arith) refl refl refl (inl (omega arith, refl))
