-- ===== src/Vxi/Bind/Replies.antt =====
-- What the port mapper answers, against the statuses of the protocol.
use mathlib.Core.Path.{subst}
use riden_dongle.Base.{
  ℕ, ◌+◌, ◌^◌, ◌≤◌, ◌<◌, ◌≡◌, ◌≢◌, refl, ◌∙◌, ap, sym, inl, inr, true, false, ◌==◌, ==_iff,
  Bool-cases, List, [], ◌∷◌, length, ltb, lt→ltb, if◌then◌else◌, arith,
}
use riden_dongle.Base.Memory.{slice}
use riden_dongle.Vxi.Words.{htonl, get_word, set_word}
use riden_dongle.Vxi.Net.{Net, Handler, done, waiting, overrun}
use riden_dongle.Vxi.Transport.{Connection, send_packet}
use riden_dongle.Vxi.Transport.Receive.{received_buffer, get_packet_whole}
use riden_dongle.Vxi.Transport.Send.{Polls, send_packet_lem}
use riden_dongle.Vxi.Transport.Frame.{frame}
use riden_dongle.Vxi.Server.{VxiServer, available, allocate}
use riden_dongle.Vxi.Protocol.{words}
use riden_dongle.Vxi.Bind.{
  Udp, BindServer, portmap, process_request, answer_tcp, serve_tcp, with_tcp, loop,
}

-- The status and the port that the protocol gives a request, with the port where the VXI server listens:
-- PROG_UNAVAIL for a program that is not the port mapper, PROC_UNAVAIL for a procedure that is not
-- GET_PORT, GARBAGE_ARGS without a port, and otherwise SUCCESS and the port.
pub data Mapped (program procedure port : ℕ) : ℕ → ℕ → Type 0 where
  other_program : program ≢ 100000 → Mapped program procedure port 1 0
  other_procedure : program ≡ 100000 → procedure ≢ 3 → Mapped program procedure port 3 0
  no_port : program ≡ 100000 → procedure ≡ 3 → port ≡ 0 → Mapped program procedure port 4 0
  mapped : program ≡ 100000 → procedure ≡ 3 → 0 < port → Mapped program procedure port 0 port

portmap-Mapped :
    (b : ℕ → ℕ) (port : ℕ)
    → Mapped (get_word b 16) (get_word b 24) port (portmap b port).0 (portmap b port).1
portmap-Mapped b port = elim (Bool-cases (get_word b 16 == 100000)) [
  | inr program ↦ rw program (other_program (different program))
  | inl program ↦ elim (Bool-cases (get_word b 24 == 3)) [
    | inr procedure ↦
        rw (program, procedure)
          (other_procedure ((==_iff (get_word b 16) 100000).0 program) (different procedure))
    | inl procedure ↦ elim (Bool-cases (port == 0)) [
      | inl zero_port ↦
          let none : port ≡ 0 = (==_iff port 0).0 zero_port in
          rw (program, procedure, zero_port)
            (subst (λ v. Mapped (get_word b 16) (get_word b 24) port 4 v) (sym none)
              (no_port ((==_iff (get_word b 16) 100000).0 program)
                ((==_iff (get_word b 24) 3).0 procedure) none))
      | inr some_port ↦
          rw (program, procedure, some_port)
            (mapped ((==_iff (get_word b 16) 100000).0 program)
              ((==_iff (get_word b 24) 3).0 procedure) (ground arith))
    ]
  ]
]
  where
    different : {m n : ℕ} → (m == n) ≡ false → m ≢ n
    different {m} {n} e same = let equal : (m == n) ≡ true = (==_iff m n).1 same in cc

module _ {N : Net} {H : Handler} {U : Udp} where
  -- With a VXI server that has no client and no datagram waiting, a TCP client whose request comes in
  -- whole, and that is found writable, gets one frame with the transaction of the request
  -- and the status and port of the protocol.
  pub loop_tcp :
      (polls n : ℕ) (vxi : VxiServer N H) (s : BindServer N U) (bytes : List ℕ) (w w₁ w' : N.World)
      → N.client vxi.connection.world ≡ false
      → ltb 0 (U.parse_packet s.udp).0 ≡ false
      → N.client (N.accept s.tcp.world) ≡ true
      → 4 < n
      → n ≤ 60
      → N.read_bytes 4 (N.accept s.tcp.world) ≡ (htonl (2 ^ 31 + n), w)
      → N.read_bytes n w ≡ (bytes, w₁)
      → length bytes ≡ n
      → Polls N polls w₁ w'
      → let b = received_buffer s.tcp.read_buffer n bytes in
        (t : BindServer N U) × (rc : ℕ) × (port : ℕ) × (loop polls vxi s ≡ done tt t)
        × Mapped (get_word b 16) (get_word b 24) vxi.vxi_port.m_data rc port
        × (t.tcp.world ≡ N.flush (N.write (frame (get_word b 4) (words (rc ∷ port ∷ []))) w'))
        × (t.udp ≡ (U.parse_packet s.udp).1)
  unfolding loop serve_tcp process_request set_word htonl available allocate
  loop_tcp polls n vxi s bytes w w₁ w' idle none client lo hi first second whole p =
      let b = received_buffer s.tcp.read_buffer n bytes in
      let (received, same) =
        get_packet_whole N 64 accepted n bytes w w₁ lo (omega arith) (omega arith) first second
          whole in
      let (c, sent) =
        send_packet_lem polls 32 8 (processed vxi.vxi_port.m_data b) w' (omega arith) (omega arith)
          p in
      (
        record s {
          udp = (U.parse_packet s.udp).1;
          tcp = record (processed vxi.vxi_port.m_data b) {
            send_buffer = c;
            world = N.flush (
                N.write
                  (frame (get_word b 4) (slice (processed vxi.vxi_port.m_data b).send_buffer 24 8))
                  w');
          };
        },
        (portmap b vxi.vxi_port.m_data).0,
        (portmap b vxi.vxi_port.m_data).1,
        rw (idle, none, client)
            (ap (with_tcp (record s { udp = (U.parse_packet s.udp).1 })) (
              (λ i. elim (received i) [
                | done len d ↦ answer_tcp polls vxi len d
                | waiting ↦ waiting
                | overrun ↦ overrun
              ])
              ∙ (λ i.
                  if lt→ltb 0 n (omega arith) i
                  then send_packet N polls 32 28 (processed (allocate vxi) b)
                  else done tt (record accepted { read_buffer = b; world = w₁ }))
              ∙ ap (λ port. send_packet N polls 32 28 (processed port b)) allocated
              ∙ sent)),
        portmap-Mapped b vxi.vxi_port.m_data,
        refl,
        refl,
      )
    where
      accepted : Connection N
      accepted = record s.tcp { world = N.accept s.tcp.world }

      allocated : allocate vxi ≡ vxi.vxi_port.m_data
      allocated = rw idle refl

      processed : ℕ → (ℕ → ℕ) → Connection N
      processed port b = record accepted {
        read_buffer = b;
        world = w₁;
        send_buffer = process_request port b s.tcp.send_buffer;
      }

  -- While the VXI server has a client, the port mapper reads and sends nothing.
  pub loop_busy :
      (polls : ℕ) (vxi : VxiServer N H) (s : BindServer N U)
      → N.client vxi.connection.world ≡ true
      → loop polls vxi s ≡ done tt s
  unfolding loop available
  loop_busy polls vxi s busy = rw busy refl
