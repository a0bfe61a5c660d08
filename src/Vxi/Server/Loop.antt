-- ===== src/Vxi/Server/Loop.antt =====
-- `loop` of the VXI-11 server: one round for a request, and one for a connection that is lost.
use riden_dongle.Base.{
  ℕ, ◌+◌, ◌^◌, ◌≤◌, ◌<◌, ◌≡◌, refl, ◌∙◌, ◌⊎◌, true, false, List, length, ltb, lt→ltb, Bool-cases,
  inl, inr, if◌then◌else◌, arith,
}
use riden_dongle.Vxi.Cyclic.{InRange, is_noncyclic, goto_next-InRange}
use riden_dongle.Vxi.Words.{htonl, get_word}
use riden_dongle.Vxi.Net.{Net, Handler, done, waiting, overrun, bind-done, bind-overrun}
use riden_dongle.Vxi.Transport.{get_packet}
use riden_dongle.Vxi.Transport.Receive.{received_buffer, get_packet_whole}
use riden_dongle.Vxi.Transport.Send.{Polls}
use riden_dongle.Vxi.Transport.Frame.{frame}
use riden_dongle.Vxi.Server.{
  VxiServer, on_connection, handle_packet, serve, close_if, begin, begin_next, loop,
}
use riden_dongle.Vxi.Protocol.{command_of, answer}
use riden_dongle.Vxi.Server.Overrun.{Unended}
use riden_dongle.Vxi.Server.Commands.{Fits, handle_packet_lem}

module _ {N : Net} {H : Handler} where
  -- The object once a request of `n` bytes has come in, with the connection in the world `w`.
  abbrev pub with_request : VxiServer N H → ℕ → List ℕ → N.World → VxiServer N H
  with_request s n bytes w = record s {
    connection = record s.connection {
      read_buffer = received_buffer s.connection.read_buffer n bytes;
      world = w;
    };
  }

  -- One round of `loop` for a client whose request comes in whole and fits, and that is found writable:
  -- the reply of the protocol is written, with the transaction of that request; the handler is left as
  -- the protocol says; and exactly after DESTROY_LINK the server goes on to its next port. Or the request
  -- is a DEV_READ for which the stack behind the bytes of the handler has no zero byte up to byte 215, and
  -- the round writes behind the send buffer.
  pub loop_lem :
      (polls n : ℕ) (s : VxiServer N H) (bytes : List ℕ) (w w₁ w' : N.World)
      → N.client s.connection.world ≡ true
      → N.connected s.connection.world ≡ true
      → 4 < n
      → n ≤ 252
      → N.read_bytes 4 s.connection.world ≡ (htonl (2 ^ 31 + n), w)
      → N.read_bytes n w ≡ (bytes, w₁)
      → length bytes ≡ n
      → Polls N polls w₁ w'
      → Fits
          (command_of (received_buffer s.connection.read_buffer n bytes))
          (with_request s n bytes w₁)
      → let b = received_buffer s.connection.read_buffer n bytes in
        let (body, h, close) = answer H (command_of b) s.scpi in
        ((t : VxiServer N H) × (loop polls s ≡ done tt (if close then begin_next t else t))
          × (t.connection.world ≡ N.flush (N.write (frame (get_word b 4) body) w'))
          × (t.scpi ≡ h)
          × (t.vxi_port ≡ s.vxi_port))
        ⊎ (Unended (command_of b) (with_request s n bytes w₁) × (loop polls s ≡ overrun))
  unfolding loop
  loop_lem polls n s bytes w w₁ w' client connected lo hi first second whole p fits =
      elim (handle_packet_lem polls (with_request s n bytes w₁) w' p fits) [
        | inl (t, run, world, scpi, port) ↦ inl (
          t,
          rw (client, connected) (bind-done (serve polls) close_if s (served ∙ run)),
          world,
          scpi,
          port,
        )
        | inr (unended, run) ↦
            inr (
              unended,
              rw (client, connected) (bind-overrun (serve polls) close_if s (served ∙ run)),
            )
      ]
    where
      served : serve polls s ≡ handle_packet polls (with_request s n bytes w₁)
      served =
          let (received, same) =
            get_packet_whole N 256 s.connection n bytes w w₁ lo (omega arith) (omega arith) first
              second whole in
          bind-done (on_connection (get_packet N 256))
            (λ len t. if ltb 0 len then handle_packet polls t else done false t) s
            (λ i. elim (received i) [
              | done a c ↦ done a (record s { connection = c })
              | waiting ↦ waiting
              | overrun ↦ overrun
            ])
          ∙ (λ i.
              if lt→ltb 0 n (omega arith) i
              then handle_packet polls (with_request s n bytes w₁)
              else done false (with_request s n bytes w₁))

  pub begin_next-scpi : (s : VxiServer N H) → (begin_next s).scpi ≡ s.scpi
  unfolding begin_next begin
  begin_next-scpi s = elim (Bool-cases (is_noncyclic s.vxi_port)) [
    | inl one ↦ rw one refl
    | inr many ↦ rw many refl
  ]

  -- A connection that is lost is closed and the port goes on within its range, but the handler is
  -- left as it is: the control that CREATE_LINK has claimed is not released.
  pub loop_lost :
      (polls : ℕ) (s : VxiServer N H)
      → N.client s.connection.world ≡ true
      → N.connected s.connection.world ≡ false
      → InRange s.vxi_port
      → (t : VxiServer N H) × (loop polls s ≡ done tt t) × (t.scpi ≡ s.scpi) × InRange t.vxi_port
  unfolding loop begin_next begin
  loop_lost polls s client lost r =
      (begin_next s, rw (client, lost) refl, begin_next-scpi s, in_range)
    where
      in_range : InRange (begin_next s).vxi_port
      in_range = elim (Bool-cases (is_noncyclic s.vxi_port)) [
        | inl one ↦ rw one r
        | inr many ↦ rw many (goto_next-InRange s.vxi_port r)
      ]
