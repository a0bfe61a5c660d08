-- ===== src/Vxi/Server/Commands.antt =====
-- DEV_WRITE, and `handle_packet` as a whole.
use riden_dongle.Base.{
  ℕ, ◌+◌, ◌≤◌, ◌<◌, ◌≡◌, refl, ◌∙◌, ap, sym, ◌⊎◌, inl, inr, true, false, [], ◌∷◌, length, leb, ◌||◌,
  ◌==◌, if◌then◌else◌, arith,
}
use riden_dongle.Base.Memory.{slice, update, slice-ext, length-slice, NoNul}
use riden_dongle.Vxi.Words.{htonl, get_word, set_word}
use riden_dongle.Vxi.Net.{Net, Handler, done, overrun, return, bind-done, bind-overrun}
use riden_dongle.Vxi.Transport.Send.{Polls}
use riden_dongle.Vxi.Server.{
  VxiServer, trim, create_link, destroy_link, read, write, handle_packet, check_last,
}
use riden_dongle.Vxi.Protocol.{
  Command, link, query, submit, unlink, refused, command_of, words, answer, right_trim, slice-trim,
}
use riden_dongle.Vxi.Server.Dispatch.{dispatch}
use riden_dongle.Vxi.Server.Queries.{query-Replies}
use riden_dongle.Vxi.Server.Overrun.{Unended, read-overrun}
use riden_dongle.Vxi.Server.Replies.{
  Replies, send-Replies, Replies-from, Replies-return, store_byte-bind, xid-stored,
  create_link-Replies, destroy_link-Replies, refuse-Replies,
}

module _ {N : Net} {H : Handler} (polls : ℕ) (s : VxiServer N H) (w' : N.World)
    (p : Polls N polls s.connection.world w') where
  -- The bytes that the SCPI handler is given: the terminator comes after them.
  written :
      (len : ℕ)
      → slice (update s.connection.read_buffer (4 + (60 + len)) 0) 64 len
        ≡ slice s.connection.read_buffer 64 len
  written len =
      slice-ext (update s.connection.read_buffer (4 + (60 + len)) 0) s.connection.read_buffer 64 len
        (λ i lo hi. ground arith)

  -- The data and their terminator lie in the buffer.
  write-Replies :
      let n = get_word s.connection.read_buffer 60 in
      let command = submit (right_trim (slice s.connection.read_buffer 64 n)) n in
      n ≤ 192
      → length (right_trim (slice s.connection.read_buffer 64 n)) ≤ 191
      → Replies s (write polls s) tt (answer H command s.scpi).0 (answer H command s.scpi).1 w'
  unfolding write set_word htonl
  write-Replies h few =
      let n = get_word s.connection.read_buffer 60 in
      let len = trim s.connection.read_buffer 64 n in
      let (t, run, world, scpi, port) =
        Replies-from s tt (words (0 ∷ 0 ∷ n ∷ []))
          (H.write (slice (update s.connection.read_buffer (4 + (60 + len)) 0) 64 len) s.scpi) w'
          (bind-done (check_last n) _ s (checked n h)
            ∙ store_byte-bind (60 + len) 0 s _ (last n few))
          (send-Replies polls 12 _ s w' (omega arith) (xid-stored (60 + len) 0 s (omega arith)) refl
            p) in
      (
        t,
        run,
        world,
        scpi
            ∙ ap (λ bytes. H.write bytes s.scpi)
                (written len ∙ slice-trim s.connection.read_buffer 64 n),
        port,
      )
    where
      checked : (n : ℕ) → n ≤ 192 → check_last n s ≡ done tt s
      checked n h = λ i. if inside i then done tt s else overrun
        where
          inside : (leb (4 + (60 + n)) 256 || (n == 0)) ≡ true
          inside = ground arith

      last :
          (n : ℕ)
          → length (right_trim (slice s.connection.read_buffer 64 n)) ≤ 191
          → 4 + (60 + trim s.connection.read_buffer 64 n) < 256
      last n few =
          let kept : trim s.connection.read_buffer 64 n
              ≡ length (right_trim (slice s.connection.read_buffer 64 n)) =
            sym (length-slice s.connection.read_buffer 64 (trim s.connection.read_buffer 64 n))
            ∙ ap length (slice-trim s.connection.read_buffer 64 n) in
          omega arith

-- The name of a link that is granted has at most 195 bytes; what the SCPI handler reads has at most 215
-- bytes, none of them zero; a write names at most 192 bytes, of which at most 191 are left without the
-- white space at their end.
abbrev pub Fits : {N : Net} {H : Handler} → Command → VxiServer N H → Type 0
Fits {N} {H} link s =
    ((H.claim_control s.scpi).0 ≡ false) ⊎ (get_word s.connection.read_buffer 56 ≤ 195)
Fits {N} {H} query s = (length (H.read 256 s.scpi).0 ≤ 215) × NoNul (H.read 256 s.scpi).0
Fits (submit bytes n) s = (n ≤ 192) × (length bytes ≤ 191)
Fits unlink s = Unit {0}
Fits (refused rc) s = Unit {0}

-- A request that fits, from a client that is found writable: `handle_packet` answers it once, that is, it
-- runs to its end, writes one frame with the transaction of the request and the body that the protocol
-- names, leaves the SCPI handler as the protocol says and the port as it was, and closes exactly after
-- DESTROY_LINK; or the request is a DEV_READ for which the stack behind the bytes of the SCPI handler
-- has no zero byte up to byte 215, and `handle_packet` writes behind the send buffer.
pub handle_packet_lem :
    {N : Net} {H : Handler} (polls : ℕ) (s : VxiServer N H) (w' : N.World)
    → Polls N polls s.connection.world w'
    → Fits (command_of s.connection.read_buffer) s
    → let command = command_of s.connection.read_buffer in
      let (body, h, close) = answer H command s.scpi in
      Replies s (handle_packet polls s) close body h w'
      ⊎ (Unended command s × (handle_packet polls s ≡ overrun))
handle_packet_lem {N} {H} polls s w' p =
    dispatch polls s
      (λ c r.
        Fits c s
        → Replies s r (answer H c s.scpi).2 (answer H c s.scpi).0 (answer H c s.scpi).1 w'
          ⊎ (Unended c s × (r ≡ overrun)))
      (λ fits. inl (
        Replies-return s s (create_link polls) false (answer H link s.scpi).0
          (answer H link s.scpi).1 w' (create_link-Replies polls s w' p fits)))
      (λ (short, full). elim (query-Replies polls s w' p short full) [
        | inl replies ↦ inl (
            Replies-return s s (read polls) false (answer H query s.scpi).0
              (answer H query s.scpi).1 w' replies)
        | inr unended ↦ inr (
          unended,
          bind-overrun (read polls) (λ _. return false) s (read-overrun polls s unended),
        )
      ])
      (λ (few, kept).
        inl (Replies-return s s (write polls) false _ _ w' (write-Replies polls s w' p few kept)))
      (λ _. inl (
        Replies-return s s (destroy_link polls) true (answer H unlink s.scpi).0
          (answer H unlink s.scpi).1 w' (destroy_link-Replies polls s w' p)))
      (λ rc _. inl (refuse-Replies polls s w' p rc))
