-- ===== src/Vxi/Server/Queries.antt =====
-- DEV_READ: the reply to a query whose string ends in time.
use riden_dongle.Base.{
  ℕ, ◌+◌, ◌-◌, ◌≤◌, ◌<◌, ◌≡◌, refl, ◌∙◌, ap, sym, ◌⊎◌, inl, inr, true, List, [], ◌∷◌, ◌++◌, length,
  some, ltb, lt→ltb, ltb→lt, if◌then◌else◌, Bool-cases, arith,
}
use riden_dongle.Base.Memory.{
  slice, updates, slice-append, slice-ext, slice-updates, slice-updates_append, updates_outside,
  find_nul, find_nul-cases, NoNul, NoNul-updates,
}
use riden_dongle.Vxi.Words.{htonl, set_word}
use riden_dongle.Vxi.Net.{Net, Handler, done, overrun, bind-done}
use riden_dongle.Vxi.Transport.Send.{Polls}
use riden_dongle.Vxi.Server.{VxiServer, send, read, copy_until, copy_string}
use riden_dongle.Vxi.Protocol.{query, words, answer}
use riden_dongle.Vxi.Server.Overrun.{Unended, read_words, queried}
use riden_dongle.Vxi.Server.Replies.{Replies, send-Replies, Replies-from, Replies-body}

-- What goes out is the bytes themselves, where the string that `strcpy` copies ends behind them.
read-slice :
    (b o : ℕ → ℕ) (bytes : List ℕ) (k : ℕ)
    → length bytes ≤ 215
    → length bytes ≤ k
    → slice
        (updates (read_words b (length bytes)) 40 (slice (updates o 0 bytes) 0 (k + 1)))
        24
        (16 + length bytes)
      ≡ words (0 ∷ 0 ∷ 4 ∷ length bytes ∷ []) ++ bytes
unfolding set_word htonl
read-slice b o bytes k h behind =
    sym (slice-append copied 24 16 n)
    ∙ ap (λ x. x ++ slice copied 40 n)
        (slice-ext copied (read_words b n) 24 16 (λ i lo hi.
            updates_outside (read_words b n) 40 (slice filled 0 (k + 1)) i (inl (omega arith)))
          ∙ ap (λ v. htonl 0 ++ htonl 0 ++ htonl 4 ++ htonl v) {y = n} (omega arith))
    ∙ ap (λ x. words (0 ∷ 0 ∷ 4 ∷ n ∷ []) ++ x)
        (ap (λ x. slice (updates (read_words b n) 40 x) 40 n) split
          ∙ slice-updates_append (read_words b n) 40 bytes (slice filled (0 + n) (k + 1 - n)))
  where
    n : ℕ
    n = length bytes

    filled : ℕ → ℕ
    filled = updates o 0 bytes

    copied : ℕ → ℕ
    copied = updates (read_words b n) 40 (slice filled 0 (k + 1))

    split : slice filled 0 (k + 1) ≡ bytes ++ slice filled (0 + n) (k + 1 - n)
    split =
        ap (slice filled 0) {y = n + (k + 1 - n)} (omega arith)
        ∙ sym (slice-append filled 0 n (k + 1 - n))
        ∙ ap (λ x. x ++ slice filled (0 + n) (k + 1 - n)) (slice-updates o 0 bytes)

module _ {N : Net} {H : Handler} (polls : ℕ) (s : VxiServer N H) (w' : N.World)
    (p : Polls N polls s.connection.world w') where
  -- The string that is copied ends behind the bytes of the handler and within the send buffer.
  read-Replies :
      (k : ℕ)
      → let bytes = (H.read 256 s.scpi).0 in
        length bytes ≤ k
        → k ≤ 215
        → find_nul (updates s.outbuffer 0 bytes) 0 256 ≡ some k
        → Replies s (read polls s) tt (answer H query s.scpi).0 (answer H query s.scpi).1 w'
  unfolding read set_word htonl
  read-Replies k behind within ends =
      Replies-body s tt (H.read 256 s.scpi).1 w'
        (read-slice s.connection.send_buffer s.outbuffer (H.read 256 s.scpi).0 k (omega arith)
          behind)
        (Replies-from s tt _ (H.read 256 s.scpi).1 w'
          (bind-done copy_string _ (queried s) copied
            ∙ ap (λ j. send polls j (with_string (queried s))) (omega arith))
          (send-Replies polls (16 + length (H.read 256 s.scpi).0) (with_string (queried s)) s w'
            (omega arith) refl refl p))
    where
      with_string : VxiServer N H → VxiServer N H
      with_string t = record t {
        connection = record t.connection {
          send_buffer = updates t.connection.send_buffer 40 (slice t.outbuffer 0 (k + 1));
        };
      }

      copied : copy_string (queried s) ≡ done tt (with_string (queried s))
      copied =
          ap (λ o. copy_until o (queried s)) ends
          ∙ (λ i. if inside i then done tt (with_string (queried s)) else overrun)
        where
          inside : ltb (40 + k) 256 ≡ true
          inside = lt→ltb (40 + k) 256 (omega (arith, within))

  -- A query whose bytes fit is answered, or the string behind them does not end in time.
  pub query-Replies :
      length (H.read 256 s.scpi).0 ≤ 215
      → NoNul (H.read 256 s.scpi).0
      → Replies s (read polls s) tt (answer H query s.scpi).0 (answer H query s.scpi).1 w'
        ⊎ Unended query s
  query-Replies short full =
      let bytes = (H.read 256 s.scpi).0 in
      elim (find_nul-cases (updates s.outbuffer 0 bytes) 0 256) [
        | inr (missing, before) ↦ inr (λ i hi. before i (omega arith) (omega arith))
        | inl (k, found, nul, before) ↦ elim (Bool-cases (ltb k 216)) [
          | inl near ↦
              let within : k < 216 = ltb→lt k 216 near in
              inl (read-Replies k (behind k nul) (omega arith) found)
          | inr far ↦ inr (λ i hi. before i (omega arith) (ground arith))
        ]
      ]
    where
      behind :
          (k : ℕ)
          → updates s.outbuffer 0 (H.read 256 s.scpi).0 k ≡ 0
          → length (H.read 256 s.scpi).0 ≤ k
      behind k nul = elim (Bool-cases (ltb k (length (H.read 256 s.scpi).0))) [
        | inr past ↦ ground arith
        | inl early ↦
            let before_end : k < length (H.read 256 s.scpi).0 = ltb→lt k _ early in
            let pos : 0 < updates s.outbuffer 0 (H.read 256 s.scpi).0 k =
              NoNul-updates s.outbuffer 0 (H.read 256 s.scpi).0 k full (omega arith)
                (omega arith) in
            absurd (omega arith)
      ]
