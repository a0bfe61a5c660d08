-- ===== src/Vxi/Server/Overrun.antt =====
-- Where the server leaves its buffers: the lengths that it takes from a request without a check, and the
-- end of the string that `read` copies.
use riden_dongle.Base.{
  ℕ, ◌+◌, ◌%◌, ◌^◌, ◌≤◌, ◌<◌, ◌≡◌, refl, ◌∙◌, ap, sym, ◌⊎◌, inl, inr, true, false, length, ltb,
  ltb→lt, leb, ◌||◌, ◌==◌, if◌then◌else◌, Bool-cases, arith,
}
use riden_dongle.Base.Memory.{slice, updates, find_nul-cases, length-slice}
use riden_dongle.Vxi.Words.{get_word, set_word}
use riden_dongle.Vxi.Net.{Net, Handler, done, overrun, return, bind-done, bind-overrun}
use riden_dongle.Vxi.Transport.{touch}
use riden_dongle.Vxi.Server.{
  VxiServer, trim, create_link, read, write, handle_packet, answer_create, check_last, copy_until,
  copy_string, store_byte, send,
}
use riden_dongle.Vxi.Protocol.{
  Command, link, query, submit, unlink, refused, command_of, right_trim, slice-trim,
}
use riden_dongle.Vxi.Server.Dispatch.{dispatch}

-- A query for which no zero byte stands in the first 216 bytes of what `strcpy` reads: the bytes of the
-- SCPI handler and, behind them, what the stack holds.
abbrev pub Unended : {N : Net} {H : Handler} → Command → VxiServer N H → Type 0
Unended {N} {H} query s = (i : ℕ) → i < 216 → 0 < updates s.outbuffer 0 (H.read 256 s.scpi).0 i
Unended link s = ⊥
Unended (submit bytes n) s = ⊥
Unended unlink s = ⊥
Unended (refused rc) s = ⊥

-- A link that is granted and whose name has more than 195 bytes; a query without an end; a write of more
-- than 192 bytes, or of 192 without white space at their end.
abbrev pub Exceeds : {N : Net} {H : Handler} → Command → VxiServer N H → Type 0
Exceeds {N} {H} link s =
    ((H.claim_control s.scpi).0 ≡ true) × (195 < get_word s.connection.read_buffer 56)
Exceeds query s = Unended query s
Exceeds (submit bytes n) s = (192 < n) ⊎ (length bytes ≡ 192)
Exceeds unlink s = ⊥
Exceeds (refused rc) s = ⊥

-- The four words of a read response.
abbrev pub read_words : (ℕ → ℕ) → ℕ → ℕ → ℕ
read_words b n = set_word (set_word (set_word (set_word b 24 0) 28 0) 32 4) 36 (n % 2 ^ 32)

-- The object of `read` before the string is copied.
abbrev pub queried : {N : Net} {H : Handler} → VxiServer N H → VxiServer N H
queried {N} {H} s = record s {
  scpi = (H.read 256 s.scpi).1;
  outbuffer = updates s.outbuffer 0 (H.read 256 s.scpi).0;
  connection = record s.connection {
    send_buffer = read_words s.connection.send_buffer (length (H.read 256 s.scpi).0);
  };
}

module _ {N : Net} {H : Handler} (polls : ℕ) (s : VxiServer N H) where
  store_byte-overrun : (at v : ℕ) (t : VxiServer N H) → 252 ≤ at → store_byte at v t ≡ overrun
  store_byte-overrun at v t h =
      bind-overrun (touch 256 (4 + at)) _ t (λ i. if outside i then done tt t else overrun)
    where
      outside : ltb (4 + at) 256 ≡ false
      outside = ground arith

  create_link-overrun :
      (H.claim_control s.scpi).0 ≡ true
      → 195 < get_word s.connection.read_buffer 56
      → create_link polls s ≡ overrun
  unfolding create_link
  create_link-overrun claimed long =
      (λ i. answer_create polls (claimed i) claimed_state)
      ∙ bind-overrun (store_byte (56 + get_word s.connection.read_buffer 56) 0) _ claimed_state (
          store_byte-overrun (56 + get_word s.connection.read_buffer 56) 0 claimed_state
            (omega arith))
    where
      claimed_state : VxiServer N H
      claimed_state = record s { scpi = (H.claim_control s.scpi).1 }

  write-overrun :
      let n = get_word s.connection.read_buffer 60 in
      (192 < n) ⊎ (length (right_trim (slice s.connection.read_buffer 64 n)) ≡ 192)
      → write polls s ≡ overrun
  unfolding write
  write-overrun h =
      let n = get_word s.connection.read_buffer 60 in
      elim (Bool-cases (leb (4 + (60 + n)) 256 || (n == 0))) [
        | inr outside ↦
            bind-overrun (check_last n) _ s (λ i. if outside i then done tt s else overrun)
        | inl inside ↦
            let few : n ≤ 192 = ground arith in
            bind-done (check_last n) _ s (λ i. if inside i then done tt s else overrun)
            ∙ bind-overrun (store_byte (60 + trim s.connection.read_buffer 64 n) 0) _ s
                (store_byte-overrun (60 + trim s.connection.read_buffer 64 n) 0 s (reaches n few h))
      ]
    where
      reaches :
          (n : ℕ)
          → n ≤ 192
          → (192 < n) ⊎ (length (right_trim (slice s.connection.read_buffer 64 n)) ≡ 192)
          → 252 ≤ 60 + trim s.connection.read_buffer 64 n
      reaches n few h = elim h [
        | inl many ↦ absurd (omega arith)
        | inr all_kept ↦
            let kept : trim s.connection.read_buffer 64 n ≡ 192 =
              sym (length-slice s.connection.read_buffer 64 (trim s.connection.read_buffer 64 n))
              ∙ ap length (slice-trim s.connection.read_buffer 64 n)
              ∙ all_kept in
            omega arith
      ]

  copy_string-overrun :
      (t : VxiServer N H) → ((i : ℕ) → i < 216 → 0 < t.outbuffer i) → copy_string t ≡ overrun
  copy_string-overrun t full = elim (find_nul-cases t.outbuffer 0 256) [
    | inr (missing, before) ↦ ap (λ o. copy_until o t) missing
    | inl (k, found, nul, before) ↦
        ap (λ o. copy_until o t) found ∙ elim (Bool-cases (ltb (40 + k) 256)) [
          | inr outside ↦ rw outside refl
          | inl inside ↦
              let near : 40 + k < 256 = ltb→lt (40 + k) 256 inside in
              let small : k < 216 = omega arith in
              let pos : 0 < t.outbuffer k = full k small in absurd (omega arith)
        ]
  ]

  pub read-overrun : Unended query s → read polls s ≡ overrun
  unfolding read
  read-overrun full =
      bind-overrun copy_string (λ _. send polls (36 + length (H.read 256 s.scpi).0)) (queried s)
        (copy_string-overrun (queried s) full)

  -- A request that exceeds the buffers makes `handle_packet` access memory behind them, whatever the rest
  -- of the packet is: a CREATE_LINK that is granted control and says that its name has more than 195 bytes;
  -- a DEV_WRITE that says it has more than 192 bytes, or has 192 of which the last is no white space; and
  -- a DEV_READ for which neither the bytes of the SCPI handler nor the stack behind them have a zero
  -- byte among the first 216.
  pub unchecked_lengths :
      Exceeds (command_of s.connection.read_buffer) s → handle_packet polls s ≡ overrun
  unchecked_lengths =
      dispatch polls s (λ c r. Exceeds c s → r ≡ overrun)
        (λ (claimed, long).
          bind-overrun (create_link polls) (λ _. return false) s (create_link-overrun claimed long))
        (λ full. bind-overrun (read polls) (λ _. return false) s (read-overrun full))
        (λ h. bind-overrun (write polls) (λ _. return false) s (write-overrun h)) (λ h. absurd h)
        (λ rc h. absurd h)
