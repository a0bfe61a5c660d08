-- ===== src/Vxi/Transport/Receive.antt =====
-- What `get_packet` leaves in the read buffer.
use riden_dongle.Base.{
  ℕ, ◌+◌, ◌-◌, ◌%◌, ◌^◌, ◌≤◌, ◌<◌, ◌≡◌, refl, ◌∙◌, ap, sym, ◌⊎◌, inl, inr, true, List, length, ltb,
  ltb→lt, ltb-false, Bool-cases, min, arith,
}
use riden_dongle.Base.Memory.{slice, updates, updates_outside, slice-updates}
use riden_dongle.Vxi.Words.{htonl, get_word, set_word, get_word-set_word}
use riden_dongle.Vxi.Net.{Net, done}
use riden_dongle.Vxi.Transport.{Connection, get_packet}

-- The read buffer once a frame of `n` bytes has come in whole.
abbrev pub received_buffer : (ℕ → ℕ) → ℕ → List ℕ → ℕ → ℕ
received_buffer b n bytes = updates (updates (set_word b 0 0) 0 (htonl (2 ^ 31 + n))) 4 bytes

-- The length that a prefix with its fragment bit set stands for.
prefix_length :
    (b : ℕ → ℕ) (n : ℕ) → n < 2 ^ 31 → get_word (updates b 0 (htonl (2 ^ 31 + n))) 0 % 2 ^ 31 ≡ n
unfolding set_word
prefix_length b n h = ap (λ v. v % 2 ^ 31) word ∙ omega arith
  where
    word : get_word (updates b 0 (htonl (2 ^ 31 + n))) 0 ≡ 2 ^ 31 + n
    word = get_word-set_word b 0 (2 ^ 31 + n) (omega arith)

module _ (N : Net) (size : ℕ) (s : Connection N) where
  -- What a call that returns `len` does: nothing at or beyond `size` is written; a length of at most 4
  -- leaves the packet of the request before in place, and any other fits the buffer.
  pub record Received (len : ℕ) (t : Connection N) : Type 0 where
    pub outside : (i : ℕ) → size ≤ i → t.read_buffer i ≡ s.read_buffer i
    pub sends : t.send_buffer ≡ s.send_buffer
    pub kept_or_fits :
        ((len ≤ 4) × ((i : ℕ) → 4 ≤ i → t.read_buffer i ≡ s.read_buffer i))
        ⊎ ((4 < len) × (len ≤ size - 4))

  -- The buffer once four bytes or less have come in behind a prefix that was cleared.
  prefixed : ℕ → ℕ
  prefixed = updates (set_word s.read_buffer 0 0) 0 (N.read_bytes 4 s.world).0

  prefixed_after :
      ((n : ℕ) (w : N.World) → length (N.read_bytes n w).0 ≤ n)
      → (i : ℕ) → 4 ≤ i
      → prefixed i ≡ s.read_buffer i
  unfolding prefixed set_word htonl
  prefixed_after bounded i h =
      updates_outside (updates s.read_buffer 0 (htonl 0)) 0 (N.read_bytes 4 s.world).0 i
        (inr (omega (arith, bounded 4 s.world)))
      ∙ updates_outside s.read_buffer 0 (htonl 0) i (inr (omega arith))

  -- Whatever the client sends, `get_packet` writes nothing outside of a buffer of `size` bytes, where
  -- `readBytes` brings no more than it is asked for.
  pub get_packet-Received :
      ((n : ℕ) (w : N.World) → length (N.read_bytes n w).0 ≤ n)
      → 8 < size
      → (len : ℕ) × (t : Connection N) × (get_packet N size s ≡ done len t) × Received len t
  unfolding get_packet prefixed
  get_packet-Received bounded room =
      let n = get_word prefixed 0 % 2 ^ 31 in
      let w = (N.read_bytes 4 s.world).1 in
      let bytes = (N.read_bytes (min n (size - 4)) w).0 in
      elim (Bool-cases (ltb 4 n)) [
        | inl long ↦ (
          min n (size - 4),
          record s {
            read_buffer = updates prefixed 4 bytes;
            world = (N.read_bytes (min n (size - 4)) w).1;
          },
          rw long,
          record {
            outside = λ i h.
                updates_outside prefixed 4 bytes i
                  (inr (omega (arith, bounded (min n (size - 4)) w)))
                ∙ prefixed_after bounded i (omega arith);
            sends = refl;
            kept_or_fits = inr (omega (arith, ltb→lt 4 n long), omega arith);
          },
        )
        | inr short ↦ (
          n,
          record s { read_buffer = prefixed; world = w },
          rw short,
          record {
            outside = λ i h. prefixed_after bounded i (omega arith);
            sends = refl;
            kept_or_fits = inl (ltb-false 4 n short, prefixed_after bounded);
          },
        )
      ]

  -- A frame whose prefix says `n`, with its fragment bit set, and whose `n` bytes then come in whole is
  -- received as it is.
  pub get_packet_whole :
      (n : ℕ) (bytes : List ℕ) (w w' : N.World)
      → 4 < n
      → n ≤ size - 4
      → size < 2 ^ 31
      → N.read_bytes 4 s.world ≡ (htonl (2 ^ 31 + n), w)
      → N.read_bytes n w ≡ (bytes, w')
      → length bytes ≡ n
      → let b = received_buffer s.read_buffer n bytes in
        (get_packet N size s ≡ done n (record s { read_buffer = b; world = w' }))
        × (slice b 4 n ≡ bytes)
  unfolding get_packet
  get_packet_whole n bytes w w' lo hi small first second whole = (
    rw (first, len, long, fits, second) refl,
    ap (slice (updates b 4 bytes) 4) (sym whole) ∙ slice-updates b 4 bytes,
  )
    where
      b : ℕ → ℕ
      b = updates (set_word s.read_buffer 0 0) 0 (htonl (2 ^ 31 + n))

      len : get_word (updates (set_word s.read_buffer 0 0) 0 (htonl (2 ^ 31 + n))) 0 % 2 ^ 31 ≡ n
      len = prefix_length (set_word s.read_buffer 0 0) n (omega arith)

      long : ltb 4 n ≡ true
      long = ground arith

      fits : min n (size - 4) ≡ n
      fits = omega arith
