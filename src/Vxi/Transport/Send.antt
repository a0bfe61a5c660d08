-- ===== src/Vxi/Transport/Send.antt =====
-- What `send_packet` puts on the wire.
use riden_dongle.Base.{
  ℕ, zero, suc, ◌+◌, ◌%◌, ◌^◌, ◌≤◌, ◌<◌, ◌≡◌, refl, ◌∙◌, ap, sym, ◌⊎◌, inl, inr, true, false, List,
  replicate, ltb, ◌==◌, if◌then◌else◌, arith,
}
use riden_dongle.Base.Memory.{slice, update, updates}
use riden_dongle.Vxi.Words.{get_word, set_word}
use riden_dongle.Vxi.Net.{Net, Run, done, overrun, bind-done}
use riden_dongle.Vxi.Transport.{
  Connection, packet, touch, pad, wait_writable, send_packet, fill_response_header,
}
use riden_dongle.Vxi.Transport.Frame.{padding, frame, frame-slice}

-- The client is found writable within so many polls, which lead to the second world.
abbrev pub Polls : (N : Net) → ℕ → N.World → N.World → Type 0
Polls N zero w w' = ⊥
Polls N (suc k) w w' =
    ((0 < (N.available_for_write w).0) × (w' ≡ (N.available_for_write w).1))
    ⊎ (((N.available_for_write w).0 ≡ 0) × Polls N k (N.available_for_write w).1 w')

module _ {N : Net} where
  wait_writable-Polls :
      (k : ℕ) (s : Connection N) (w' : N.World)
      → Polls N k s.world w'
      → wait_writable N k s ≡ done tt (record s { world = w' })
  unfolding wait_writable
  wait_writable-Polls zero s w' h = absurd h
  wait_writable-Polls (suc k) s w' (inl (room, e)) =
      rw full (ap (λ w. done tt (record s { world = w })) (sym e))
    where
      full : ((N.available_for_write s.world).0 == 0) ≡ false
      full = ground arith
  wait_writable-Polls (suc k) s w' (inr (none, h)) =
      rw empty (wait_writable-Polls k (record s { world = (N.available_for_write s.world).1 }) w' h)
    where
      empty : ((N.available_for_write s.world).0 == 0) ≡ true
      empty = ground arith

  -- The state after `k` rounds of the padding loop from `len` on.
  abbrev padded : ℕ → ℕ → Connection N → Connection N
  padded len k s = record s { send_buffer = updates s.send_buffer (packet len) (replicate k 0) }

  pad_round :
      (size fuel len : ℕ) (s : Connection N)
      → (len % 4 == 0) ≡ false
      → 4 + len < size
      → pad N (suc fuel) size len s ≡ pad N fuel size (len + 1) (padded len 1 s)
  unfolding pad
  pad_round size fuel len s more room = rw (more, inside) refl
    where
      inside : ltb (4 + len) size ≡ true
      inside = ground arith

  pad_end :
      (size fuel len : ℕ) (s : Connection N)
      → (len % 4 == 0) ≡ true
      → pad N fuel size len s ≡ done len s
  unfolding pad
  pad_end size zero len s e = rw e refl
  pad_end size (suc fuel) len s e = rw e refl

  pad_rounds :
      (size k fuel len : ℕ) (s : Connection N)
      → padding len ≡ k
      → k ≤ fuel
      → 4 + len + k ≤ size
      → pad N fuel size len s ≡ done (len + k) (padded len k s)
  pad_rounds size zero fuel len s e le room =
      pad_end size fuel len s full ∙ ap (λ n. done n s) (omega arith)
    where
      full : (len % 4 == 0) ≡ true
      full = ground arith
  pad_rounds size (suc k) zero len s e le room = absurd (omega arith)
  pad_rounds size (suc k) (suc fuel) len s e le room =
      pad_round size fuel len s more (omega arith)
      ∙ pad_rounds size k fuel (len + 1) (padded len 1 s) (omega arith) (omega arith) (omega arith)
      ∙ ap (λ n. done n (at (4 + (len + 1)))) (omega arith)
      ∙ ap (λ i. done (len + suc k) (at i)) (omega arith)
    where
      more : (len % 4 == 0) ≡ false
      more = ground arith

      at : ℕ → Connection N
      at i = record s { send_buffer = updates (update s.send_buffer (4 + len) 0) i (replicate k 0) }

  -- Three rounds are enough, and none leaves the buffer where the whole frame fits.
  pad_lem :
      (size len : ℕ) (s : Connection N)
      → 4 + len + padding len ≤ size
      → pad N 3 size len s ≡ done (len + padding len) (padded len (padding len) s)
  pad_lem size len s h = pad_rounds size (padding len) 3 len s refl (omega arith) h

module _ {N : Net} where
  -- What a response of `20 + m` bytes sends, and the object after it.
  abbrev pub Sends : ℕ → ℕ → Connection N → N.World → Run (Connection N) (Unit {0}) → Type 0
  Sends xid m s w' o =
      (b : ℕ → ℕ) × (o
        ≡ done tt (record s {
          send_buffer = b;
          world = N.flush (N.write (frame xid (slice s.send_buffer 24 m)) w');
        }))

  -- With a client that is found writable, and a frame that fits the buffer, `send_packet` returns
  -- without leaving the buffer: it writes one frame with the transaction of the request in the read
  -- buffer and the body in the send buffer, flushes, and leaves the read buffer alone.
  pub send_packet_lem :
      (polls size m : ℕ) (s : Connection N) (w' : N.World)
      → 24 + m + padding (20 + m) ≤ size
      → m ≤ 2 ^ 30
      → Polls N polls s.world w'
      → Sends (get_word s.read_buffer 4) m s w' (send_packet N polls size (20 + m) s)
  unfolding send_packet
  send_packet_lem polls size m s w' room h p = (
    b,
    bind-done (pad N 3 size (20 + m)) _ s₁ (pad_lem size (20 + m) s₁ (omega arith))
        ∙ bind-done (wait_writable N polls) _ _
            (wait_writable-Polls polls (record s₁ { send_buffer = b }) w' p)
        ∙ bind-done (touch size (20 + m + k + 3)) _ (record s₁ { send_buffer = b; world = w' })
            (λ i. if inside i then done tt (record s₁ { send_buffer = b; world = w' }) else overrun)
        ∙ ap (λ bytes. done tt (sent bytes))
            (ap
                (λ j.
                  slice (set_word (updates s₁.send_buffer j (replicate k 0)) 0 first) 0
                    (20 + m + k + 4))
                (omega arith)
              ∙ frame-slice s.send_buffer xid m h),
  )
    where
      xid : ℕ
      xid = get_word s.read_buffer 4

      k : ℕ
      k = padding (20 + m)

      s₁ : Connection N
      s₁ = record s { send_buffer = fill_response_header xid s.send_buffer }

      first : ℕ
      first = 2 ^ 31 + (20 + m + k) % 2 ^ 31

      b : ℕ → ℕ
      b = set_word (padded (20 + m) k s₁).send_buffer 0 first

      sent : List ℕ → Connection N
      sent bytes = record s { send_buffer = b; world = N.flush (N.write bytes w') }

      inside : ltb (20 + m + k + 3) size ≡ true
      inside = ground arith
