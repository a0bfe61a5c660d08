-- ===== src/Scpi/Server/Input.antt =====
-- How the socket's bytes become lines for the parser.
use riden_dongle.Base.{
  ℕ, zero, suc, ◌+◌, ◌-◌, ◌≤◌, ◌<◌, ◌≡◌, refl, ◌∙◌, ap, ◌≢◌, inl, inr, false, Bool-cases, List, [],
  ◌∷◌, length, Option, some, none, leb, ◌==◌, arith,
}
use riden_dongle.Base.Memory.{updates}
use riden_dongle.Vxi.Net.{done, waiting, Act}
use riden_dongle.Scpi.Server.{Socket, RidenScpi, read_line, line_round, overflow}

-- The client brings these bytes one by one, and is in the second world then.
abbrev pub Brings : (S : Socket) → List ℕ → S.World → S.World → Type 0
Brings S [] w w' = w ≡ w'
Brings S (b ∷ bytes) w w' = ((S.read_byte w).0 ≡ some b) × Brings S bytes (S.read_byte w).1 w'

-- None of the bytes is a line feed.
abbrev pub OneLine : List ℕ → Type 0
OneLine [] = Unit {0}
OneLine (b ∷ bytes) = ((b == 10) ≡ false) × OneLine bytes

full : (p : ℕ) → p < 256 → leb 256 p ≡ false
full p h = ground arith

module _ {S : Socket} {D : Type 0} (scpi_input : Act (RidenScpi S D) (Unit {0})) where
  -- The object once these bytes have been put behind what the input buffer holds.
  abbrev pub inserted : List ℕ → S.World → RidenScpi S D → RidenScpi S D
  inserted bytes w s = record s {
    input = updates s.input s.position bytes;
    position = s.position + length bytes;
    input_length = s.input_length + length bytes;
    world = w;
  }

  first_byte :
      (fuel b : ℕ) (s : RidenScpi S D)
      → (S.read_byte s.world).0 ≡ some b
      → s.position < 256
      → (b == 10) ≡ false
      → read_line scpi_input (suc fuel) s
        ≡ read_line scpi_input fuel (inserted (b ∷ []) (S.read_byte s.world).1 s)
  unfolding read_line
  first_byte fuel b s brings room other =
      ap (λ o. line_round scpi_input (read_line scpi_input fuel) (o, (S.read_byte s.world).1) s)
        brings
      ∙ rw (full s.position room, other) refl

  move : (p n : ℕ) → p + 1 + n ≡ p + suc n
  move p n = omega arith

  inserted-cons :
      (b : ℕ) (bytes : List ℕ) (w w' : S.World) (s : RidenScpi S D)
      → inserted bytes w' (inserted (b ∷ []) w s) ≡ inserted (b ∷ bytes) w' s
  inserted-cons b bytes w w' s = λ i. record (inserted (b ∷ bytes) w' s) {
    position = move s.position (length bytes) i;
    input_length = move s.input_length (length bytes) i;
  }

  -- Bytes that are no line feed and fit the buffer are put behind what it holds, and the loop goes on.
  bytes_lem :
      (bytes : List ℕ) (fuel : ℕ) (s : RidenScpi S D) (w' : S.World)
      → OneLine bytes
      → s.position + length bytes ≤ 256
      → Brings S bytes s.world w'
      → read_line scpi_input (length bytes + fuel) s
        ≡ read_line scpi_input fuel (inserted bytes w' s)
  bytes_lem [] fuel s w' one room brings = λ i. read_line scpi_input (rounds i) (record s {
    position = back s.position i;
    input_length = back s.input_length i;
    world = brings i;
  })
    where
      rounds : 0 + fuel ≡ fuel
      rounds = omega arith

      back : (n : ℕ) → n ≡ n + 0
      back n = omega arith
  bytes_lem (b ∷ bytes) fuel s w' (other, one) room (brings, more) =
      ap (λ n. read_line scpi_input n s) {y = suc (length bytes + fuel)} (omega arith)
      ∙ first_byte (length bytes + fuel) b s brings (omega arith) other
      ∙ bytes_lem bytes fuel (inserted (b ∷ []) (S.read_byte s.world).1 s) w' one (omega arith) more
      ∙ ap (read_line scpi_input fuel) (inserted-cons b bytes (S.read_byte s.world).1 w' s)

  -- A line that fits the buffer behind what it holds, and its line feed, are handed to the parser in
  -- one piece; 257 rounds of the loop are enough for it.
  pub line_lem :
      (line : List ℕ) (s : RidenScpi S D) (w : S.World)
      → OneLine line
      → s.position + length line < 256
      → Brings S line s.world w
      → (S.read_byte w).0 ≡ some 10
      → read_line scpi_input 257 s
        ≡ scpi_input (inserted (10 ∷ []) (S.read_byte w).1 (inserted line w s))
  unfolding read_line
  line_lem line s w one room brings feed =
      ap (λ n. read_line scpi_input n s) {x = 257} {y = length line + suc (256 - length line)}
        (omega arith)
      ∙ bytes_lem line (suc (256 - length line)) s w one (omega arith) brings
      ∙ ap
          (λ o.
            line_round scpi_input (read_line scpi_input (256 - length line)) (o, (S.read_byte w).1)
              (inserted line w s))
          feed
      ∙ rw (full (s.position + length line) room) refl

  -- Where 256 bytes have come without a line feed, the next byte empties the buffer and stops the
  -- client; nothing is handed to the parser.
  pub overflow_lem :
      (line : List ℕ) (b : ℕ) (s : RidenScpi S D) (w : S.World)
      → OneLine line
      → s.position + length line ≡ 256
      → Brings S line s.world w
      → (S.read_byte w).0 ≡ some b
      → (t : RidenScpi S D) × (read_line scpi_input 257 s ≡ done tt t)
        × (t.position ≡ 0)
        × (t.input_length ≡ 0)
        × (t.world ≡ S.stop (S.read_byte w).1)
  unfolding read_line
  overflow_lem line b s w one at_end brings next = (
    overflow scpi_input (record (inserted line w s) { world = (S.read_byte w).1 }),
    ap (λ n. read_line scpi_input n s) {x = 257} {y = length line + suc (256 - length line)}
          (omega arith)
        ∙ bytes_lem line (suc (256 - length line)) s w one (omega arith) brings
        ∙ ap
            (λ o.
              line_round scpi_input (read_line scpi_input (256 - length line))
                (o, (S.read_byte w).1) (inserted line w s))
            next
        ∙ rw at_end refl,
    refl,
    refl,
    refl,
  )

  round_returns :
      (more : Act (RidenScpi S D) (Unit {0})) (o : Option ℕ) (w : S.World) (s : RidenScpi S D)
      → ((t : RidenScpi S D) → scpi_input t ≢ waiting)
      → ((b : ℕ) → s.position < 256 → more (inserted (b ∷ []) w s) ≢ waiting)
      → line_round scpi_input more (o, w) s ≢ waiting
  round_returns more none w s parses goes_on = cc
  round_returns more (some b) w s parses goes_on = elim (Bool-cases (leb 256 s.position)) [
    | inl over ↦ rw over cc
    | inr room ↦ elim (Bool-cases (b == 10)) [
      | inl feed ↦ rw (room, feed) (parses (inserted (b ∷ []) w s))
      | inr other ↦ rw (room, other) (goes_on b (below s.position room))
    ]
  ]
    where
      below : (n : ℕ) → leb 256 n ≡ false → n < 256
      below n h = ground arith

  -- From a position within the buffer, as many rounds of the loop as lead past its end, so 257 in any
  -- case, are enough whatever the client brings, where the parser returns.
  pub read_line_returns :
      (fuel : ℕ) (s : RidenScpi S D)
      → ((t : RidenScpi S D) → scpi_input t ≢ waiting)
      → s.position ≤ 256
      → 256 < s.position + fuel
      → read_line scpi_input fuel s ≢ waiting
  unfolding read_line
  read_line_returns zero s parses small enough = absurd (omega arith)
  read_line_returns (suc fuel) s parses small enough =
      round_returns (read_line scpi_input fuel) (S.read_byte s.world).0 (S.read_byte s.world).1 s
        parses
        (λ b room.
          read_line_returns fuel (inserted (b ∷ []) (S.read_byte s.world).1 s) parses (omega arith)
            (omega arith))
