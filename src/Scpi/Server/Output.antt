-- ===== src/Scpi/Server/Output.antt =====
-- What a result leaves in the output buffer, and what `read` then gives.
use mathlib.Core.List.{append-nil, append_assoc}
use riden_dongle.Base.{
  ℕ, ◌+◌, ◌≤◌, ◌<◌, ◌≡◌, refl, ◌∙◌, ap, sym, ◌⊎◌, inl, inr, Bool, true, false, Bool-cases, List, [],
  ◌∷◌, ◌++◌, length, length-append, some, none, ltb, leb, if◌then◌else◌, arith,
}
use riden_dongle.Base.Memory.{
  slice, updates, slice-append, slice-ext, slice-updates, updates_outside,
}
use riden_dongle.Vxi.Net.{done, overrun, Act, ◌>>◌, bind-done, bind-overrun, modify}
use riden_dongle.Scpi.Server.{Socket, RidenScpi, scpi_write, scpi_flush, read}

abbrev pub concat : List (List ℕ) → List ℕ
concat [] = []
concat (bytes ∷ parts) = bytes ++ concat parts

le_or_lt : (m n : ℕ) → (m ≤ n) ⊎ (n < m)
le_or_lt m n = omega arith

lt_false : (m n : ℕ) → n ≤ m → ltb m n ≡ false
lt_false m n h = ground arith

module _ {S : Socket} {D : Type 0} where
  -- The parts of a result, one after the other.
  abbrev pub write_all : List (List ℕ) → Act (RidenScpi S D) (Unit {0})
  write_all [] s = done tt s
  write_all (bytes ∷ parts) s = (scpi_write bytes >> write_all parts) s

  abbrev content : RidenScpi S D → List ℕ
  content s = slice s.write_buffer 0 s.write_buffer_length

  -- The object after a result of these parts.
  record Holds (s t : RidenScpi S D) (parts : List (List ℕ)) : Type 0 where
    bytes : content t ≡ content s ++ concat parts
    size : t.write_buffer_length ≡ s.write_buffer_length + length (concat parts)
    control : t.external_control ≡ s.external_control
    kept : t.world ≡ s.world

  scpi_write_lem :
      (bytes : List ℕ) (s : RidenScpi S D)
      → s.write_buffer_length + length bytes ≤ 256
      → (t : RidenScpi S D) × (scpi_write bytes s ≡ done tt t)
        × (content t ≡ content s ++ bytes)
        × (t.write_buffer_length ≡ s.write_buffer_length + length bytes)
        × (t.external_control ≡ s.external_control)
        × (t.world ≡ s.world)
  unfolding scpi_write
  scpi_write_lem bytes s h =
      (t, (λ i. if inside i then done tt t else overrun), appended, refl, refl, refl)
    where
      t : RidenScpi S D
      t = record s {
        external_output_ready = false;
        write_buffer = updates s.write_buffer s.write_buffer_length bytes;
        write_buffer_length = s.write_buffer_length + length bytes;
      }

      inside : leb (s.write_buffer_length + length bytes) 256 ≡ true
      inside = ground arith

      appended : slice t.write_buffer 0 t.write_buffer_length ≡ content s ++ bytes
      appended =
          sym (slice-append t.write_buffer 0 s.write_buffer_length (length bytes))
          ∙ ap (λ xs. xs ++ slice t.write_buffer (0 + s.write_buffer_length) (length bytes))
              (slice-ext t.write_buffer s.write_buffer 0 s.write_buffer_length (λ i lo hi.
                updates_outside s.write_buffer s.write_buffer_length bytes i (omega arith)))
          ∙ ap (λ xs. content s ++ xs)
              (ap (λ a. slice t.write_buffer a (length bytes)) {y = s.write_buffer_length}
                  (omega arith)
                ∙ slice-updates s.write_buffer s.write_buffer_length bytes)

  scpi_write-overrun :
      (bytes : List ℕ) (s : RidenScpi S D)
      → 256 < s.write_buffer_length + length bytes
      → scpi_write bytes s ≡ overrun
  unfolding scpi_write
  scpi_write-overrun bytes s h = rw outside refl
    where
      outside : leb (s.write_buffer_length + length bytes) 256 ≡ false
      outside = ground arith

  write_all-Holds :
      (parts : List (List ℕ)) (s : RidenScpi S D)
      → s.write_buffer_length + length (concat parts) ≤ 256
      → (t : RidenScpi S D) × (write_all parts s ≡ done tt t) × Holds s t parts
  write_all-Holds [] s h = (
    s,
    refl,
    record {
      bytes = sym (append-nil (content s));
      size = omega arith;
      control = refl;
      kept = refl;
    },
  )
  write_all-Holds (bytes ∷ parts) s h =
      let total = length-append bytes (concat parts) in
      let (t, run, bytes_t, size, control, kept) = scpi_write_lem bytes s (omega (arith, total)) in
      let (u, runs, holds) = write_all-Holds parts t (omega (arith, total, size)) in
      (
        u,
        bind-done (scpi_write bytes) (λ _. write_all parts) s run ∙ runs,
        record {
          bytes =
              holds.bytes
              ∙ ap (λ xs. xs ++ concat parts) bytes_t
              ∙ append_assoc (content s) bytes (concat parts);
          size = omega (arith, holds.size, size, total);
          control = holds.control ∙ control;
          kept = holds.kept ∙ kept;
        },
      )

  write_all-overrun :
      (parts : List (List ℕ)) (s : RidenScpi S D)
      → s.write_buffer_length ≤ 256
      → 256 < s.write_buffer_length + length (concat parts)
      → write_all parts s ≡ overrun
  write_all-overrun [] s small h = absurd (omega arith)
  write_all-overrun (bytes ∷ parts) s small h =
      let total = length-append bytes (concat parts) in
      elim (le_or_lt (s.write_buffer_length + length bytes) 256) [
        | inr over ↦
            bind-overrun (scpi_write bytes) (λ _. write_all parts) s
              (scpi_write-overrun bytes s over)
        | inl le ↦
            let (t, run, bytes_t, size, control, kept) = scpi_write_lem bytes s le in
            bind-done (scpi_write bytes) (λ _. write_all parts) s run
            ∙ write_all-overrun parts t (omega (arith, size)) (omega (arith, size, total))
      ]

  -- Where a flushed result goes: to the reader under external control, else to the client.
  abbrev pub Delivered : Bool → List ℕ → ℕ → RidenScpi S D → RidenScpi S D → Type 0
  Delivered true bytes max_len s t =
      ((read max_len t).0 ≡ some bytes)
      × ((read max_len t).1.write_buffer_length ≡ 0)
      × (t.world ≡ s.world)
  Delivered false bytes max_len s t =
      ((read max_len t).0 ≡ none)
      × (t.write_buffer_length ≡ 0)
      × (t.world ≡ S.flush (S.write bytes s.world))

  flush-Delivered :
      (parts : List (List ℕ)) (max_len : ℕ) (s t : RidenScpi S D)
      → s.write_buffer_length ≡ 0
      → length (concat parts) ≤ max_len
      → S.client s.world ≡ true
      → Holds s t parts
      → Delivered s.external_control (concat parts) max_len s (scpi_flush t)
  unfolding scpi_flush read
  flush-Delivered parts max_len s t empty fits client holds = elim (Bool-cases s.external_control) [
    | inl external ↦
        let control = holds.control ∙ external in
        rw (external, control, short) (ap some whole, refl, holds.kept)
    | inr raw ↦
        let control = holds.control ∙ raw in
        rw (raw, control, ap S.client holds.kept ∙ client)
          (refl, refl, λ i. S.flush (S.write (whole i) (holds.kept i)))
  ]
    where
      short : ltb max_len t.write_buffer_length ≡ false
      short = lt_false max_len t.write_buffer_length (omega (arith, holds.size))

      whole : content t ≡ concat parts
      whole = holds.bytes ∙ ap (λ n. slice s.write_buffer 0 n ++ concat parts) empty

  -- A result written in any parts to an empty output buffer, and flushed. Under external control,
  -- a read of at least its length gives its bytes in order and empties the buffer; otherwise the
  -- client is sent them at once, and the buffer is empty again. A result of more than 256 bytes in
  -- all makes the object write behind its buffer, wherever it is split.
  pub result_lem :
      (parts : List (List ℕ)) (max_len : ℕ) (s : RidenScpi S D)
      → s.write_buffer_length ≡ 0
      → length (concat parts) ≤ max_len
      → S.client s.world ≡ true
      → ((length (concat parts) ≤ 256)
          × (t : RidenScpi S D) × ((write_all parts >> modify scpi_flush) s ≡ done tt t)
          × Delivered s.external_control (concat parts) max_len s t)
        ⊎ ((256 < length (concat parts)) × (write_all parts s ≡ overrun))
  result_lem parts max_len s empty fits client = elim (le_or_lt (length (concat parts)) 256) [
    | inl le ↦
        let (t, run, holds) = write_all-Holds parts s (omega arith) in
        inl (
          le,
          scpi_flush t,
          bind-done (write_all parts) (λ _. modify scpi_flush) s run,
          flush-Delivered parts max_len s t empty fits client holds,
        )
    | inr over ↦ inr (over, write_all-overrun parts s (omega arith) (omega arith))
  ]
