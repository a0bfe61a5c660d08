-- ===== src/Vxi/Protocol.antt =====
-- What the VXI-11 server promises, without its buffers: the command that a request packet stands for,
-- and the answer to it.
use riden_dongle.Base.{
  ℕ, zero, suc, ◌+◌, ◌≡◌, refl, ◌∙◌, ap, sym, Bool, true, false, List, [], ◌∷◌, ◌++◌, length, ◌==◌,
  if◌then◌else◌, Bool-cases, inl, inr, arith,
}
use riden_dongle.Base.Memory.{slice, slice-append}
use riden_dongle.Vxi.Words.{htonl, get_word}
use riden_dongle.Vxi.Net.{Handler}
use riden_dongle.Vxi.Server.{isspace, trim}

-- A write names the length that came in.
pub data Command : Type 0 where
  link query unlink : Command
  submit : List ℕ → ℕ → Command
  refused : ℕ → Command

-- The bytes without the white space at their end.
abbrev pub trim_last : ℕ → List ℕ → List ℕ
trim_last c [] = if isspace c then [] else c ∷ []
trim_last c (y ∷ ys) = c ∷ y ∷ ys

abbrev pub right_trim : List ℕ → List ℕ
right_trim [] = []
right_trim (c ∷ cs) = trim_last c (right_trim cs)

-- The command in a request packet with its prefix; the program is VXI_11_CORE, and the statuses are
-- PROG_UNAVAIL and PROC_UNAVAIL.
abbrev pub command_of : (ℕ → ℕ) → Command
command_of b =
    let procedure = get_word b 24 in
    if get_word b 16 == 395183
    then if procedure == 10
      then link
      else if procedure == 12
      then query
      else if procedure == 11
      then submit (right_trim (slice b 64 (get_word b 60))) (get_word b 60)
      else if procedure == 23
      then unlink
      else refused 3
    else refused 1

abbrev pub words : List ℕ → List ℕ
words [] = []
words (v ∷ vs) = htonl v ++ words vs

-- The body of the reply, the handler after it, and whether the connection is closed.
abbrev pub answer : (H : Handler) → Command → H.State → List ℕ × H.State × Bool
answer H link h =
    let (claimed, h') = H.claim_control h in
    (words (if claimed then 0 ∷ 0 ∷ 0 ∷ 0 ∷ 252 ∷ [] else 0 ∷ 9 ∷ 0 ∷ 0 ∷ 0 ∷ []), h', false)
answer H query h =
    let (bytes, h') = H.read 256 h in (words (0 ∷ 0 ∷ 4 ∷ length bytes ∷ []) ++ bytes, h', false)
answer H (submit bytes n) h = (words (0 ∷ 0 ∷ n ∷ []), H.write bytes h, false)
answer H unlink h = (words (0 ∷ 0 ∷ []), H.release_control h, true)
answer H (refused rc) h = (words (rc ∷ []), h, false)

right_trim-append_space :
    (xs : List ℕ) (c : ℕ) → isspace c ≡ true → right_trim (xs ++ (c ∷ [])) ≡ right_trim xs
right_trim-append_space [] c e = rw e refl
right_trim-append_space (x ∷ xs) c e = ap (trim_last x) (right_trim-append_space xs c e)

right_trim-append_other :
    (xs : List ℕ) (c : ℕ) → isspace c ≡ false → right_trim (xs ++ (c ∷ [])) ≡ xs ++ (c ∷ [])
right_trim-append_other [] c e = rw e refl
right_trim-append_other (x ∷ xs) c e =
    ap (trim_last x) (right_trim-append_other xs c e) ∙ trim_last-append x xs
  where
    trim_last-append : (x : ℕ) (ys : List ℕ) → trim_last x (ys ++ (c ∷ [])) ≡ x ∷ (ys ++ (c ∷ []))
    trim_last-append x [] = refl
    trim_last-append x (y ∷ ys) = refl

-- The loop of `write` trims the bytes in the buffer so.
pub slice-trim :
    (b : ℕ → ℕ) (base n : ℕ) → slice b base (trim b base n) ≡ right_trim (slice b base n)
slice-trim b base zero = refl
slice-trim b base (suc n) = elim (Bool-cases (isspace (b (base + n)))) [
  | inl space ↦
      (λ i. slice b base (if space i then trim b base n else suc n))
      ∙ slice-trim b base n
      ∙ sym (right_trim-append_space (slice b base n) (b (base + n)) space)
      ∙ ap right_trim snoc
  | inr other ↦
      (λ i. slice b base (if other i then trim b base n else suc n))
      ∙ sym snoc
      ∙ sym (right_trim-append_other (slice b base n) (b (base + n)) other)
      ∙ ap right_trim snoc
]
  where
    snoc : slice b base n ++ (b (base + n) ∷ []) ≡ slice b base (suc n)
    snoc = slice-append b base n 1 ∙ ap (slice b base) {y = suc n} (omega arith)
