-- ===== src/Vxi/Transport/Frame.antt =====
-- The frame of an accepted reply, and the send buffer that holds it.
use riden_dongle.Base.{
  ℕ, ◌+◌, ◌-◌, ◌*◌, ◌/◌, ◌%◌, ◌^◌, ◌≤◌, ◌≡◌, refl, ◌∙◌, ap, sym, inl, inr, List, ◌++◌, length,
  replicate, length-replicate, arith,
}
use riden_dongle.Base.Memory.{
  slice, updates, slice-append, slice-ext, slice-updates, updates_outside, updates-ext,
  length-slice,
}
use riden_dongle.Vxi.Words.{htonl, set_word}
use riden_dongle.Vxi.Transport.{fill_response_header}

-- Zero bytes up to the next multiple of four.
abbrev pub padding : ℕ → ℕ
padding len = (len + 3) / 4 * 4 - len

-- The frame of an accepted reply: the last-fragment bit and the length, the transaction, REPLY and
-- MSG_ACCEPTED, an empty verifier, and the body with its padding.
abbrev pub frame : ℕ → List ℕ → List ℕ
frame xid body =
    htonl (2 ^ 31 + (20 + length body + padding (20 + length body)))
    ++ htonl xid
    ++ htonl 1
    ++ htonl 0
    ++ htonl 0
    ++ htonl 0
    ++ body
    ++ replicate (padding (20 + length body)) 0

-- The header leaves what follows it alone.
fill_response_header_after : (b : ℕ → ℕ) (xid i : ℕ) → 24 ≤ i → fill_response_header xid b i ≡ b i
unfolding fill_response_header set_word htonl
fill_response_header_after b xid i h =
    let b₁ = updates b 4 (htonl xid) in
    let b₂ = updates b₁ 8 (htonl 1) in
    let b₃ = updates b₂ 12 (htonl 0) in
    let b₄ = updates b₃ 16 (htonl 0) in
    updates_outside b₄ 20 (htonl 0) i (inr (omega arith))
    ∙ updates_outside b₃ 16 (htonl 0) i (inr (omega arith))
    ∙ updates_outside b₂ 12 (htonl 0) i (inr (omega arith))
    ∙ updates_outside b₁ 8 (htonl 1) i (inr (omega arith))
    ∙ updates_outside b 4 (htonl xid) i (inr (omega arith))

header_of : ℕ → ℕ → List ℕ
header_of first xid = htonl first ++ htonl xid ++ htonl 1 ++ htonl 0 ++ htonl 0 ++ htonl 0

header-slice :
    (b : ℕ → ℕ) (first xid : ℕ)
    → slice (set_word (fill_response_header xid b) 0 first) 0 24 ≡ header_of first xid
unfolding fill_response_header set_word htonl header_of
header-slice b first xid = refl

-- The buffer after the header, and after `k` bytes of padding behind a body of `m`.
abbrev filled : (ℕ → ℕ) → ℕ → ℕ → ℕ
filled b xid = fill_response_header xid b

abbrev zeroed : (ℕ → ℕ) → ℕ → ℕ → ℕ → ℕ → ℕ
zeroed b xid m k = updates (filled b xid) (24 + m) (replicate k 0)

module _ (b : ℕ → ℕ) (xid m k first : ℕ) where
  head-slice : slice (set_word (zeroed b xid m k) 0 first) 0 24 ≡ header_of first xid
  unfolding set_word
  head-slice =
      slice-ext (set_word (zeroed b xid m k) 0 first) (set_word (filled b xid) 0 first) 0 24
        (λ i lo hi.
          updates-ext (zeroed b xid m k) (filled b xid) 0 (htonl first) i
            (updates_outside (filled b xid) (24 + m) (replicate k 0) i (inl (omega arith))))
      ∙ header-slice b first xid

  body-slice : slice (set_word (zeroed b xid m k) 0 first) 24 m ≡ slice b 24 m
  unfolding set_word htonl
  body-slice = slice-ext (set_word (zeroed b xid m k) 0 first) b 24 m (λ i lo hi.
      updates_outside (zeroed b xid m k) 0 (htonl first) i (inr (omega arith))
      ∙ updates_outside (filled b xid) (24 + m) (replicate k 0) i (inl (omega arith))
      ∙ fill_response_header_after b xid i lo)

  zeros-slice : slice (set_word (zeroed b xid m k) 0 first) (24 + m) k ≡ replicate k 0
  unfolding set_word htonl
  zeros-slice =
      slice-ext (set_word (zeroed b xid m k) 0 first) (zeroed b xid m k) (24 + m) k
        (λ i lo hi. updates_outside (zeroed b xid m k) 0 (htonl first) i (inr (omega arith)))
      ∙ ap (slice (zeroed b xid m k) (24 + m)) (sym (length-replicate k 0))
      ∙ slice-updates (filled b xid) (24 + m) (replicate k 0)

  whole-slice :
      slice (set_word (zeroed b xid m k) 0 first) 0 (24 + (m + k))
      ≡ header_of first xid ++ (slice b 24 m ++ replicate k 0)
  whole-slice =
      sym (slice-append (set_word (zeroed b xid m k) 0 first) 0 24 (m + k))
      ∙ ap (λ x. x ++ slice (set_word (zeroed b xid m k) 0 first) 24 (m + k)) head-slice
      ∙ ap (λ x. header_of first xid ++ x)
          (sym (slice-append (set_word (zeroed b xid m k) 0 first) 24 m k)
            ∙ ap (λ x. x ++ slice (set_word (zeroed b xid m k) 0 first) (24 + m) k) body-slice
            ∙ ap (λ x. slice b 24 m ++ x) zeros-slice)

-- The frame of a body of `m` bytes, in terms of the buffer.
pub frame-slice :
    (b : ℕ → ℕ) (xid m : ℕ)
    → m ≤ 2 ^ 30
    → let k = padding (20 + m) in
      slice (set_word (zeroed b xid m k) 0 (2 ^ 31 + (20 + m + k) % 2 ^ 31)) 0 (20 + m + k + 4)
      ≡ frame xid (slice b 24 m)
unfolding header_of htonl
frame-slice b xid m h =
    let k = padding (20 + m) in
    ap (slice (set_word (zeroed b xid m k) 0 (2 ^ 31 + (20 + m + k) % 2 ^ 31)) 0) (omega arith)
    ∙ whole-slice b xid m k (2 ^ 31 + (20 + m + k) % 2 ^ 31)
    ∙ ap (λ n. header_of n xid ++ (slice b 24 m ++ replicate k 0)) (omega arith)
    ∙ ap
        (λ n.
          header_of (2 ^ 31 + (20 + n + padding (20 + n))) xid
          ++ (slice b 24 m ++ replicate (padding (20 + n)) 0))
        (sym (length-slice b 24 m))
