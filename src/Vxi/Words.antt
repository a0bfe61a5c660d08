-- ===== src/Vxi/Words.antt =====
-- `big_endian_32_t` of src/vxi11_server/utilities.h: 32-bit words in network order, in the bytes of a
-- packet buffer.
use riden_dongle.Base.{ℕ, ◌+◌, ◌*◌, ◌/◌, ◌%◌, ◌^◌, ◌<◌, ◌≤◌, ◌≡◌, List, [], ◌∷◌, arith}
use riden_dongle.Base.Memory.{updates}

-- The bytes that the constructor stores: `htonl`.
unfoldable pub htonl : ℕ → List ℕ
htonl value = value / 16777216 % 256 ∷ value / 65536 % 256 ∷ value / 256 % 256 ∷ value % 256 ∷ []

-- The conversion to `uint32_t`: `ntohl`.
unfoldable pub ntohl : ℕ → ℕ → ℕ → ℕ → ℕ
ntohl a b c d = 16777216 * a + 65536 * b + 256 * c + d

-- A word of a buffer, read and assigned.
unfoldable pub get_word : (ℕ → ℕ) → ℕ → ℕ
get_word buffer at = ntohl (buffer at) (buffer (at + 1)) (buffer (at + 2)) (buffer (at + 3))

unfoldable pub set_word : (ℕ → ℕ) → ℕ → ℕ → ℕ → ℕ
set_word buffer at value = updates buffer at (htonl value)

-- A word of 32 bits that is assigned is read back.
pub get_word-set_word :
    (buffer : ℕ → ℕ) (at value : ℕ)
    → value < 2 ^ 32
    → get_word (set_word buffer at value) at ≡ value
unfolding get_word set_word ntohl htonl
get_word-set_word buffer at value h = ground arith

-- An assignment leaves every word apart from it alone.
pub get_word-set_word_apart :
    (buffer : ℕ → ℕ) (at other value : ℕ)
    → at + 4 ≤ other
    → (get_word (set_word buffer at value) other ≡ get_word buffer other)
      × (get_word (set_word buffer other value) at ≡ get_word buffer at)
unfolding get_word set_word ntohl htonl
get_word-set_word_apart buffer at other value h = (ground arith, ground arith)
