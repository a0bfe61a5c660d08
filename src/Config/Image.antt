-- ===== src/Config/Image.antt =====
-- What the bytes of a saved structure mean, and that `commit` puts such bytes together.
use riden_dongle.Base.{
  ℕ, ◌+◌, ◌^◌, ◌≤◌, ◌<◌, ◌≡◌, ◌≢◌, lt→ltb, ltb, refl, ◌∙◌, sym, Bool, true, false, ◌&&◌, inl, inr,
  List, [], ◌∷◌, ◌++◌, length, length-append, ◌==◌, arith, Bool-cases,
}
use riden_dongle.Base.Memory.{
  update, updates, updates_outside, NoNul, Holds, Holds-ext, Holds-updates,
}
use riden_dongle.Config.{
  Eeprom, RidenConfig, magic, u32_bytes, read_u32, c_str, bool_byte, has_magic, config_image,
  commit,
}
use riden_dongle.Vxi.Net.{overrun}

-- The members that both versions have.
pub record Image (v : ℕ) (b : ℕ → ℕ) (name : List ℕ) (portal : Bool) : Type 0 where
  pub marked : has_magic b ≡ true
  pub versioned : b 3 ≡ v
  pub text : Holds b 4 name
  pub flag : b 104 ≡ bool_byte portal

pub c_str-NoNul : (cs : List ℕ) → NoNul (c_str cs)
c_str-NoNul [] = tt
c_str-NoNul (c ∷ cs) = elim (Bool-cases (c == 0)) [
  | inl e ↦ rw e tt
  | inr e ↦ rw e (ground arith, c_str-NoNul cs)
]

-- Bytes that agree below the end of the structure have the same meaning.
pub Image-ext :
    {v : ℕ} (f g : ℕ → ℕ) (name : List ℕ) {portal : Bool}
    → length name < 100
    → ((i : ℕ) → i < 105 → f i ≡ g i)
    → Image v f name portal
    → Image v g name portal
Image-ext f g name short same m = record {
  marked =
      (λ i.
        sym (same 0 (omega arith)) i == b'R'
        && sym (same 1 (omega arith)) i == b'D'
        && sym (same 2 (omega arith)) i == 0)
      ∙ m.marked;
  versioned = sym (same 3 (omega arith)) ∙ m.versioned;
  text = Holds-ext f g 4 name (λ i lo hi. same i (omega arith)) m.text;
  flag = sym (same 104 (omega arith)) ∙ m.flag;
}

module _ {E : Eeprom} (s : RidenConfig E) (short : length (c_str s.tz_name) < 100) where
  named : List ℕ
  named = c_str s.tz_name ++ 0 ∷ []

  length-named : length named ≡ length (c_str s.tz_name) + 1
  unfolding named
  length-named = length-append (c_str s.tz_name) (0 ∷ [])

  -- The bytes before the name, with it, and with what follows it.
  b₂ : ℕ → ℕ
  b₂ = update (updates s.stack 0 magic) 3 2

  b₃ : ℕ → ℕ
  unfolding b₂
  b₃ = updates b₂ 4 named

  b₄ : ℕ → ℕ
  unfolding b₃
  b₄ = update b₃ 104 (bool_byte s.config_portal_on_boot)

  image-stages : (i : ℕ) → config_image s i ≡ updates b₄ 108 (u32_bytes s.uart_baudrate) i
  unfolding b₄ named
  image-stages i = refl

  image-b₄ : (i : ℕ) → i < 108 → config_image s i ≡ b₄ i
  image-b₄ i lt = image-stages i ∙ updates_outside b₄ 108 (u32_bytes s.uart_baudrate) i (inl lt)

  image-b₃ : (i : ℕ) → i < 104 → config_image s i ≡ b₃ i
  unfolding b₄
  image-b₃ i lt = image-b₄ i (omega arith) ∙ ground arith

  image-b₂ : (i : ℕ) → i < 4 → config_image s i ≡ b₂ i
  unfolding b₃
  image-b₂ i lt = image-b₃ i (omega arith) ∙ updates_outside b₂ 4 named i (inl lt)

  b₃-Holds : Holds b₃ 4 (c_str s.tz_name)
  unfolding b₃ named
  b₃-Holds = Holds-updates b₂ 4 (c_str s.tz_name)

  magic-b₂ : (has_magic b₂ ≡ true) × (b₂ 3 ≡ 2)
  unfolding b₂
  magic-b₂ = (refl, refl)

  portal-b₄ : b₄ 104 ≡ bool_byte s.config_portal_on_boot
  unfolding b₄
  portal-b₄ = refl

  b₂-Magic : has_magic (config_image s) ≡ true
  b₂-Magic =
      (λ i.
        image-b₂ 0 (omega arith) i == b'R'
        && image-b₂ 1 (omega arith) i == b'D'
        && image-b₂ 2 (omega arith) i == 0)
      ∙ magic-b₂.0

  -- Where the time zone fits, the structure of `commit` has version 2 and holds the settings.
  pub config_image-Image : Image 2 (config_image s) (c_str s.tz_name) s.config_portal_on_boot
  config_image-Image = record {
    marked = b₂-Magic;
    versioned = image-b₂ 3 (omega arith) ∙ magic-b₂.1;
    text =
        Holds-ext b₃ (config_image s) 4 (c_str s.tz_name)
          (λ i lo hi. sym (image-b₃ i (omega arith))) b₃-Holds;
    flag = image-b₄ 104 (omega arith) ∙ portal-b₄;
  }

  pub config_image-baudrate :
      s.uart_baudrate < 2 ^ 32 → read_u32 (config_image s) 108 ≡ s.uart_baudrate
  config_image-baudrate lt = ground arith

module _ {E : Eeprom} where
  -- A name that fits is saved within the structure.
  pub commit-ne_overrun : (s : RidenConfig E) → length (c_str s.tz_name) < 100 → commit s ≢ overrun
  unfolding commit
  commit-ne_overrun s short = rw (lt→ltb _ _ short) (λ h. cc h)

  -- A longer one is not.
  pub commit_overrun : (s : RidenConfig E) → 100 ≤ length (c_str s.tz_name) → commit s ≡ overrun
  unfolding commit
  commit_overrun s long = rw over refl
    where
      over : ltb (length (c_str s.tz_name)) 100 ≡ false
      over = ground arith
