-- ===== src/Config/Loading.antt =====
-- What `begin` loads of a structure of either version, and what the EEPROM is to keep.
use riden_dongle.Base.{
  ℕ, ◌+◌, ◌≤◌, ◌<◌, ◌≡◌, refl, ◌∙◌, ap, Bool, true, false, not, List, length, ◌==◌, if◌then◌else◌,
  arith,
}
use riden_dongle.Base.Memory.{slice, updates, NoNul, Holds, find_nul, find_nul-Holds, slice-Holds}
use riden_dongle.Vxi.Net.{done}
use riden_dongle.Config.{
  Eeprom, RidenConfig, read_u32, bool_byte, has_magic, commit, begin, load, load_v1, load_v2,
  load_name, get_and_reset_config_portal_on_boot, and_then,
}
use riden_dongle.Config.Image.{Image}

-- `stored` is what the flash holds. `put` changes the buffer, a `commit` that returns true stores the
-- buffer, and `begin` fills the buffer from the flash.
pub record Keeps (E : Eeprom) : Type 0 where
  pub stored : E.World → ℕ → ℕ
  pub get-put :
      (a : ℕ) (bytes : List ℕ) (w : E.World) (i : ℕ)
      → a + length bytes ≤ 512
      → i < 512
      → E.get (E.put a bytes w) i ≡ updates (E.get w) a bytes i
  pub stored-commit :
      (w : E.World) (i : ℕ) → i < 512 → (E.commit w).0 ≡ true → stored (E.commit w).1 i ≡ E.get w i
  pub get-begin : (w : E.World) (i : ℕ) → i < 512 → E.get (E.begin 512 w) i ≡ stored w i

pub read_u32-ext : (f g : ℕ → ℕ) → ((i : ℕ) → i < 112 → f i ≡ g i) → read_u32 g 108 ≡ read_u32 f 108
read_u32-ext f g same = omega (
  arith,
  same 108 (omega arith),
  same 109 (omega arith),
  same 110 (omega arith),
  same 111 (omega arith),
)

pub flag-portal : (b : ℕ → ℕ) (portal : Bool) → b 104 ≡ bool_byte portal → not (b 104 == 0) ≡ portal
flag-portal b true e = rw e refl
flag-portal b false e = rw e refl

module _ {E : Eeprom} where
  -- The object after its settings have been loaded.
  abbrev pub with_settings : List ℕ → Bool → ℕ → RidenConfig E → RidenConfig E
  with_settings name portal baudrate s = record s {
    tz_name = name;
    config_portal_on_boot = portal;
    uart_baudrate = baudrate;
  }

  pub load_name-found :
      (b : ℕ → ℕ) (n : ℕ) (name : List ℕ) (t s : RidenConfig E)
      → Holds b 4 name
      → NoNul name
      → length name < n
      → load_name b (find_nul b 4 n) t s ≡ done true (record t { tz_name = name })
  load_name-found b n name t s text full lt =
      ap (λ o. load_name b o t s) (find_nul-Holds b 4 n name full text lt)
      ∙ ap (λ m. done true (record t { tz_name = slice b 4 m })) (omega arith)
      ∙ ap (λ cs. done true (record t { tz_name = cs })) (slice-Holds b 4 name text)

  pub load_v1-Image :
      (s : RidenConfig E) (name : List ℕ) (portal : Bool)
      → Image 1 (E.get s.world) name portal
      → NoNul name
      → length name < 100
      → load_v1 s ≡ done true (with_settings name portal s.uart_baudrate s)
  load_v1-Image s name portal m full lt =
      load_name-found (E.get s.world) 101 name _ s m.text full (omega arith)
      ∙ ap (λ p. done true (with_settings name p s.uart_baudrate s))
          (flag-portal (E.get s.world) portal m.flag)

  pub load_v2-Image :
      (s : RidenConfig E) (name : List ℕ) (portal : Bool)
      → Image 2 (E.get s.world) name portal
      → NoNul name
      → length name < 100
      → load_v2 s ≡ done true (with_settings name portal (read_u32 (E.get s.world) 108) s)
  load_v2-Image s name portal m full lt =
      load_name-found (E.get s.world) 108 name _ s m.text full (omega arith)
      ∙ ap (λ p. done true (with_settings name p (read_u32 (E.get s.world) 108) s))
          (flag-portal (E.get s.world) portal m.flag)

  pub begin-load :
      (s : RidenConfig E) (version : ℕ)
      → has_magic (E.get (E.begin 512 s.world)) ≡ true
      → E.get (E.begin 512 s.world) 3 ≡ version
      → begin s ≡ load version (record s { world = E.begin 512 s.world })
  unfolding begin
  begin-load s version marked versioned =
      (λ i.
        if marked i
        then load (E.get (E.begin 512 s.world) 3) (record s { world = E.begin 512 s.world })
        else commit (record s { world = E.begin 512 s.world }))
      ∙ ap (λ v. load v (record s { world = E.begin 512 s.world })) versioned

  pub reset_lem :
      (s : RidenConfig E)
      → s.config_portal_on_boot ≡ true
      → get_and_reset_config_portal_on_boot s
        ≡ and_then true (commit (record s { config_portal_on_boot = false }))
  unfolding get_and_reset_config_portal_on_boot
  reset_lem s on = λ i.
      if on i
      then and_then true (commit (record s { config_portal_on_boot = false }))
      else done false s

  pub not_reset :
      (s : RidenConfig E)
      → s.config_portal_on_boot ≡ false
      → get_and_reset_config_portal_on_boot s ≡ done false s
  unfolding get_and_reset_config_portal_on_boot
  not_reset s off = λ i.
      if off i
      then and_then true (commit (record s { config_portal_on_boot = false }))
      else done false s
