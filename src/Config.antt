-- ===== src/Config.antt =====
-- The class RidenConfig of src/riden_config/riden_config.cpp: settings that the EEPROM keeps, as the
-- bytes of a structure of one of two versions.
pub mod Image
pub mod Loading
pub mod Restart
pub mod Timezones
pub mod Tests
use riden_dongle.Base.{
  ℕ, zero, suc, ◌+◌, ◌-◌, ◌*◌, ◌/◌, ◌%◌, ◌^◌, Bool, true, false, not, ◌&&◌, List, [], ◌∷◌, ◌++◌,
  Option, none, some, length, ltb, ◌==◌, if◌then◌else◌,
}
use riden_dongle.Base.Memory.{slice, update, updates, find_nul}
use riden_dongle.Vxi.Net.{Run, done, overrun, Act}

-- The library's EEPROM: its buffer as `get` reads it, and the calls that the class makes.
pub record Eeprom : Type 1 where
  pub World : Type 0
  pub begin : ℕ → World → World
  pub get : World → ℕ → ℕ
  pub put : ℕ → List ℕ → World → World
  pub commit : World → Bool × World

-- `stack` is what the stack holds where a method has its local structure.
pub record RidenConfig (E : Eeprom) : Type 0 where
  pub tz_name : List ℕ
  pub config_portal_on_boot : Bool
  pub uart_baudrate : ℕ
  pub stack : ℕ → ℕ
  pub world : E.World

-- The object as it is constructed, with DEFAULT_UART_BAUDRATE as platformio.ini has it.
abbrev pub fresh : (E : Eeprom) → (ℕ → ℕ) → E.World → RidenConfig E
fresh E stack w = record {
  tz_name = [];
  config_portal_on_boot = false;
  uart_baudrate = 9600;
  stack = stack;
  world = w;
}

-- `MAGIC` and its terminator.
abbrev pub magic : List ℕ
magic = b'R' ∷ b'D' ∷ 0 ∷ []

-- The members of RidenConfigStructV1 and V2 by their offsets; `uart_baudrate` is aligned to 4 bytes.
abbrev pub version_at : ℕ
version_at = 3

abbrev pub tz_name_at : ℕ
tz_name_at = 4

abbrev pub portal_at : ℕ
portal_at = 104

abbrev pub baudrate_at : ℕ
baudrate_at = 108

abbrev pub size_v1 : ℕ
size_v1 = 105

abbrev pub size_v2 : ℕ
size_v2 = 112

-- A `uint32_t` in memory.
abbrev pub u32_bytes : ℕ → List ℕ
u32_bytes n = n % 256 ∷ n / 256 % 256 ∷ n / 65536 % 256 ∷ n / 16777216 % 256 ∷ []

abbrev pub read_u32 : (ℕ → ℕ) → ℕ → ℕ
read_u32 b at = b at + 256 * b (at + 1) + 65536 * b (at + 2) + 16777216 * b (at + 3)

-- `tz_name.c_str()`, as far as `strcpy` reads it.
abbrev pub c_str : List ℕ → List ℕ
c_str [] = []
c_str (c ∷ cs) = let rest = c_str cs in if c == 0 then [] else c ∷ rest

abbrev pub bool_byte : Bool → ℕ
bool_byte true = 1
bool_byte false = 0

-- `memcmp(header.magic, "RD", sizeof(MAGIC)) == 0`.
abbrev pub has_magic : (ℕ → ℕ) → Bool
has_magic b = b 0 == b'R' && b 1 == b'D' && b 2 == 0

module _ {E : Eeprom} where
  -- The local RidenConfigStructV2 of `commit` once its members are assigned.
  abbrev pub config_image : RidenConfig E → ℕ → ℕ
  config_image s =
      let b₁ = updates s.stack 0 magic in
      let b₂ = update b₁ version_at 2 in
      let b₃ = updates b₂ tz_name_at (c_str s.tz_name ++ 0 ∷ []) in
      let b₄ = update b₃ portal_at (bool_byte s.config_portal_on_boot) in
      updates b₄ baudrate_at (u32_bytes s.uart_baudrate)

  -- `strcpy` does not look at the size of `tz_name`, which is 100.
  unfoldable pub commit : Act (RidenConfig E) Bool
  commit s =
      let (success, w) = E.commit (E.put 0 (slice (config_image s) 0 size_v2) s.world) in
      if ltb (length (c_str s.tz_name)) 100 then done success (record s { world = w }) else overrun

  -- `tz_name = config.tz_name`, which reads up to a zero byte wherever it is.
  abbrev pub load_name : (ℕ → ℕ) → Option ℕ → RidenConfig E → Act (RidenConfig E) Bool
  load_name b none t s = overrun
  load_name b (some end) t s =
      done true (record t { tz_name = slice b tz_name_at (end - tz_name_at) })

  abbrev pub load_v1 : Act (RidenConfig E) Bool
  load_v1 s =
      let b = E.get s.world in
      load_name b (find_nul b tz_name_at (size_v1 - tz_name_at))
        (record s { config_portal_on_boot = not (b portal_at == 0) }) s

  abbrev pub load_v2 : Act (RidenConfig E) Bool
  load_v2 s =
      let b = E.get s.world in
      load_name b (find_nul b tz_name_at (size_v2 - tz_name_at))
        (record s {
          config_portal_on_boot = not (b portal_at == 0);
          uart_baudrate = read_u32 b baudrate_at;
        })
        s

  -- The switch on `header.config_version`; where it fails, the object's own settings are saved.
  abbrev pub load : ℕ → Act (RidenConfig E) Bool
  load version s = if version == 1 then load_v1 s else if version == 2 then load_v2 s else commit s

  unfoldable pub begin : Act (RidenConfig E) Bool
  begin s =
      let t = record s { world = E.begin 512 s.world } in
      let b = E.get t.world in if has_magic b then load (b version_at) t else commit t

  abbrev pub set_timezone_name : List ℕ → RidenConfig E → RidenConfig E
  set_timezone_name name s = record s { tz_name = name }

  abbrev pub set_config_portal_on_boot : RidenConfig E → RidenConfig E
  set_config_portal_on_boot s = record s { config_portal_on_boot = true }

  abbrev pub set_uart_baudrate : ℕ → RidenConfig E → RidenConfig E
  set_uart_baudrate baudrate s = record s { uart_baudrate = baudrate }

  -- `commit()` whose result is not looked at.
  abbrev pub and_then : Bool → Run (RidenConfig E) Bool → Run (RidenConfig E) Bool
  and_then b (done success s) = done b s
  and_then b r = r

  unfoldable pub get_and_reset_config_portal_on_boot : Act (RidenConfig E) Bool
  get_and_reset_config_portal_on_boot s =
      let saved = and_then true (commit (record s { config_portal_on_boot = false })) in
      if s.config_portal_on_boot then saved else done false s
