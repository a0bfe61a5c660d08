-- ===== src/Config/Tests.antt =====
-- Settings saved and found again, in an EEPROM of two arrays of bytes.
use riden_dongle.Base.{ℕ, ◌≡◌, ◌≢◌, refl, true, false, [], ◌∷◌, some, arith}
use riden_dongle.Base.Memory.{slice, update, updates}
use riden_dongle.Base.Text.{codes}
use riden_dongle.Vxi.Net.{done, overrun}
use riden_dongle.Config.{
  Eeprom, RidenConfig, fresh, config_image, size_v2, commit, begin, set_timezone_name,
}
use riden_dongle.Config.Loading.{Keeps, with_settings}
use riden_dongle.Config.Restart.{commit-begin, begin_version_1}
use riden_dongle.Config.Timezones.{get_timezone, get_timezone_spec}
use riden_dongle.Config.Timezones.Zone.{Timezone}
use riden_dongle.Config.Timezones.Lookup.{timezone_lem}

pub record Chip : Type 0 where
  pub ram : ℕ → ℕ
  pub flash : ℕ → ℕ

abbrev pub chip : Eeprom
chip = record {
  World = Chip;
  begin = λ size w. record w { ram = w.flash };
  get = λ w. w.ram;
  put = λ a bytes w. record w { ram = updates w.ram a bytes };
  commit = λ w. (true, record w { flash = w.ram });
}

abbrev pub chip-Keeps : Keeps chip
chip-Keeps = record {
  stored = λ w. w.flash;
  get-put = λ a bytes w i fits lt. refl;
  stored-commit = λ w i lt success. refl;
  get-begin = λ w i lt. refl;
}

abbrev blank : ℕ → ℕ
blank i = 255

abbrev new_chip : Chip
new_chip = record { ram = blank; flash = blank }

abbrev pub settings : RidenConfig chip
settings = record (fresh chip blank new_chip) {
  tz_name = codes "Etc/UTC";
  config_portal_on_boot = true;
  uart_baudrate = 115200;
}

abbrev pub saved_chip : (s : RidenConfig chip) → RidenConfig chip
saved_chip s =
    let ram = updates s.world.ram 0 (slice (config_image s) 0 size_v2) in
    record s { world = record { ram = ram; flash = ram } }

saved_chip-commit : commit settings ≡ done true (saved_chip settings)
unfolding commit
saved_chip-commit = refl

commit-begin_example :
    begin (fresh chip blank (saved_chip settings).world)
    ≡ done true (
        with_settings
          (codes "Etc/UTC")
          true
          115200
          (fresh chip blank (chip.begin 512 (saved_chip settings).world)))
commit-begin_example =
    commit-begin chip-Keeps settings (saved_chip settings)
      (fresh chip blank (saved_chip settings).world) (omega arith) saved_chip-commit refl

-- The structure of version 1.
abbrev version_1 : ℕ → ℕ
version_1 = update (updates blank 0 (b'R' ∷ b'D' ∷ 0 ∷ 1 ∷ b'U' ∷ b'T' ∷ b'C' ∷ 0 ∷ [])) 104 1

begin_version_1_example :
    begin (fresh chip blank (record { ram = blank; flash = version_1 }))
    ≡ done true (
        with_settings
          (codes "UTC")
          true
          9600
          (fresh chip blank (record { ram = version_1; flash = version_1 })))
begin_version_1_example =
    begin_version_1 chip-Keeps (fresh chip blank (record { ram = blank; flash = version_1 }))
      (codes "UTC") true
      (record { marked = refl; versioned = refl; text = (refl, (refl, (refl, refl))); flag = refl })
      (omega arith) (omega arith)

abbrev found : RidenConfig chip
found =
    with_settings (codes "Etc/UTC") true 115200
      (fresh chip blank (chip.begin 512 (saved_chip settings).world))

abbrev reset : RidenConfig chip
reset = saved_chip (record found { config_portal_on_boot = false })

reset-commit : commit (record found { config_portal_on_boot = false }) ≡ done true reset
unfolding commit
reset-commit = refl

abbrev later : RidenConfig chip
later = with_settings (codes "Etc/UTC") false 115200 (fresh chip blank (chip.begin 512 reset.world))

timezone_lem_example :
    (z : Timezone) × (get_timezone 457 ≡ some z)
    × (get_timezone_spec (set_timezone_name (codes z.name) settings) ≡ z.tz)
    × (commit (set_timezone_name (codes z.name) settings) ≢ overrun)
timezone_lem_example = timezone_lem settings 457 (omega arith)
