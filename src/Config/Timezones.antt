-- ===== src/Config/Timezones.antt =====
-- The time zones of src/riden_config/timezones.h, and how riden_config.cpp looks one up.
pub mod Zone
pub mod Africa
pub mod America
pub mod Asia
pub mod Europe
pub mod Oceans
pub mod Lookup
use riden_dongle.Base.{ℕ, List, [], ◌∷◌, ◌++◌, Option, get_elem?, take, String, if◌then◌else◌}
use riden_dongle.Base.Text.{codes, same}
use riden_dongle.Config.{Eeprom, RidenConfig}
use riden_dongle.Config.Timezones.Zone.{Timezone}
use riden_dongle.Config.Timezones.Africa.{africa}
use riden_dongle.Config.Timezones.America.{america}
use riden_dongle.Config.Timezones.Asia.{asia}
use riden_dongle.Config.Timezones.Europe.{europe}
use riden_dongle.Config.Timezones.Oceans.{oceans}

unfoldable pub timezones : List Timezone
timezones = africa ++ (america ++ (asia ++ (europe ++ oceans)))

-- `NOF_TIMEZONES`.
abbrev pub get_number_of_timezones : ℕ
get_number_of_timezones = 462

-- `TIMEZONES[index]`, which is outside of the table for `none`.
abbrev pub get_timezone : ℕ → Option Timezone
get_timezone index = get_elem? timezones index

-- The loop of `get_timezone_spec` over the entries.
abbrev pub find_spec : List Timezone → List ℕ → String
find_spec [] name = ""
find_spec (z ∷ zs) name =
    let rest = find_spec zs name in if same name (codes z.name) then z.tz else rest

unfoldable pub get_timezone_spec : {E : Eeprom} → RidenConfig E → String
get_timezone_spec s = find_spec (take get_number_of_timezones timezones) s.tz_name
