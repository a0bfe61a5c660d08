-- ===== src/Config/Timezones/Lookup.antt =====
-- Every name of the table is found with its own specification, and fits the saved structure.
use riden_dongle.Base.{
  ℕ, zero, suc, ◌<◌, ◌≡◌, ◌≢◌, refl, ◌∙◌, ap, Bool, true, false, not, ◌&&◌, List, [], ◌∷◌, some,
  get_elem?, take, length, ltb, arith,
}
use riden_dongle.Base.Text.{codes, same, same_refl, same→eq}
use riden_dongle.Vxi.Net.{overrun}
use riden_dongle.Config.{Eeprom, RidenConfig, c_str, commit, set_timezone_name}
use riden_dongle.Config.Image.{commit-ne_overrun}
use riden_dongle.Config.Timezones.{
  timezones, find_spec, get_timezone, get_timezone_spec, get_number_of_timezones,
}
use riden_dongle.Config.Timezones.Zone.{Timezone}
use riden_dongle.Config.Timezones.Africa.{africa}
use riden_dongle.Config.Timezones.America.{america}
use riden_dongle.Config.Timezones.Asia.{asia}
use riden_dongle.Config.Timezones.Europe.{europe}
use riden_dongle.Config.Timezones.Oceans.{oceans}

-- No entry of the list has the name.
new : List ℕ → List Timezone → Bool
new name [] = true
new name (z ∷ zs) = not (same (codes z.name) name) && new name zs

distinct : List Timezone → Bool
distinct [] = true
distinct (z ∷ zs) = new (codes z.name) zs && distinct zs

timezones-distinct : distinct timezones ≡ true
unfolding distinct new timezones africa america asia europe oceans
timezones-distinct = refl

names_fit : List Timezone → Bool
names_fit [] = true
names_fit (z ∷ zs) = ltb (length (c_str (codes z.name))) 100 && names_fit zs

timezones_fit : names_fit timezones ≡ true
unfolding names_fit timezones africa america asia europe oceans
timezones_fit = refl

-- The names are texts of C: none has a zero byte.
names_full : List Timezone → Bool
names_full [] = true
names_full (z ∷ zs) = same (c_str (codes z.name)) (codes z.name) && names_full zs

timezones_full : names_full timezones ≡ true
unfolding names_full timezones africa america asia europe oceans
timezones_full = refl

length-timezones : length timezones ≡ 462
unfolding timezones africa america asia europe oceans
length-timezones = refl

take-timezones : take 462 timezones ≡ timezones
unfolding timezones africa america asia europe oceans
take-timezones = refl

new-get_elem? :
    (name : List ℕ) (zs : List Timezone) (i : ℕ) (z : Timezone)
    → new name zs ≡ true
    → get_elem? zs i ≡ some z
    → same (codes z.name) name ≡ false
unfolding new
new-get_elem? name [] i z h e = cc e
new-get_elem? name (y ∷ zs) zero z h e = rw (← (the e)) (ground (arith, h))
  where
    the : some y ≡ some z → y ≡ z
    the e = cc e
new-get_elem? name (y ∷ zs) (suc i) z h e = new-get_elem? name zs i z (ground arith) e

find_spec-distinct :
    (zs : List Timezone) (i : ℕ) (z : Timezone)
    → distinct zs ≡ true
    → get_elem? zs i ≡ some z
    → find_spec zs (codes z.name) ≡ z.tz
unfolding distinct
find_spec-distinct [] i z h e = cc e
find_spec-distinct (y ∷ zs) zero z h e = rw (← (the e)) (rw (same_refl (codes y.name)) refl)
  where
    the : some y ≡ some z → y ≡ z
    the e = cc e
find_spec-distinct (y ∷ zs) (suc i) z h e =
    rw (new-get_elem? (codes y.name) zs i z (ground arith) e)
      (find_spec-distinct zs i z (ground arith) e)

fits-get_elem? :
    (zs : List Timezone) (i : ℕ) (z : Timezone)
    → names_fit zs ≡ true
    → get_elem? zs i ≡ some z
    → length (c_str (codes z.name)) < 100
unfolding names_fit
fits-get_elem? [] i z h e = cc e
fits-get_elem? (y ∷ zs) zero z h e = rw (← (the e)) (ground arith)
  where
    the : some y ≡ some z → y ≡ z
    the e = cc e
fits-get_elem? (y ∷ zs) (suc i) z h e = fits-get_elem? zs i z (ground arith) e

full-get_elem? :
    (zs : List Timezone) (i : ℕ) (z : Timezone)
    → names_full zs ≡ true
    → get_elem? zs i ≡ some z
    → same (c_str (codes z.name)) (codes z.name) ≡ true
unfolding names_full
full-get_elem? [] i z h e = cc e
full-get_elem? (y ∷ zs) zero z h e = rw (← (the e)) (ground (arith, h))
  where
    the : some y ≡ some z → y ≡ z
    the e = cc e
full-get_elem? (y ∷ zs) (suc i) z h e = full-get_elem? zs i z (ground arith) e

-- C reads the whole name of an entry, and an object with that name has the entry's specification.
pub c_str-timezone :
    (i : ℕ) (z : Timezone) → get_timezone i ≡ some z → c_str (codes z.name) ≡ codes z.name
c_str-timezone i z e = same→eq _ _ (full-get_elem? timezones i z timezones_full e)

pub get_timezone_spec-timezone :
    {E : Eeprom} (s : RidenConfig E) (i : ℕ) (z : Timezone)
    → get_timezone i ≡ some z
    → s.tz_name ≡ codes z.name
    → get_timezone_spec s ≡ z.tz
unfolding get_timezone_spec
get_timezone_spec-timezone s i z e named =
    ap (find_spec (take 462 timezones)) named
    ∙ ap (λ zs. find_spec zs (codes z.name)) take-timezones
    ∙ find_spec-distinct timezones i z timezones-distinct e

get_elem?-lt {ℓ} :
    {A : Type ℓ} (xs : List A) (i : ℕ) → i < length xs → (x : A) × (get_elem? xs i ≡ some x)
get_elem?-lt [] i h = absurd (omega arith)
get_elem?-lt (x ∷ xs) zero h = (x, refl)
get_elem?-lt (x ∷ xs) (suc i) h = get_elem?-lt xs i (omega arith)

-- Every index below `get_number_of_timezones` is one of the table, and an object that is given the name
-- of that entry finds the entry's own specification and can be saved: `commit` stays within its
-- structure.
pub timezone_lem :
    {E : Eeprom} (s : RidenConfig E) (i : ℕ)
    → i < get_number_of_timezones
    → (z : Timezone) × (get_timezone i ≡ some z)
      × (get_timezone_spec (set_timezone_name (codes z.name) s) ≡ z.tz)
      × (commit (set_timezone_name (codes z.name) s) ≢ overrun)
unfolding get_timezone_spec
timezone_lem s i lt =
    let (z, e) = get_elem?-lt timezones i (rw length-timezones lt) in
    let short : length (c_str (codes z.name)) < 100 =
      fits-get_elem? timezones i z timezones_fit e in
    (
      z,
      e,
      ap (λ zs. find_spec zs (codes z.name)) take-timezones
          ∙ find_spec-distinct timezones i z timezones-distinct e,
      commit-ne_overrun (set_timezone_name (codes z.name) s) short,
    )
