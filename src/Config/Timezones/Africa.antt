-- ===== src/Config/Timezones/Africa.antt =====
-- The entries of TIMEZONES in src/riden_config/timezones.h, lines 16 to 68: the first entry and Africa.
use riden_dongle.Base.{List, [], ◌∷◌}
use riden_dongle.Config.Timezones.Zone.{Timezone, zone}

unfoldable pub africa : List Timezone
africa =
    zone "Unset" ""
    ∷ zone "Africa/Abidjan" "GMT0"
    ∷ zone "Africa/Accra" "GMT0"
    ∷ zone "Africa/Addis_Ababa" "EAT-3"
    ∷ zone "Africa/Algiers" "CET-1"
    ∷ zone "Africa/Asmara" "EAT-3"
    ∷ zone "Africa/Bamako" "GMT0"
    ∷ zone "Africa/Bangui" "WAT-1"
    ∷ zone "Africa/Banjul" "GMT0"
    ∷ zone "Africa/Bissau" "GMT0"
    ∷ zone "Africa/Blantyre" "CAT-2"
    ∷ zone "Africa/Brazzaville" "WAT-1"
    ∷ zone "Africa/Bujumbura" "CAT-2"
    ∷ zone "Africa/Cairo" "EET-2EEST,M4.5.5/0,M10.5.4/24"
    ∷ zone "Africa/Casablanca" "XXX-2<+01>-1,0/0,J365/23"
    ∷ zone "Africa/Ceuta" "CET-1CEST,M3.5.0,M10.5.0/3"
    ∷ zone "Africa/Conakry" "GMT0"
    ∷ zone "Africa/Dakar" "GMT0"
    ∷ zone "Africa/Dar_es_Salaam" "EAT-3"
    ∷ zone "Africa/Djibouti" "EAT-3"
    ∷ zone "Africa/Douala" "WAT-1"
    ∷ zone "Africa/El_Aaiun" "XXX-2<+01>-1,0/0,J365/23"
    ∷ zone "Africa/Freetown" "GMT0"
    ∷ zone "Africa/Gaborone" "CAT-2"
    ∷ zone "Africa/Harare" "CAT-2"
    ∷ zone "Africa/Johannesburg" "SAST-2"
    ∷ zone "Africa/Juba" "CAT-2"
    ∷ zone "Africa/Kampala" "EAT-3"
    ∷ zone "Africa/Khartoum" "CAT-2"
    ∷ zone "Africa/Kigali" "CAT-2"
    ∷ zone "Africa/Kinshasa" "WAT-1"
    ∷ zone "Africa/Lagos" "WAT-1"
    ∷ zone "Africa/Libreville" "WAT-1"
    ∷ zone "Africa/Lome" "GMT0"
    ∷ zone "Africa/Luanda" "WAT-1"
    ∷ zone "Africa/Lubumbashi" "CAT-2"
    ∷ zone "Africa/Lusaka" "CAT-2"
    ∷ zone "Africa/Malabo" "WAT-1"
    ∷ zone "Africa/Maputo" "CAT-2"
    ∷ zone "Africa/Maseru" "SAST-2"
    ∷ zone "Africa/Mbabane" "SAST-2"
    ∷ zone "Africa/Mogadishu" "EAT-3"
    ∷ zone "Africa/Monrovia" "GMT0"
    ∷ zone "Africa/Nairobi" "EAT-3"
    ∷ zone "Africa/Ndjamena" "WAT-1"
    ∷ zone "Africa/Niamey" "WAT-1"
    ∷ zone "Africa/Nouakchott" "GMT0"
    ∷ zone "Africa/Ouagadougou" "GMT0"
    ∷ zone "Africa/Porto-Novo" "WAT-1"
    ∷ zone "Africa/Sao_Tome" "GMT0"
    ∷ zone "Africa/Tripoli" "EET-2"
    ∷ zone "Africa/Tunis" "CET-1"
    ∷ zone "Africa/Windhoek" "CAT-2"
    ∷ []
