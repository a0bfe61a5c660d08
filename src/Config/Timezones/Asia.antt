-- ===== src/Config/Timezones/Asia.antt =====
-- The entries of TIMEZONES in src/riden_config/timezones.h, lines 218 to 311: Antarctica, the Arctic and Asia.
use riden_dongle.Base.{List, [], ◌∷◌}
use riden_dongle.Config.Timezones.Zone.{Timezone, zone}

unfoldable pub asia : List Timezone
asia =
    zone "Antarctica/Casey" "<+11>-11"
    ∷ zone "Antarctica/Davis" "<+07>-7"
    ∷ zone "Antarctica/DumontDUrville" "<+10>-10"
    ∷ zone "Antarctica/Macquarie" "AEST-10AEDT,M10.1.0,M4.1.0/3"
    ∷ zone "Antarctica/Mawson" "<+05>-5"
    ∷ zone "Antarctica/McMurdo" "NZST-12NZDT,M9.5.0,M4.1.0/3"
    ∷ zone "Antarctica/Palmer" "<-03>3"
    ∷ zone "Antarctica/Rothera" "<-03>3"
    ∷ zone "Antarctica/Syowa" "<+03>-3"
    ∷ zone "Antarctica/Troll" "<+00>0<+02>-2,M3.5.0/1,M10.5.0/3"
    ∷ zone "Antarctica/Vostok" "<+06>-6"
    ∷ zone "Arctic/Longyearbyen" "CET-1CEST,M3.5.0,M10.5.0/3"
    ∷ zone "Asia/Aden" "<+03>-3"
    ∷ zone "Asia/Almaty" "<+06>-6"
    ∷ zone "Asia/Amman" "<+03>-3"
    ∷ zone "Asia/Anadyr" "<+12>-12"
    ∷ zone "Asia/Aqtau" "<+05>-5"
    ∷ zone "Asia/Aqtobe" "<+05>-5"
    ∷ zone "Asia/Ashgabat" "<+05>-5"
    ∷ zone "Asia/Atyrau" "<+05>-5"
    ∷ zone "Asia/Baghdad" "<+03>-3"
    ∷ zone "Asia/Bahrain" "<+03>-3"
    ∷ zone "Asia/Baku" "<+04>-4"
    ∷ zone "Asia/Bangkok" "<+07>-7"
    ∷ zone "Asia/Barnaul" "<+07>-7"
    ∷ zone "Asia/Beirut" "EET-2EEST,M3.5.0/0,M10.5.0/0"
    ∷ zone "Asia/Bishkek" "<+06>-6"
    ∷ zone "Asia/Brunei" "<+08>-8"
    ∷ zone "Asia/Chita" "<+09>-9"
    ∷ zone "Asia/Choibalsan" "<+08>-8"
    ∷ zone "Asia/Colombo" "<+0530>-5:30"
    ∷ zone "Asia/Damascus" "<+03>-3"
    ∷ zone "Asia/Dhaka" "<+06>-6"
    ∷ zone "Asia/Dili" "<+09>-9"
    ∷ zone "Asia/Dubai" "<+04>-4"
    ∷ zone "Asia/Dushanbe" "<+05>-5"
    ∷ zone "Asia/Famagusta" "EET-2EEST,M3.5.0/3,M10.5.0/4"
    ∷ zone "Asia/Gaza" "EET-2EEST,M3.4.4/50,M10.4.4/50"
    ∷ zone "Asia/Hebron" "EET-2EEST,M3.4.4/50,M10.4.4/50"
    ∷ zone "Asia/Ho_Chi_Minh" "<+07>-7"
    ∷ zone "Asia/Hong_Kong" "HKT-8"
    ∷ zone "Asia/Hovd" "<+07>-7"
    ∷ zone "Asia/Irkutsk" "<+08>-8"
    ∷ zone "Asia/Jakarta" "WIB-7"
    ∷ zone "Asia/Jayapura" "WIT-9"
    ∷ zone "Asia/Jerusalem" "IST-2IDT,M3.4.4/26,M10.5.0"
    ∷ zone "Asia/Kabul" "<+0430>-4:30"
    ∷ zone "Asia/Kamchatka" "<+12>-12"
    ∷ zone "Asia/Karachi" "PKT-5"
    ∷ zone "Asia/Kathmandu" "<+0545>-5:45"
    ∷ zone "Asia/Khandyga" "<+09>-9"
    ∷ zone "Asia/Kolkata" "IST-5:30"
    ∷ zone "Asia/Krasnoyarsk" "<+07>-7"
    ∷ zone "Asia/Kuala_Lumpur" "<+08>-8"
    ∷ zone "Asia/Kuching" "<+08>-8"
    ∷ zone "Asia/Kuwait" "<+03>-3"
    ∷ zone "Asia/Macau" "CST-8"
    ∷ zone "Asia/Magadan" "<+11>-11"
    ∷ zone "Asia/Makassar" "WITA-8"
    ∷ zone "Asia/Manila" "PST-8"
    ∷ zone "Asia/Muscat" "<+04>-4"
    ∷ zone "Asia/Nicosia" "EET-2EEST,M3.5.0/3,M10.5.0/4"
    ∷ zone "Asia/Novokuznetsk" "<+07>-7"
    ∷ zone "Asia/Novosibirsk" "<+07>-7"
    ∷ zone "Asia/Omsk" "<+06>-6"
    ∷ zone "Asia/Oral" "<+05>-5"
    ∷ zone "Asia/Phnom_Penh" "<+07>-7"
    ∷ zone "Asia/Pontianak" "WIB-7"
    ∷ zone "Asia/Pyongyang" "KST-9"
    ∷ zone "Asia/Qatar" "<+03>-3"
    ∷ zone "Asia/Qyzylorda" "<+05>-5"
    ∷ zone "Asia/Riyadh" "<+03>-3"
    ∷ zone "Asia/Sakhalin" "<+11>-11"
    ∷ zone "Asia/Samarkand" "<+05>-5"
    ∷ zone "Asia/Seoul" "KST-9"
    ∷ zone "Asia/Shanghai" "CST-8"
    ∷ zone "Asia/Singapore" "<+08>-8"
    ∷ zone "Asia/Srednekolymsk" "<+11>-11"
    ∷ zone "Asia/Taipei" "CST-8"
    ∷ zone "Asia/Tashkent" "<+05>-5"
    ∷ zone "Asia/Tbilisi" "<+04>-4"
    ∷ zone "Asia/Tehran" "<+0330>-3:30"
    ∷ zone "Asia/Thimphu" "<+06>-6"
    ∷ zone "Asia/Tokyo" "JST-9"
    ∷ zone "Asia/Tomsk" "<+07>-7"
    ∷ zone "Asia/Ulaanbaatar" "<+08>-8"
    ∷ zone "Asia/Urumqi" "<+06>-6"
    ∷ zone "Asia/Ust-Nera" "<+10>-10"
    ∷ zone "Asia/Vientiane" "<+07>-7"
    ∷ zone "Asia/Vladivostok" "<+10>-10"
    ∷ zone "Asia/Yakutsk" "<+09>-9"
    ∷ zone "Asia/Yangon" "<+0630>-6:30"
    ∷ zone "Asia/Yekaterinburg" "<+05>-5"
    ∷ zone "Asia/Yerevan" "<+04>-4"
    ∷ []
