-- ===== src/Config/Timezones/Oceans.antt =====
-- The entries of TIMEZONES in src/riden_config/timezones.h, lines 394 to 477: the Indian and Pacific oceans, and the zones without a place.
use riden_dongle.Base.{List, [], ◌∷◌}
use riden_dongle.Config.Timezones.Zone.{Timezone, zone}

unfoldable pub oceans : List Timezone
oceans =
    zone "Indian/Antananarivo" "EAT-3"
    ∷ zone "Indian/Chagos" "<+06>-6"
    ∷ zone "Indian/Christmas" "<+07>-7"
    ∷ zone "Indian/Cocos" "<+0630>-6:30"
    ∷ zone "Indian/Comoro" "EAT-3"
    ∷ zone "Indian/Kerguelen" "<+05>-5"
    ∷ zone "Indian/Mahe" "<+04>-4"
    ∷ zone "Indian/Maldives" "<+05>-5"
    ∷ zone "Indian/Mauritius" "<+04>-4"
    ∷ zone "Indian/Mayotte" "EAT-3"
    ∷ zone "Indian/Reunion" "<+04>-4"
    ∷ zone "Pacific/Apia" "<+13>-13"
    ∷ zone "Pacific/Auckland" "NZST-12NZDT,M9.5.0,M4.1.0/3"
    ∷ zone "Pacific/Bougainville" "<+11>-11"
    ∷ zone "Pacific/Chatham" "<+1245>-12:45<+1345>,M9.5.0/2:45,M4.1.0/3:45"
    ∷ zone "Pacific/Chuuk" "<+10>-10"
    ∷ zone "Pacific/Easter" "<-06>6<-05>,M9.1.6/22,M4.1.6/22"
    ∷ zone "Pacific/Efate" "<+11>-11"
    ∷ zone "Pacific/Enderbury" "<+13>-13"
    ∷ zone "Pacific/Fakaofo" "<+13>-13"
    ∷ zone "Pacific/Fiji" "<+12>-12"
    ∷ zone "Pacific/Funafuti" "<+12>-12"
    ∷ zone "Pacific/Galapagos" "<-06>6"
    ∷ zone "Pacific/Gambier" "<-09>9"
    ∷ zone "Pacific/Guadalcanal" "<+11>-11"
    ∷ zone "Pacific/Guam" "ChST-10"
    ∷ zone "Pacific/Honolulu" "HST10"
    ∷ zone "Pacific/Kiritimati" "<+14>-14"
    ∷ zone "Pacific/Kosrae" "<+11>-11"
    ∷ zone "Pacific/Kwajalein" "<+12>-12"
    ∷ zone "Pacific/Majuro" "<+12>-12"
    ∷ zone "Pacific/Marquesas" "<-0930>9:30"
    ∷ zone "Pacific/Midway" "SST11"
    ∷ zone "Pacific/Nauru" "<+12>-12"
    ∷ zone "Pacific/Niue" "<-11>11"
    ∷ zone "Pacific/Norfolk" "<+11>-11<+12>,M10.1.0,M4.1.0/3"
    ∷ zone "Pacific/Noumea" "<+11>-11"
    ∷ zone "Pacific/Pago_Pago" "SST11"
    ∷ zone "Pacific/Palau" "<+09>-9"
    ∷ zone "Pacific/Pitcairn" "<-08>8"
    ∷ zone "Pacific/Pohnpei" "<+11>-11"
    ∷ zone "Pacific/Port_Moresby" "<+10>-10"
    ∷ zone "Pacific/Rarotonga" "<-10>10"
    ∷ zone "Pacific/Saipan" "ChST-10"
    ∷ zone "Pacific/Tahiti" "<-10>10"
    ∷ zone "Pacific/Tarawa" "<+12>-12"
    ∷ zone "Pacific/Tongatapu" "<+13>-13"
    ∷ zone "Pacific/Wake" "<+12>-12"
    ∷ zone "Pacific/Wallis" "<+12>-12"
    ∷ zone "Etc/GMT" "GMT0"
    ∷ zone "Etc/GMT-0" "GMT0"
    ∷ zone "Etc/GMT-1" "<+01>-1"
    ∷ zone "Etc/GMT-2" "<+02>-2"
    ∷ zone "Etc/GMT-3" "<+03>-3"
    ∷ zone "Etc/GMT-4" "<+04>-4"
    ∷ zone "Etc/GMT-5" "<+05>-5"
    ∷ zone "Etc/GMT-6" "<+06>-6"
    ∷ zone "Etc/GMT-7" "<+07>-7"
    ∷ zone "Etc/GMT-8" "<+08>-8"
    ∷ zone "Etc/GMT-9" "<+09>-9"
    ∷ zone "Etc/GMT-10" "<+10>-10"
    ∷ zone "Etc/GMT-11" "<+11>-11"
    ∷ zone "Etc/GMT-12" "<+12>-12"
    ∷ zone "Etc/GMT-13" "<+13>-13"
    ∷ zone "Etc/GMT-14" "<+14>-14"
    ∷ zone "Etc/GMT0" "GMT0"
    ∷ zone "Etc/GMT+0" "GMT0"
    ∷ zone "Etc/GMT+1" "<-01>1"
    ∷ zone "Etc/GMT+2" "<-02>2"
    ∷ zone "Etc/GMT+3" "<-03>3"
    ∷ zone "Etc/GMT+4" "<-04>4"
    ∷ zone "Etc/GMT+5" "<-05>5"
    ∷ zone "Etc/GMT+6" "<-06>6"
    ∷ zone "Etc/GMT+7" "<-07>7"
    ∷ zone "Etc/GMT+8" "<-08>8"
    ∷ zone "Etc/GMT+9" "<-09>9"
    ∷ zone "Etc/GMT+10" "<-10>10"
    ∷ zone "Etc/GMT+11" "<-11>11"
    ∷ zone "Etc/GMT+12" "<-12>12"
    ∷ zone "Etc/UCT" "UTC0"
    ∷ zone "Etc/UTC" "UTC0"
    ∷ zone "Etc/Greenwich" "GMT0"
    ∷ zone "Etc/Universal" "UTC0"
    ∷ zone "Etc/Zulu" "UTC0"
    ∷ []
