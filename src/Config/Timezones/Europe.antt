-- ===== src/Config/Timezones/Europe.antt =====
-- The entries of TIMEZONES in src/riden_config/timezones.h, lines 312 to 393: the Atlantic, Australia and Europe.
use riden_dongle.Base.{List, [], ◌∷◌}
use riden_dongle.Config.Timezones.Zone.{Timezone, zone}

unfoldable pub europe : List Timezone
europe =
    zone "Atlantic/Azores" "<-01>1<+00>,M3.5.0/0,M10.5.0/1"
    ∷ zone "Atlantic/Bermuda" "AST4ADT,M3.2.0,M11.1.0"
    ∷ zone "Atlantic/Canary" "WET0WEST,M3.5.0/1,M10.5.0"
    ∷ zone "Atlantic/Cape_Verde" "<-01>1"
    ∷ zone "Atlantic/Faroe" "WET0WEST,M3.5.0/1,M10.5.0"
    ∷ zone "Atlantic/Madeira" "WET0WEST,M3.5.0/1,M10.5.0"
    ∷ zone "Atlantic/Reykjavik" "GMT0"
    ∷ zone "Atlantic/South_Georgia" "<-02>2"
    ∷ zone "Atlantic/Stanley" "<-03>3"
    ∷ zone "Atlantic/St_Helena" "GMT0"
    ∷ zone "Australia/Adelaide" "ACST-9:30ACDT,M10.1.0,M4.1.0/3"
    ∷ zone "Australia/Brisbane" "AEST-10"
    ∷ zone "Australia/Broken_Hill" "ACST-9:30ACDT,M10.1.0,M4.1.0/3"
    ∷ zone "Australia/Currie" "AEST-10AEDT,M10.1.0,M4.1.0/3"
    ∷ zone "Australia/Darwin" "ACST-9:30"
    ∷ zone "Australia/Eucla" "<+0845>-8:45"
    ∷ zone "Australia/Hobart" "AEST-10AEDT,M10.1.0,M4.1.0/3"
    ∷ zone "Australia/Lindeman" "AEST-10"
    ∷ zone "Australia/Lord_Howe" "<+1030>-10:30<+11>-11,M10.1.0,M4.1.0"
    ∷ zone "Australia/Melbourne" "AEST-10AEDT,M10.1.0,M4.1.0/3"
    ∷ zone "Australia/Perth" "AWST-8"
    ∷ zone "Australia/Sydney" "AEST-10AEDT,M10.1.0,M4.1.0/3"
    ∷ zone "Europe/Amsterdam" "CET-1CEST,M3.5.0,M10.5.0/3"
    ∷ zone "Europe/Andorra" "CET-1CEST,M3.5.0,M10.5.0/3"
    ∷ zone "Europe/Astrakhan" "<+04>-4"
    ∷ zone "Europe/Athens" "EET-2EEST,M3.5.0/3,M10.5.0/4"
    ∷ zone "Europe/Belgrade" "CET-1CEST,M3.5.0,M10.5.0/3"
    ∷ zone "Europe/Berlin" "CET-1CEST,M3.5.0,M10.5.0/3"
    ∷ zone "Europe/Bratislava" "CET-1CEST,M3.5.0,M10.5.0/3"
    ∷ zone "Europe/Brussels" "CET-1CEST,M3.5.0,M10.5.0/3"
    ∷ zone "Europe/Bucharest" "EET-2EEST,M3.5.0/3,M10.5.0/4"
    ∷ zone "Europe/Budapest" "CET-1CEST,M3.5.0,M10.5.0/3"
    ∷ zone "Europe/Busingen" "CET-1CEST,M3.5.0,M10.5.0/3"
    ∷ zone "Europe/Chisinau" "EET-2EEST,M3.5.0,M10.5.0/3"
    ∷ zone "Europe/Copenhagen" "CET-1CEST,M3.5.0,M10.5.0/3"
    ∷ zone "Europe/Dublin" "GMT0IST,M3.5.0/1,M10.5.0"
    ∷ zone "Europe/Gibraltar" "CET-1CEST,M3.5.0,M10.5.0/3"
    ∷ zone "Europe/Guernsey" "GMT0BST,M3.5.0/1,M10.5.0"
    ∷ zone "Europe/Helsinki" "EET-2EEST,M3.5.0/3,M10.5.0/4"
    ∷ zone "Europe/Isle_of_Man" "GMT0BST,M3.5.0/1,M10.5.0"
    ∷ zone "Europe/Istanbul" "<+03>-3"
    ∷ zone "Europe/Jersey" "GMT0BST,M3.5.0/1,M10.5.0"
    ∷ zone "Europe/Kaliningrad" "EET-2"
    ∷ zone "Europe/Kiev" "EET-2EEST,M3.5.0/3,M10.5.0/4"
    ∷ zone "Europe/Kirov" "MSK-3"
    ∷ zone "Europe/Lisbon" "WET0WEST,M3.5.0/1,M10.5.0"
    ∷ zone "Europe/Ljubljana" "CET-1CEST,M3.5.0,M10.5.0/3"
    ∷ zone "Europe/London" "GMT0BST,M3.5.0/1,M10.5.0"
    ∷ zone "Europe/Luxembourg" "CET-1CEST,M3.5.0,M10.5.0/3"
    ∷ zone "Europe/Madrid" "CET-1CEST,M3.5.0,M10.5.0/3"
    ∷ zone "Europe/Malta" "CET-1CEST,M3.5.0,M10.5.0/3"
    ∷ zone "Europe/Mariehamn" "EET-2EEST,M3.5.0/3,M10.5.0/4"
    ∷ zone "Europe/Minsk" "<+03>-3"
    ∷ zone "Europe/Monaco" "CET-1CEST,M3.5.0,M10.5.0/3"
    ∷ zone "Europe/Moscow" "MSK-3"
    ∷ zone "Europe/Oslo" "CET-1CEST,M3.5.0,M10.5.0/3"
    ∷ zone "Europe/Paris" "CET-1CEST,M3.5.0,M10.5.0/3"
    ∷ zone "Europe/Podgorica" "CET-1CEST,M3.5.0,M10.5.0/3"
    ∷ zone "Europe/Prague" "CET-1CEST,M3.5.0,M10.5.0/3"
    ∷ zone "Europe/Riga" "EET-2EEST,M3.5.0/3,M10.5.0/4"
    ∷ zone "Europe/Rome" "CET-1CEST,M3.5.0,M10.5.0/3"
    ∷ zone "Europe/Samara" "<+04>-4"
    ∷ zone "Europe/San_Marino" "CET-1CEST,M3.5.0,M10.5.0/3"
    ∷ zone "Europe/Sarajevo" "CET-1CEST,M3.5.0,M10.5.0/3"
    ∷ zone "Europe/Saratov" "<+04>-4"
    ∷ zone "Europe/Simferopol" "MSK-3"
    ∷ zone "Europe/Skopje" "CET-1CEST,M3.5.0,M10.5.0/3"
    ∷ zone "Europe/Sofia" "EET-2EEST,M3.5.0/3,M10.5.0/4"
    ∷ zone "Europe/Stockholm" "CET-1CEST,M3.5.0,M10.5.0/3"
    ∷ zone "Europe/Tallinn" "EET-2EEST,M3.5.0/3,M10.5.0/4"
    ∷ zone "Europe/Tirane" "CET-1CEST,M3.5.0,M10.5.0/3"
    ∷ zone "Europe/Ulyanovsk" "<+04>-4"
    ∷ zone "Europe/Uzhgorod" "EET-2EEST,M3.5.0/3,M10.5.0/4"
    ∷ zone "Europe/Vaduz" "CET-1CEST,M3.5.0,M10.5.0/3"
    ∷ zone "Europe/Vatican" "CET-1CEST,M3.5.0,M10.5.0/3"
    ∷ zone "Europe/Vienna" "CET-1CEST,M3.5.0,M10.5.0/3"
    ∷ zone "Europe/Vilnius" "EET-2EEST,M3.5.0/3,M10.5.0/4"
    ∷ zone "Europe/Volgograd" "MSK-3"
    ∷ zone "Europe/Warsaw" "CET-1CEST,M3.5.0,M10.5.0/3"
    ∷ zone "Europe/Zagreb" "CET-1CEST,M3.5.0,M10.5.0/3"
    ∷ zone "Europe/Zaporozhye" "EET-2EEST,M3.5.0/3,M10.5.0/4"
    ∷ zone "Europe/Zurich" "CET-1CEST,M3.5.0,M10.5.0/3"
    ∷ []
