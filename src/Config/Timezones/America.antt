-- ===== src/Config/Timezones/America.antt =====
-- The entries of TIMEZONES in src/riden_config/timezones.h, lines 69 to 217: America.
use riden_dongle.Base.{List, [], ◌∷◌}
use riden_dongle.Config.Timezones.Zone.{Timezone, zone}

unfoldable pub america : List Timezone
america =
    zone "America/Adak" "HST10HDT,M3.2.0,M11.1.0"
    ∷ zone "America/Anchorage" "AKST9AKDT,M3.2.0,M11.1.0"
    ∷ zone "America/Anguilla" "AST4"
    ∷ zone "America/Antigua" "AST4"
    ∷ zone "America/Araguaina" "<-03>3"
    ∷ zone "America/Argentina/Buenos_Aires" "<-03>3"
    ∷ zone "America/Argentina/Catamarca" "<-03>3"
    ∷ zone "America/Argentina/Cordoba" "<-03>3"
    ∷ zone "America/Argentina/Jujuy" "<-03>3"
    ∷ zone "America/Argentina/La_Rioja" "<-03>3"
    ∷ zone "America/Argentina/Mendoza" "<-03>3"
    ∷ zone "America/Argentina/Rio_Gallegos" "<-03>3"
    ∷ zone "America/Argentina/Salta" "<-03>3"
    ∷ zone "America/Argentina/San_Juan" "<-03>3"
    ∷ zone "America/Argentina/San_Luis" "<-03>3"
    ∷ zone "America/Argentina/Tucuman" "<-03>3"
    ∷ zone "America/Argentina/Ushuaia" "<-03>3"
    ∷ zone "America/Aruba" "AST4"
    ∷ zone "America/Asuncion" "<-04>4<-03>,M10.1.0/0,M3.4.0/0"
    ∷ zone "America/Atikokan" "EST5"
    ∷ zone "America/Bahia" "<-03>3"
    ∷ zone "America/Bahia_Banderas" "CST6"
    ∷ zone "America/Barbados" "AST4"
    ∷ zone "America/Belem" "<-03>3"
    ∷ zone "America/Belize" "CST6"
    ∷ zone "America/Blanc-Sablon" "AST4"
    ∷ zone "America/Boa_Vista" "<-04>4"
    ∷ zone "America/Bogota" "<-05>5"
    ∷ zone "America/Boise" "MST7MDT,M3.2.0,M11.1.0"
    ∷ zone "America/Cambridge_Bay" "MST7MDT,M3.2.0,M11.1.0"
    ∷ zone "America/Campo_Grande" "<-04>4"
    ∷ zone "America/Cancun" "EST5"
    ∷ zone "America/Caracas" "<-04>4"
    ∷ zone "America/Cayenne" "<-03>3"
    ∷ zone "America/Cayman" "EST5"
    ∷ zone "America/Chicago" "CST6CDT,M3.2.0,M11.1.0"
    ∷ zone "America/Chihuahua" "CST6"
    ∷ zone "America/Costa_Rica" "CST6"
    ∷ zone "America/Creston" "MST7"
    ∷ zone "America/Cuiaba" "<-04>4"
    ∷ zone "America/Curacao" "AST4"
    ∷ zone "America/Danmarkshavn" "GMT0"
    ∷ zone "America/Dawson" "MST7"
    ∷ zone "America/Dawson_Creek" "MST7"
    ∷ zone "America/Denver" "MST7MDT,M3.2.0,M11.1.0"
    ∷ zone "America/Detroit" "EST5EDT,M3.2.0,M11.1.0"
    ∷ zone "America/Dominica" "AST4"
    ∷ zone "America/Edmonton" "MST7MDT,M3.2.0,M11.1.0"
    ∷ zone "America/Eirunepe" "<-05>5"
    ∷ zone "America/El_Salvador" "CST6"
    ∷ zone "America/Fortaleza" "<-03>3"
    ∷ zone "America/Fort_Nelson" "MST7"
    ∷ zone "America/Glace_Bay" "AST4ADT,M3.2.0,M11.1.0"
    ∷ zone "America/Godthab" "<-02>2<-01>,M3.5.0/-1,M10.5.0/0"
    ∷ zone "America/Goose_Bay" "AST4ADT,M3.2.0,M11.1.0"
    ∷ zone "America/Grand_Turk" "EST5EDT,M3.2.0,M11.1.0"
    ∷ zone "America/Grenada" "AST4"
    ∷ zone "America/Guadeloupe" "AST4"
    ∷ zone "America/Guatemala" "CST6"
    ∷ zone "America/Guayaquil" "<-05>5"
    ∷ zone "America/Guyana" "<-04>4"
    ∷ zone "America/Halifax" "AST4ADT,M3.2.0,M11.1.0"
    ∷ zone "America/Havana" "CST5CDT,M3.2.0/0,M11.1.0/1"
    ∷ zone "America/Hermosillo" "MST7"
    ∷ zone "America/Indiana/Indianapolis" "EST5EDT,M3.2.0,M11.1.0"
    ∷ zone "America/Indiana/Knox" "CST6CDT,M3.2.0,M11.1.0"
    ∷ zone "America/Indiana/Marengo" "EST5EDT,M3.2.0,M11.1.0"
    ∷ zone "America/Indiana/Petersburg" "EST5EDT,M3.2.0,M11.1.0"
    ∷ zone "America/Indiana/Tell_City" "CST6CDT,M3.2.0,M11.1.0"
    ∷ zone "America/Indiana/Vevay" "EST5EDT,M3.2.0,M11.1.0"
    ∷ zone "America/Indiana/Vincennes" "EST5EDT,M3.2.0,M11.1.0"
    ∷ zone "America/Indiana/Winamac" "EST5EDT,M3.2.0,M11.1.0"
    ∷ zone "America/Inuvik" "MST7MDT,M3.2.0,M11.1.0"
    ∷ zone "America/Iqaluit" "EST5EDT,M3.2.0,M11.1.0"
    ∷ zone "America/Jamaica" "EST5"
    ∷ zone "America/Juneau" "AKST9AKDT,M3.2.0,M11.1.0"
    ∷ zone "America/Kentucky/Louisville" "EST5EDT,M3.2.0,M11.1.0"
    ∷ zone "America/Kentucky/Monticello" "EST5EDT,M3.2.0,M11.1.0"
    ∷ zone "America/Kralendijk" "AST4"
    ∷ zone "America/La_Paz" "<-04>4"
    ∷ zone "America/Lima" "<-05>5"
    ∷ zone "America/Los_Angeles" "PST8PDT,M3.2.0,M11.1.0"
    ∷ zone "America/Lower_Princes" "AST4"
    ∷ zone "America/Maceio" "<-03>3"
    ∷ zone "America/Managua" "CST6"
    ∷ zone "America/Manaus" "<-04>4"
    ∷ zone "America/Marigot" "AST4"
    ∷ zone "America/Martinique" "AST4"
    ∷ zone "America/Matamoros" "CST6CDT,M3.2.0,M11.1.0"
    ∷ zone "America/Mazatlan" "MST7"
    ∷ zone "America/Menominee" "CST6CDT,M3.2.0,M11.1.0"
    ∷ zone "America/Merida" "CST6"
    ∷ zone "America/Metlakatla" "AKST9AKDT,M3.2.0,M11.1.0"
    ∷ zone "America/Mexico_City" "CST6"
    ∷ zone "America/Miquelon" "<-03>3<-02>,M3.2.0,M11.1.0"
    ∷ zone "America/Moncton" "AST4ADT,M3.2.0,M11.1.0"
    ∷ zone "America/Monterrey" "CST6"
    ∷ zone "America/Montevideo" "<-03>3"
    ∷ zone "America/Montreal" "EST5EDT,M3.2.0,M11.1.0"
    ∷ zone "America/Montserrat" "AST4"
    ∷ zone "America/Nassau" "EST5EDT,M3.2.0,M11.1.0"
    ∷ zone "America/New_York" "EST5EDT,M3.2.0,M11.1.0"
    ∷ zone "America/Nipigon" "EST5EDT,M3.2.0,M11.1.0"
    ∷ zone "America/Nome" "AKST9AKDT,M3.2.0,M11.1.0"
    ∷ zone "America/Noronha" "<-02>2"
    ∷ zone "America/North_Dakota/Beulah" "CST6CDT,M3.2.0,M11.1.0"
    ∷ zone "America/North_Dakota/Center" "CST6CDT,M3.2.0,M11.1.0"
    ∷ zone "America/North_Dakota/New_Salem" "CST6CDT,M3.2.0,M11.1.0"
    ∷ zone "America/Nuuk" "<-02>2<-01>,M3.5.0/-1,M10.5.0/0"
    ∷ zone "America/Ojinaga" "CST6CDT,M3.2.0,M11.1.0"
    ∷ zone "America/Panama" "EST5"
    ∷ zone "America/Pangnirtung" "EST5EDT,M3.2.0,M11.1.0"
    ∷ zone "America/Paramaribo" "<-03>3"
    ∷ zone "America/Phoenix" "MST7"
    ∷ zone "America/Port-au-Prince" "EST5EDT,M3.2.0,M11.1.0"
    ∷ zone "America/Port_of_Spain" "AST4"
    ∷ zone "America/Porto_Velho" "<-04>4"
    ∷ zone "America/Puerto_Rico" "AST4"
    ∷ zone "America/Punta_Arenas" "<-03>3"
    ∷ zone "America/Rainy_River" "CST6CDT,M3.2.0,M11.1.0"
    ∷ zone "America/Rankin_Inlet" "CST6CDT,M3.2.0,M11.1.0"
    ∷ zone "America/Recife" "<-03>3"
    ∷ zone "America/Regina" "CST6"
    ∷ zone "America/Resolute" "CST6CDT,M3.2.0,M11.1.0"
    ∷ zone "America/Rio_Branco" "<-05>5"
    ∷ zone "America/Santarem" "<-03>3"
    ∷ zone "America/Santiago" "<-04>4<-03>,M9.1.6/24,M4.1.6/24"
    ∷ zone "America/Santo_Domingo" "AST4"
    ∷ zone "America/Sao_Paulo" "<-03>3"
    ∷ zone "America/Scoresbysund" "<-01>1<+00>,M3.5.0/0,M10.5.0/1"
    ∷ zone "America/Sitka" "AKST9AKDT,M3.2.0,M11.1.0"
    ∷ zone "America/St_Barthelemy" "AST4"
    ∷ zone "America/St_Johns" "NST3:30NDT,M3.2.0,M11.1.0"
    ∷ zone "America/St_Kitts" "AST4"
    ∷ zone "America/St_Lucia" "AST4"
    ∷ zone "America/St_Thomas" "AST4"
    ∷ zone "America/St_Vincent" "AST4"
    ∷ zone "America/Swift_Current" "CST6"
    ∷ zone "America/Tegucigalpa" "CST6"
    ∷ zone "America/Thule" "AST4ADT,M3.2.0,M11.1.0"
    ∷ zone "America/Thunder_Bay" "EST5EDT,M3.2.0,M11.1.0"
    ∷ zone "America/Tijuana" "PST8PDT,M3.2.0,M11.1.0"
    ∷ zone "America/Toronto" "EST5EDT,M3.2.0,M11.1.0"
    ∷ zone "America/Tortola" "AST4"
    ∷ zone "America/Vancouver" "PST8PDT,M3.2.0,M11.1.0"
    ∷ zone "America/Whitehorse" "MST7"
    ∷ zone "America/Winnipeg" "CST6CDT,M3.2.0,M11.1.0"
    ∷ zone "America/Yakutat" "AKST9AKDT,M3.2.0,M11.1.0"
    ∷ zone "America/Yellowknife" "MST7MDT,M3.2.0,M11.1.0"
    ∷ []
