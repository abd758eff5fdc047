-- ===== src/Utils/TimeZones/Asia.antt =====
-- utils/tzinfo.go: names of time zones, in the order of the source.
use yellowstone_common.Common.{List, [], ◌∷◌}
use Prim.Native.String.{String}

unfoldable pub polar : List String
polar =
    "Antarctica/Casey" ∷ "Antarctica/Davis" ∷ "Antarctica/DumontDUrville" ∷ "Antarctica/Macquarie"
    ∷ "Antarctica/Mawson" ∷ "Antarctica/McMurdo" ∷ "Antarctica/Palmer" ∷ "Antarctica/Rothera"
    ∷ "Antarctica/South_Pole" ∷ "Antarctica/Syowa" ∷ "Antarctica/Troll" ∷ "Antarctica/Vostok"
    ∷ "Arctic/Longyearbyen" ∷ []

unfoldable pub asia : List String
asia =
    "Asia/Aden" ∷ "Asia/Almaty" ∷ "Asia/Amman" ∷ "Asia/Anadyr" ∷ "Asia/Aqtau" ∷ "Asia/Aqtobe"
    ∷ "Asia/Ashgabat" ∷ "Asia/Ashkhabad" ∷ "Asia/Atyrau" ∷ "Asia/Baghdad" ∷ "Asia/Bahrain"
    ∷ "Asia/Baku" ∷ "Asia/Bangkok" ∷ "Asia/Barnaul" ∷ "Asia/Beirut" ∷ "Asia/Bishkek" ∷ "Asia/Brunei"
    ∷ "Asia/Calcutta" ∷ "Asia/Chita" ∷ "Asia/Choibalsan" ∷ "Asia/Chongqing" ∷ "Asia/Chungking"
    ∷ "Asia/Colombo" ∷ "Asia/Dacca" ∷ "Asia/Damascus" ∷ "Asia/Dhaka" ∷ "Asia/Dili" ∷ "Asia/Dubai"
    ∷ "Asia/Dushanbe" ∷ "Asia/Famagusta" ∷ "Asia/Gaza" ∷ "Asia/Harbin" ∷ "Asia/Hebron"
    ∷ "Asia/Ho_Chi_Minh" ∷ "Asia/Hong_Kong" ∷ "Asia/Hovd" ∷ "Asia/Irkutsk" ∷ "Asia/Istanbul"
    ∷ "Asia/Jakarta" ∷ "Asia/Jayapura" ∷ "Asia/Jerusalem" ∷ "Asia/Kabul" ∷ "Asia/Kamchatka"
    ∷ "Asia/Karachi" ∷ "Asia/Kashgar" ∷ "Asia/Kathmandu" ∷ "Asia/Katmandu" ∷ "Asia/Khandyga"
    ∷ "Asia/Kolkata" ∷ "Asia/Krasnoyarsk" ∷ "Asia/Kuala_Lumpur" ∷ "Asia/Kuching" ∷ "Asia/Kuwait"
    ∷ "Asia/Macao" ∷ "Asia/Macau" ∷ "Asia/Magadan" ∷ "Asia/Makassar" ∷ "Asia/Manila" ∷ "Asia/Muscat"
    ∷ "Asia/Nicosia" ∷ "Asia/Novokuznetsk" ∷ "Asia/Novosibirsk" ∷ "Asia/Omsk" ∷ "Asia/Oral"
    ∷ "Asia/Phnom_Penh" ∷ "Asia/Pontianak" ∷ "Asia/Pyongyang" ∷ "Asia/Qatar" ∷ "Asia/Qostanay"
    ∷ "Asia/Qyzylorda" ∷ "Asia/Rangoon" ∷ "Asia/Riyadh" ∷ "Asia/Saigon" ∷ "Asia/Sakhalin"
    ∷ "Asia/Samarkand" ∷ "Asia/Seoul" ∷ "Asia/Shanghai" ∷ "Asia/Singapore" ∷ "Asia/Srednekolymsk"
    ∷ "Asia/Taipei" ∷ "Asia/Tashkent" ∷ "Asia/Tbilisi" ∷ "Asia/Tehran" ∷ "Asia/Tel_Aviv"
    ∷ "Asia/Thimbu" ∷ "Asia/Thimphu" ∷ "Asia/Tokyo" ∷ "Asia/Tomsk" ∷ "Asia/Ujung_Pandang"
    ∷ "Asia/Ulaanbaatar" ∷ "Asia/Ulan_Bator" ∷ "Asia/Urumqi" ∷ "Asia/Ust-Nera" ∷ "Asia/Vientiane"
    ∷ "Asia/Vladivostok" ∷ "Asia/Yakutsk" ∷ "Asia/Yangon" ∷ "Asia/Yekaterinburg" ∷ "Asia/Yerevan"
    ∷ []
