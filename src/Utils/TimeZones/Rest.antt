-- ===== src/Utils/TimeZones/Rest.antt =====
-- utils/tzinfo.go: names of time zones, in the order of the source.
use yellowstone_common.Common.{List, [], ◌∷◌}
use Prim.Native.String.{String}

unfoldable pub factory_to_prc : List String
factory_to_prc =
    "Factory" ∷ "GB" ∷ "GB-Eire" ∷ "GMT" ∷ "GMT+0" ∷ "GMT-0" ∷ "GMT0" ∷ "Greenwich" ∷ "HST"
    ∷ "Hongkong" ∷ "Iceland" ∷ "Indian/Antananarivo" ∷ "Indian/Chagos" ∷ "Indian/Christmas"
    ∷ "Indian/Cocos" ∷ "Indian/Comoro" ∷ "Indian/Kerguelen" ∷ "Indian/Mahe" ∷ "Indian/Maldives"
    ∷ "Indian/Mauritius" ∷ "Indian/Mayotte" ∷ "Indian/Reunion" ∷ "Iran" ∷ "Israel" ∷ "Jamaica"
    ∷ "Japan" ∷ "Kwajalein" ∷ "Libya" ∷ "MET" ∷ "MST" ∷ "MST7MDT" ∷ "Mexico/BajaNorte"
    ∷ "Mexico/BajaSur" ∷ "Mexico/General" ∷ "NZ" ∷ "NZ-CHAT" ∷ "Navajo" ∷ "PRC" ∷ "PST8PDT" ∷ []

unfoldable pub pacific_to_zulu : List String
pacific_to_zulu =
    "Pacific/Apia" ∷ "Pacific/Auckland" ∷ "Pacific/Bougainville" ∷ "Pacific/Chatham"
    ∷ "Pacific/Chuuk" ∷ "Pacific/Easter" ∷ "Pacific/Efate" ∷ "Pacific/Enderbury" ∷ "Pacific/Fakaofo"
    ∷ "Pacific/Fiji" ∷ "Pacific/Funafuti" ∷ "Pacific/Galapagos" ∷ "Pacific/Gambier"
    ∷ "Pacific/Guadalcanal" ∷ "Pacific/Guam" ∷ "Pacific/Honolulu" ∷ "Pacific/Johnston"
    ∷ "Pacific/Kanton" ∷ "Pacific/Kiritimati" ∷ "Pacific/Kosrae" ∷ "Pacific/Kwajalein"
    ∷ "Pacific/Majuro" ∷ "Pacific/Marquesas" ∷ "Pacific/Midway" ∷ "Pacific/Nauru" ∷ "Pacific/Niue"
    ∷ "Pacific/Norfolk" ∷ "Pacific/Noumea" ∷ "Pacific/Pago_Pago" ∷ "Pacific/Palau"
    ∷ "Pacific/Pitcairn" ∷ "Pacific/Pohnpei" ∷ "Pacific/Ponape" ∷ "Pacific/Port_Moresby"
    ∷ "Pacific/Rarotonga" ∷ "Pacific/Saipan" ∷ "Pacific/Samoa" ∷ "Pacific/Tahiti" ∷ "Pacific/Tarawa"
    ∷ "Pacific/Tongatapu" ∷ "Pacific/Truk" ∷ "Pacific/Wake" ∷ "Pacific/Wallis" ∷ "Pacific/Yap"
    ∷ "Poland" ∷ "Portugal" ∷ "ROC" ∷ "ROK" ∷ "Singapore" ∷ "Turkey" ∷ "UCT" ∷ "US/Alaska"
    ∷ "US/Aleutian" ∷ "US/Arizona" ∷ "US/Central" ∷ "US/East-Indiana" ∷ "US/Eastern" ∷ "US/Hawaii"
    ∷ "US/Indiana-Starke" ∷ "US/Michigan" ∷ "US/Mountain" ∷ "US/Pacific" ∷ "US/Samoa" ∷ "UTC"
    ∷ "Universal" ∷ "W-SU" ∷ "WET" ∷ "Zulu" ∷ []
