-- ===== src/Utils/TimeZones/Others.antt =====
-- utils/tzinfo.go: names of time zones, in the order of the source.
use yellowstone_common.Common.{List, [], ◌∷◌}
use Prim.Native.String.{String}

unfoldable pub atlantic_to_eire : List String
atlantic_to_eire =
    "Atlantic/Azores" ∷ "Atlantic/Bermuda" ∷ "Atlantic/Canary" ∷ "Atlantic/Cape_Verde"
    ∷ "Atlantic/Faeroe" ∷ "Atlantic/Faroe" ∷ "Atlantic/Jan_Mayen" ∷ "Atlantic/Madeira"
    ∷ "Atlantic/Reykjavik" ∷ "Atlantic/South_Georgia" ∷ "Atlantic/St_Helena" ∷ "Atlantic/Stanley"
    ∷ "Australia/ACT" ∷ "Australia/Adelaide" ∷ "Australia/Brisbane" ∷ "Australia/Broken_Hill"
    ∷ "Australia/Canberra" ∷ "Australia/Currie" ∷ "Australia/Darwin" ∷ "Australia/Eucla"
    ∷ "Australia/Hobart" ∷ "Australia/LHI" ∷ "Australia/Lindeman" ∷ "Australia/Lord_Howe"
    ∷ "Australia/Melbourne" ∷ "Australia/NSW" ∷ "Australia/North" ∷ "Australia/Perth"
    ∷ "Australia/Queensland" ∷ "Australia/South" ∷ "Australia/Sydney" ∷ "Australia/Tasmania"
    ∷ "Australia/Victoria" ∷ "Australia/West" ∷ "Australia/Yancowinna" ∷ "Brazil/Acre"
    ∷ "Brazil/DeNoronha" ∷ "Brazil/East" ∷ "Brazil/West" ∷ "CET" ∷ "CST6CDT" ∷ "Canada/Atlantic"
    ∷ "Canada/Central" ∷ "Canada/Eastern" ∷ "Canada/Mountain" ∷ "Canada/Newfoundland"
    ∷ "Canada/Pacific" ∷ "Canada/Saskatchewan" ∷ "Canada/Yukon" ∷ "Chile/Continental"
    ∷ "Chile/EasterIsland" ∷ "Cuba" ∷ "EET" ∷ "EST" ∷ "EST5EDT" ∷ "Egypt" ∷ "Eire" ∷ []

unfoldable pub etc : List String
etc =
    "Etc/GMT" ∷ "Etc/GMT+0" ∷ "Etc/GMT+1" ∷ "Etc/GMT+10" ∷ "Etc/GMT+11" ∷ "Etc/GMT+12" ∷ "Etc/GMT+2"
    ∷ "Etc/GMT+3" ∷ "Etc/GMT+4" ∷ "Etc/GMT+5" ∷ "Etc/GMT+6" ∷ "Etc/GMT+7" ∷ "Etc/GMT+8"
    ∷ "Etc/GMT+9" ∷ "Etc/GMT-0" ∷ "Etc/GMT-1" ∷ "Etc/GMT-10" ∷ "Etc/GMT-11" ∷ "Etc/GMT-12"
    ∷ "Etc/GMT-13" ∷ "Etc/GMT-14" ∷ "Etc/GMT-2" ∷ "Etc/GMT-3" ∷ "Etc/GMT-4" ∷ "Etc/GMT-5"
    ∷ "Etc/GMT-6" ∷ "Etc/GMT-7" ∷ "Etc/GMT-8" ∷ "Etc/GMT-9" ∷ "Etc/GMT0" ∷ "Etc/Greenwich"
    ∷ "Etc/UCT" ∷ "Etc/UTC" ∷ "Etc/Universal" ∷ "Etc/Zulu" ∷ []

unfoldable pub europe : List String
europe =
    "Europe/Amsterdam" ∷ "Europe/Andorra" ∷ "Europe/Astrakhan" ∷ "Europe/Athens" ∷ "Europe/Belfast"
    ∷ "Europe/Belgrade" ∷ "Europe/Berlin" ∷ "Europe/Bratislava" ∷ "Europe/Brussels"
    ∷ "Europe/Bucharest" ∷ "Europe/Budapest" ∷ "Europe/Busingen" ∷ "Europe/Chisinau"
    ∷ "Europe/Copenhagen" ∷ "Europe/Dublin" ∷ "Europe/Gibraltar" ∷ "Europe/Guernsey"
    ∷ "Europe/Helsinki" ∷ "Europe/Isle_of_Man" ∷ "Europe/Istanbul" ∷ "Europe/Jersey"
    ∷ "Europe/Kaliningrad" ∷ "Europe/Kiev" ∷ "Europe/Kirov" ∷ "Europe/Kyiv" ∷ "Europe/Lisbon"
    ∷ "Europe/Ljubljana" ∷ "Europe/London" ∷ "Europe/Luxembourg" ∷ "Europe/Madrid" ∷ "Europe/Malta"
    ∷ "Europe/Mariehamn" ∷ "Europe/Minsk" ∷ "Europe/Monaco" ∷ "Europe/Moscow" ∷ "Europe/Nicosia"
    ∷ "Europe/Oslo" ∷ "Europe/Paris" ∷ "Europe/Podgorica" ∷ "Europe/Prague" ∷ "Europe/Riga"
    ∷ "Europe/Rome" ∷ "Europe/Samara" ∷ "Europe/San_Marino" ∷ "Europe/Sarajevo" ∷ "Europe/Saratov"
    ∷ "Europe/Simferopol" ∷ "Europe/Skopje" ∷ "Europe/Sofia" ∷ "Europe/Stockholm" ∷ "Europe/Tallinn"
    ∷ "Europe/Tirane" ∷ "Europe/Tiraspol" ∷ "Europe/Ulyanovsk" ∷ "Europe/Uzhgorod" ∷ "Europe/Vaduz"
    ∷ "Europe/Vatican" ∷ "Europe/Vienna" ∷ "Europe/Vilnius" ∷ "Europe/Volgograd" ∷ "Europe/Warsaw"
    ∷ "Europe/Zagreb" ∷ "Europe/Zaporozhye" ∷ "Europe/Zurich" ∷ []
