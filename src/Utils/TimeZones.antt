-- ===== src/Utils/TimeZones.antt =====
-- utils/tzinfo.go: `TimeZones`. Its lines stand in the files below this one, by continents.
mod Africa
mod America
mod Asia
mod Others
mod Rest
use yellowstone_common.Common.{List, ◌++◌}
use Prim.Native.String.{String}
use Africa.{africa}
use America.{america_a_to_i, america_j_to_y}
use Asia.{polar, asia}
use Others.{atlantic_to_eire, etc, europe}
use Rest.{factory_to_prc, pacific_to_zulu}

unfoldable pub time_zones : List String
unfolding africa america_a_to_i america_j_to_y polar asia atlantic_to_eire etc europe factory_to_prc
    pacific_to_zulu
time_zones =
    africa
    ++ (america_a_to_i
        ++ (america_j_to_y
            ++ (polar
                ++ (asia
                    ++ (atlantic_to_eire
                        ++ (etc ++ (europe ++ (factory_to_prc ++ pacific_to_zulu))))))))
