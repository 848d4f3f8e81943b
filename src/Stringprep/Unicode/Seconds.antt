-- ===== src/Stringprep/Unicode/Seconds.antt =====
-- The rows of compSecondList, in stringprep_uni_norm.h (lines 2645 to 2647).
use Prim.Native.String.{String}
use hz_platform.Prelude.{List, [], ◌∷◌}

unfoldable pub comp_second_list : List String
comp_second_list =
    "{3545,3548},{3545,3550},{3398,3404},{2503,2507},{2503,2508},"
    ∷ "{2887,2891},{2887,2888},{2887,2892},{3270,3274},{3270,3272}," ∷ "{1575,1570},{1575,1573}"
    ∷ []
