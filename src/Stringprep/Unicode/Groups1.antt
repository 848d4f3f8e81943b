-- ===== src/Stringprep/Unicode/Groups1.antt =====
-- The rows of groupMap, part 1, in stringprep_uni_data.h (lines 393 to 542).
use Prim.Native.String.{String}
use hz_platform.Prelude.{List, [], ◌∷◌}

unfoldable pub group_map_1 : List String
group_map_1 =
    "5,5,5,5,5,5,5,5,6,5,5,5,5,5,5,5,5,5,5,6,5,5,5,"
    ∷ "5,5,6,6,6,6,5,2,5,5,5,5,5,6,2,5,5,6,5,5,2,2,6,"
    ∷ "6,6,6,6,6,6,5,5,6,6,6,6,6,6,6,5,6,5,5,6,6,6,6,"
    ∷ "5,5,5,5,5,5,5,5,5,5,6,6,6,6,6,6,6,6,6,6,6,6,6,"
    ∷ "6,6,6,6,6,5,5,6,5,5,5,5,5,5,5,5,6,5,5,5,6,5,5,"
    ∷ "5,5,5,5,5,5,5,5,5,5,5,5,5,5,5,5,5,5,5,5,5,6,5,"
    ∷ "5,5,5,5,5,5,5,5,5,5,5,5,5,5,5,6,6,6,6,5,5,5,2,"
    ∷ "2,2,6,6,5,5,5,6,5,5,5,2,6,6,6,6,6,6,6,6,6,5,6,"
    ∷ "6,6,6,6,6,6,6,5,5,6,6,6,6,5,5,5,5,5,5,5,5,5,5,"
    ∷ "6,6,6,6,6,6,6,6,6,6,6,6,6,6,6,6,6,6,5,5,6,5,5,"
    ∷ "5,5,5,5,5,5,5,5,5,5,5,5,5,5,5,5,6,6,6,5,5,5,5,"
    ∷ "5,5,5,5,5,5,5,5,5,5,5,5,5,5,5,5,5,5,5,5,6,5,5,"
    ∷ "5,5,5,5,5,5,5,6,5,6,6,5,5,5,5,5,5,5,6,6,6,2,6,"
    ∷ "6,6,6,5,5,5,2,2,2,6,2,6,5,5,5,5,5,5,5,5,6,6,6,"
    ∷ "6,6,6,6,6,6,6,6,6,6,6,6,6,6,6,5,5,5,6,6,6,6,6,"
    ∷ "6,6,6,6,6,6,6,5,5,5,5,5,5,5,5,5,5,5,5,5,5,5,5,"
    ∷ "5,5,5,5,5,5,5,5,5,5,5,5,5,5,5,5,5,5,5,5,5,5,5,"
    ∷ "5,5,5,5,5,5,5,5,5,2,5,5,2,2,2,2,2,2,2,6,6,6,6,"
    ∷ "2,5,5,5,5,5,5,5,2,2,2,2,2,2,2,2,5,5,5,5,5,5,5,"
    ∷ "5,5,5,5,5,5,6,6,6,6,6,6,6,6,6,6,6,6,6,6,6,6,6,"
    ∷ "6,6,6,6,6,6,6,6,6,6,6,6,6,6,6,6,6,6,6,6,5,5,6,"
    ∷ "5,6,6,5,5,6,5,6,6,5,6,6,6,6,6,6,5,5,5,5,6,5,5,"
    ∷ "5,5,5,5,5,6,5,5,5,6,5,6,5,6,6,5,5,6,5,5,5,5,2,"
    ∷ "5,5,2,2,2,2,2,2,6,2,2,5,6,6,5,5,5,5,5,6,5,6,2,"
    ∷ "2,2,2,2,2,6,6,5,5,5,5,5,5,5,5,5,5,6,6,5,5,6,6,"
    ∷ "6,6,6,6,6,6,6,6,6,6,6,6,6,6,6,6,6,6,6,6,6,6,6,"
    ∷ "6,6,6,6,6,6,6,6,6,5,5,5,5,5,5,5,5,5,5,5,5,5,5,"
    ∷ "5,5,5,5,5,5,5,5,5,5,2,2,5,5,5,5,5,5,5,5,5,5,5,"
    ∷ "5,5,5,5,5,5,5,5,5,5,5,5,5,5,5,5,2,5,2,5,2,2,2,"
    ∷ "2,2,5,5,5,5,5,5,5,5,5,5,6,5,5,5,5,5,5,5,5,5,5,"
    ∷ "5,5,5,5,5,5,5,5,5,5,5,5,5,5,5,5,5,5,5,5,5,5,5,"
    ∷ "5,6,6,6,6,6,6,2,2,2,2,2,2,2,2,2,2,2,2,2,2,5,2,"
    ∷ "2,2,2,2,5,2,2,5,5,5,5,6,6,6,6,2,2,2,2,2,2,2,2,"
    ∷ "6,2,2,2,2,2,2,2,2,2,2,2,2,2,2,2,2,2,2,2,2,2,2,"
    ∷ "2,2,2,2,2,2,2,2,2,2,2,2,2,2,6,5,5,5,5,5,5,5,5,"
    ∷ "2,5,5,5,5,5,5,6,6,5,6,6,6,6,6,6,6,6,6,6,6,6,6,"
    ∷ "6,6,6,6,6,6,6,6,6,6,6,6,6,6,6,6,6,6,6,6,6,6,6,"
    ∷ "6,6,6,6,6,6,6,6,6,6,6,6,5,5,5,5,5,5,5,5,5,5,5,"
    ∷ "5,5,5,5,5,5,5,5,5,5,5,5,5,5,5,5,5,5,5,5,5,5,5,"
    ∷ "6,5,5,5,5,5,6,5,5,6,5,2,2,2,2,5,2,6,6,6,2,2,5,"
    ∷ "2,6,6,6,6,6,6,5,5,5,5,5,5,5,5,5,5,5,5,5,5,5,5,"
    ∷ "5,5,5,5,5,5,5,5,2,2,6,6,6,6,6,6,6,6,6,6,6,6,6,"
    ∷ "6,6,6,6,6,6,6,6,6,6,6,6,6,6,6,6,6,6,6,6,6,6,6,"
    ∷ "6,6,6,6,6,6,6,6,6,6,6,6,6,6,6,6,6,6,6,6,6,6,6,"
    ∷ "6,6,6,6,6,6,6,6,6,6,6,5,5,5,5,5,5,5,5,5,5,5,5,"
    ∷ "5,5,5,5,5,5,5,5,5,5,5,5,5,5,5,5,5,5,5,5,5,5,5,"
    ∷ "5,5,5,6,6,6,6,6,6,6,6,6,6,5,5,5,5,5,5,5,5,5,5,"
    ∷ "5,5,5,5,5,5,5,5,5,5,5,5,5,5,5,5,5,5,5,5,5,5,5,"
    ∷ "5,5,5,5,5,5,5,5,6,6,5,6,6,6,6,5,5,5,5,5,5,5,5,"
    ∷ "5,5,5,5,5,5,5,5,5,5,5,5,5,5,5,5,5,5,5,5,5,5,5,"
    ∷ "5,5,5,5,5,5,5,5,5,5,5,5,5,5,5,5,5,5,5,5,5,5,5,"
    ∷ "5,5,5,5,5,5,5,5,5,5,5,5,5,5,5,5,5,5,5,5,5,5,5,"
    ∷ "5,5,5,5,5,5,5,5,5,5,5,5,5,6,6,6,6,6,5,5,5,5,5,"
    ∷ "5,5,5,5,5,5,5,5,5,5,5,5,5,5,5,5,5,5,5,5,5,5,5,"
    ∷ "5,5,5,5,5,5,5,5,5,5,5,5,5,5,5,5,5,5,5,5,5,5,5,"
    ∷ "5,5,5,5,5,5,5,5,5,5,5,5,5,5,5,5,5,6,6,6,6,6,5,"
    ∷ "5,5,5,5,5,5,5,5,5,5,5,5,5,5,5,5,5,5,5,5,5,5,5,"
    ∷ "5,5,5,5,5,5,5,5,5,5,5,5,5,5,5,5,5,5,5,5,5,5,5,"
    ∷ "5,5,5,5,5,5,5,5,5,5,5,5,5,5,5,5,5,5,5,5,5,5,5,"
    ∷ "5,5,5,5,5,5,5,5,5,5,5,5,6,6,6,6,6,6,5,5,5,5,5,"
    ∷ "5,5,6,5,5,5,5,5,5,5,5,5,5,5,5,5,5,5,5,5,5,5,5,"
    ∷ "5,5,5,5,5,5,5,5,5,5,5,5,5,5,5,5,5,5,5,5,5,5,5,"
    ∷ "5,5,5,5,5,5,5,5,5,5,5,5,5,5,5,5,5,5,5,5,6,5,6,"
    ∷ "5,5,5,5,6,6,5,5,5,5,5,5,5,6,5,6,5,5,5,5,6,6,5,"
    ∷ "5,5,5,5,5,5,5,5,5,5,5,5,5,5,5,5,5,5,5,5,5,5,5,"
    ∷ "5,5,5,5,5,5,5,5,5,5,5,5,5,5,5,6,5,6,5,5,5,5,6,"
    ∷ "6,5,5,5,5,5,5,5,5,5,5,5,5,5,5,5,5,5,5,5,5,5,5,"
    ∷ "5,5,5,5,5,5,5,5,5,6,5,6,5,5,5,5,6,6,5,5,5,5,5,"
    ∷ "5,5,6,5,6,5,5,5,5,6,6,5,5,5,5,5,5,5,6,5,5,5,5,"
    ∷ "5,5,5,6,5,5,5,5,5,5,5,5,5,5,5,5,5,5,5,5,5,5,5,"
    ∷ "5,5,5,5,6,5,5,5,5,5,5,5,5,5,5,5,5,5,5,5,5,5,5,"
    ∷ "5,5,5,5,5,5,5,5,5,5,5,5,5,6,5,6,5,5,5,5,6,6,5,"
    ∷ "5,5,5,5,5,5,6,5,5,5,5,5,5,5,5,5,5,5,5,5,5,5,5,"
    ∷ "5,5,5,5,5,5,5,5,5,5,5,5,5,5,5,5,5,5,5,5,5,5,5,"
    ∷ "6,5,5,5,5,5,5,5,5,5,5,5,5,5,5,5,5,5,5,5,6,6,6,"
    ∷ "6,6,6,5,5,5,5,5,5,5,5,5,5,5,5,5,5,5,5,5,5,5,5,"
    ∷ "5,5,5,5,5,5,5,5,6,6,6,6,6,6,6,6,6,6,6,6,6,6,6,"
    ∷ "6,6,6,6,6,6,6,6,6,6,6,6,6,6,6,6,6,6,6,6,5,5,5,"
    ∷ "5,5,5,5,5,5,5,5,5,5,5,5,5,5,5,5,5,5,5,5,5,5,5,"
    ∷ "5,5,5,5,5,5,5,5,5,5,5,5,5,5,5,5,5,5,5,5,5,5,5,"
    ∷ "5,5,5,5,5,5,5,5,5,5,5,5,5,5,5,5,5,5,5,5,5,5,5,"
    ∷ "5,5,5,5,5,5,5,5,5,5,5,5,5,6,6,6,6,6,6,6,6,6,6,"
    ∷ "6,6,5,5,5,5,5,5,5,5,5,5,5,5,5,5,5,5,5,5,5,5,5,"
    ∷ "5,5,5,5,5,5,5,5,5,5,5,5,5,5,5,5,5,5,5,5,5,5,5,"
    ∷ "5,5,5,5,5,5,5,5,5,5,5,5,5,5,5,5,5,5,5,5,5,5,5,"
    ∷ "5,5,5,5,5,5,5,5,5,5,5,5,5,5,5,5,5,5,5,5,5,5,5,"
    ∷ "5,5,5,5,5,5,5,5,5,5,5,5,5,5,5,5,5,5,5,5,5,5,5,"
    ∷ "5,5,5,5,5,5,5,5,5,5,5,5,5,5,5,5,5,5,5,5,5,5,5,"
    ∷ "5,5,5,5,5,5,5,5,5,5,5,5,5,5,5,5,5,5,5,5,5,5,5,"
    ∷ "5,5,5,5,5,5,5,5,5,5,5,5,5,5,5,5,5,5,5,5,5,5,5,"
    ∷ "5,5,5,5,5,5,5,5,5,5,5,5,5,5,5,5,5,5,5,5,5,5,5,"
    ∷ "5,5,5,5,5,5,5,5,5,5,5,5,5,5,5,5,5,5,5,5,5,5,5,"
    ∷ "5,5,5,5,5,5,5,5,5,5,5,5,5,5,5,5,5,5,5,5,5,5,5,"
    ∷ "5,5,5,5,5,5,5,5,5,5,5,5,5,5,5,5,5,5,5,5,5,5,5,"
    ∷ "5,5,5,5,5,5,5,5,5,5,5,5,5,5,5,5,5,5,5,5,5,5,5,"
    ∷ "5,5,5,5,5,5,5,5,5,5,5,5,5,5,5,5,5,5,5,5,5,5,5,"
    ∷ "5,5,5,5,5,5,5,5,5,5,5,5,5,5,5,5,5,5,5,5,5,5,5,"
    ∷ "5,5,5,5,5,5,5,5,5,5,5,5,5,5,5,5,5,5,5,5,5,5,5,"
    ∷ "5,5,5,5,5,5,5,5,5,5,5,5,5,5,5,5,5,5,5,5,5,5,5,"
    ∷ "5,5,5,5,5,5,5,5,5,5,5,5,5,5,5,5,5,5,5,5,5,5,5,"
    ∷ "5,5,5,5,5,5,5,5,5,5,5,5,5,5,5,5,5,5,5,5,5,5,5,"
    ∷ "5,5,5,5,5,5,5,5,5,5,5,5,5,5,5,5,5,5,5,5,5,5,5,"
    ∷ "5,5,5,5,5,5,5,5,5,5,5,5,5,5,5,5,5,5,5,5,5,5,5,"
    ∷ "5,5,5,5,5,5,5,5,5,5,5,5,5,5,5,5,5,5,5,5,5,5,5,"
    ∷ "5,5,5,5,5,5,5,5,5,5,5,5,5,5,5,5,5,5,5,5,5,5,5,"
    ∷ "5,5,5,5,5,5,5,5,5,5,5,5,5,5,5,5,5,5,5,5,5,5,5,"
    ∷ "5,5,5,5,5,5,5,5,5,5,5,5,5,5,5,5,5,5,5,5,5,5,5,"
    ∷ "5,5,5,5,5,5,5,5,5,5,5,5,5,5,5,5,5,5,5,5,5,5,5,"
    ∷ "5,5,5,5,5,5,5,5,5,5,5,5,5,5,5,5,5,5,5,5,5,5,5,"
    ∷ "5,5,5,5,5,5,5,5,5,5,5,6,6,6,6,6,6,6,6,6,6,5,5,"
    ∷ "5,5,5,5,5,5,5,5,5,5,5,5,5,5,5,5,5,5,5,5,5,5,5,"
    ∷ "5,2,2,6,6,6,5,5,5,5,5,5,5,5,5,5,5,5,5,5,5,5,5,"
    ∷ "5,5,5,5,5,5,5,5,5,5,5,5,5,5,5,5,5,5,5,5,5,5,5,"
    ∷ "5,5,5,5,5,5,5,5,5,5,5,5,5,5,5,5,5,5,5,5,5,5,5,"
    ∷ "5,5,5,5,5,5,5,5,5,5,5,5,5,5,5,5,5,5,6,6,6,6,6,"
    ∷ "6,6,6,6,6,6,6,6,6,6,5,5,5,5,5,5,5,5,5,5,5,5,5,"
    ∷ "6,5,5,5,5,2,2,2,6,6,6,6,6,6,6,6,6,6,6,5,5,5,5,"
    ∷ "5,5,5,5,5,5,5,5,5,5,5,5,5,5,2,2,2,5,5,6,6,6,6,"
    ∷ "6,6,6,6,6,5,5,5,5,5,5,5,5,5,5,5,5,5,5,5,5,5,5,"
    ∷ "2,2,6,6,6,6,6,6,6,6,6,6,6,6,5,5,5,5,5,5,5,5,5,"
    ∷ "5,5,5,5,6,5,5,5,6,2,2,6,6,6,6,6,6,6,6,6,6,6,6,"
    ∷ "5,5,5,5,5,5,5,5,5,5,5,5,5,5,5,5,5,5,5,5,5,5,5,"
    ∷ "5,5,5,5,5,5,5,5,5,5,5,5,5,5,5,5,5,5,5,5,5,5,5,"
    ∷ "5,5,5,5,5,5,5,5,5,2,2,2,2,2,2,2,5,5,5,5,5,5,5,"
    ∷ "5,2,5,5,2,2,2,2,2,2,2,2,2,2,2,5,5,5,5,5,5,5,2,"
    ∷ "5,6,6,6,5,5,5,5,5,5,5,5,5,5,6,6,6,6,6,6,6,6,6,"
    ∷ "6,6,6,6,6,6,6,6,6,6,6,6,6,2,2,2,2,2,2,7,2,2,2,"
    ∷ "2,7,7,7,6,6,5,5,5,5,5,5,5,5,5,5,6,6,6,6,6,6,5,"
    ∷ "5,5,5,5,5,5,5,5,5,5,5,5,5,5,5,5,5,5,5,5,5,5,5,"
    ∷ "5,5,5,5,5,5,5,5,5,5,5,5,5,5,5,5,5,5,5,5,5,5,5,"
    ∷ "5,5,5,5,5,5,5,5,5,5,5,5,5,5,5,5,5,5,5,5,5,5,5,"
    ∷ "5,5,5,5,5,5,5,5,5,5,5,5,5,5,5,5,5,5,6,6,6,6,6,"
    ∷ "6,6,6,5,5,5,5,5,5,5,5,5,5,5,5,5,5,5,5,5,5,5,5,"
    ∷ "5,5,5,5,5,5,5,5,5,5,5,5,5,5,5,5,5,5,5,5,5,2,6,"
    ∷ "6,6,6,6,6,6,6,6,6,6,6,6,6,6,6,6,6,6,6,6,6,6,6,"
    ∷ "6,6,6,6,6,6,6,6,6,6,6,6,6,6,6,6,6,6,6,6,6,6,6,"
    ∷ "6,6,6,6,6,6,6,6,6,6,6,6,6,6,6,6,6,6,6,6,6,6,6,"
    ∷ "6,6,6,6,6,6,6,6,6,6,6,6,6,6,6,6,10,5,10,5,10,5,"
    ∷ "10,5,10,5,10,5,10,5,10,5,10,5,10,5,10,5,10,5,10,"
    ∷ "5,10,5,10,5,10,5,10,5,10,5,10,5,10,5,10,5,10,5,10,"
    ∷ "5,10,5,10,5,10,5,10,5,10,5,10,5,10,5,10,5,10,5,10,"
    ∷ "5,10,5,10,5,10,5,10,5,10,5,10,5,10,5,10,5,10,5,10,"
    ∷ "5,10,5,10,5,10,5,10,5,10,5,10,5,10,5,10,5,10,5,10,"
    ∷ "5,10,5,10,5,10,5,10,5,10,5,10,5,10,5,10,5,10,5,10,"
    ∷ "5,10,5,10,5,10,5,10,5,10,5,10,5,10,5,10,5,10,5,10,"
    ∷ "5,10,5,10,5,59,60,61,62,63,64,6,6,6,6,10,5,10,5,"
    ∷ "10,5,10,5,10,5,10,5,10,5,10,5,10,5,10,5,10,5,10,"
    ∷ "5,10,5,10,5,10,5,10,5,10,5,10,5,10,5,10,5,10,5,10,"
    ∷ "5,10,5,10,5,10,5,10,5,10,5,10,5,10,5,10,5,10,5,10,"
    ∷ "5,10,5,10,5,10,5,10,5,10,5,10,5,10,5,10,5,10,5,10," ∷ []
