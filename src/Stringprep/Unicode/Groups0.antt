-- ===== src/Stringprep/Unicode/Groups0.antt =====
-- The rows of groupMap, part 0, in stringprep_uni_data.h (lines 243 to 392).
use Prim.Native.String.{String}
use hz_platform.Prelude.{List, [], ◌∷◌}

unfoldable pub group_map_0 : List String
group_map_0 =
    "0,0,0,0,0,0,0,0,0,0,0,0,0,0,0,0,0,0,0,0,0,0,0,"
    ∷ "0,0,0,0,0,0,0,0,0,1,2,3,2,2,2,3,3,2,2,2,2,2,2,"
    ∷ "2,3,2,2,2,2,2,2,2,2,2,2,3,2,3,2,3,2,3,4,4,4,4,"
    ∷ "4,4,4,4,4,4,4,4,4,4,4,4,4,4,4,4,4,4,4,4,4,4,2,"
    ∷ "2,2,2,2,2,5,5,5,5,5,5,5,5,5,5,5,5,5,5,5,5,5,5,"
    ∷ "5,5,5,5,5,5,5,5,2,2,2,2,0,6,6,6,6,6,6,6,6,6,6,"
    ∷ "6,6,6,6,6,6,6,6,6,6,6,6,6,6,6,6,6,6,6,6,6,6,6,"
    ∷ "2,2,2,2,2,2,2,2,2,5,2,2,7,2,2,2,2,2,2,2,8,2,2,"
    ∷ "2,2,5,2,2,2,2,2,4,4,4,4,4,4,4,4,4,4,4,4,4,4,4,"
    ∷ "4,4,4,4,4,4,4,4,2,4,4,4,4,4,4,4,9,5,5,5,5,5,5,"
    ∷ "5,5,5,5,5,5,5,5,5,5,5,5,5,5,5,5,5,2,5,5,5,5,5,"
    ∷ "5,5,5,10,5,10,5,10,5,10,5,10,5,10,5,10,5,10,5,10,"
    ∷ "5,10,5,10,5,10,5,10,5,10,5,10,5,10,5,10,5,10,5,10,"
    ∷ "5,10,5,10,5,10,5,10,5,10,5,11,5,10,5,10,5,10,5,5,"
    ∷ "10,5,10,5,10,5,10,5,10,5,10,5,10,5,10,5,12,10,5,"
    ∷ "10,5,10,5,10,5,10,5,10,5,10,5,10,5,10,5,10,5,10,"
    ∷ "5,10,5,10,5,10,5,10,5,10,5,10,5,10,5,10,5,10,5,10,"
    ∷ "5,10,5,10,5,13,10,5,10,5,10,5,14,5,15,10,5,10,5,"
    ∷ "16,10,5,17,17,10,5,5,18,19,20,10,5,17,21,5,22,23,"
    ∷ "10,5,5,5,22,24,5,25,10,5,10,5,10,5,26,10,5,26,5,"
    ∷ "5,10,5,26,10,5,27,27,10,5,10,5,28,10,5,5,5,10,5,"
    ∷ "5,5,5,5,5,5,29,10,5,29,10,5,29,10,5,10,5,10,5,10,"
    ∷ "5,10,5,10,5,10,5,10,5,10,5,5,10,5,10,5,10,5,10,5,"
    ∷ "10,5,10,5,10,5,10,5,10,5,30,29,10,5,10,5,31,32,10,"
    ∷ "5,10,5,10,5,10,5,10,5,10,5,10,5,10,5,10,5,10,5,10,"
    ∷ "5,10,5,10,5,10,5,10,5,10,5,10,5,10,5,10,5,10,5,33,"
    ∷ "6,10,5,10,5,10,5,10,5,10,5,10,5,10,5,10,5,10,5,6,"
    ∷ "6,6,6,6,6,6,6,6,6,6,6,6,6,6,6,6,6,6,6,6,6,6,6,"
    ∷ "6,6,6,6,5,5,5,5,5,5,5,5,5,5,5,5,5,5,5,5,5,5,5,"
    ∷ "5,5,5,5,5,5,5,5,5,5,5,5,5,5,5,5,5,5,5,5,5,5,5,"
    ∷ "5,5,5,5,5,5,5,5,5,5,5,5,5,5,5,5,5,5,5,5,5,5,5,"
    ∷ "5,5,5,5,5,5,5,5,5,5,5,5,5,5,5,5,5,5,5,5,5,5,5,"
    ∷ "5,5,5,5,5,5,6,6,5,5,5,5,5,5,5,5,5,2,2,5,5,5,5,"
    ∷ "5,5,5,2,2,2,2,2,2,2,2,2,2,2,2,2,2,5,5,2,2,2,2,"
    ∷ "2,2,2,2,2,2,2,2,2,2,5,5,5,5,5,2,2,2,2,2,2,2,2,"
    ∷ "2,5,6,6,6,6,6,6,6,6,6,6,6,6,6,6,6,6,6,2,2,2,2,"
    ∷ "2,2,2,2,2,2,2,2,2,2,2,2,2,2,2,2,2,2,2,2,2,2,2,"
    ∷ "2,2,2,2,2,2,2,2,2,2,2,2,2,2,2,2,2,2,2,2,2,2,2,"
    ∷ "2,2,2,2,2,2,2,2,2,2,2,2,2,2,6,6,2,2,2,34,2,2,"
    ∷ "2,2,2,2,2,2,2,7,6,6,6,6,6,6,6,6,6,6,6,6,6,6,6,"
    ∷ "6,2,2,2,2,2,2,2,2,2,2,2,2,2,2,2,2,6,6,6,6,2,2,"
    ∷ "6,6,6,6,35,6,6,6,2,6,6,6,6,6,2,2,36,2,37,37,37,"
    ∷ "6,38,6,39,39,40,4,4,4,4,4,4,4,4,4,4,4,4,4,4,4,"
    ∷ "4,4,6,4,4,4,4,4,4,4,4,4,5,5,5,5,41,5,5,5,5,5,"
    ∷ "5,5,5,5,5,5,5,5,5,5,5,5,10,5,5,5,5,5,5,5,5,5,"
    ∷ "5,5,5,6,42,43,44,45,46,47,48,5,10,5,10,5,10,5,10,"
    ∷ "5,10,5,10,5,10,5,10,5,10,5,10,5,10,5,10,5,49,50,"
    ∷ "51,5,52,53,2,6,6,6,6,6,6,6,6,6,54,54,54,54,54,54,"
    ∷ "54,54,54,54,54,54,54,54,54,54,4,4,4,4,4,4,4,4,4,"
    ∷ "4,4,4,4,4,4,4,4,4,4,4,4,4,4,4,4,4,4,4,4,4,4,4,"
    ∷ "5,5,5,5,5,5,5,5,5,5,5,5,5,5,5,5,5,5,5,5,5,5,5,"
    ∷ "5,5,5,5,5,5,5,5,5,5,5,5,5,5,5,5,5,5,5,5,5,5,5,"
    ∷ "5,5,10,5,10,5,10,5,10,5,10,5,10,5,10,5,10,5,10,5,"
    ∷ "10,5,10,5,10,5,10,5,10,5,10,5,10,5,10,5,5,2,2,2,"
    ∷ "2,6,2,2,10,5,10,5,10,5,10,5,10,5,10,5,10,5,10,5,"
    ∷ "10,5,10,5,10,5,10,5,10,5,10,5,10,5,10,5,10,5,10,"
    ∷ "5,10,5,10,5,10,5,10,5,10,5,10,5,10,5,10,5,10,5,5,"
    ∷ "10,5,10,5,10,5,10,5,10,5,10,5,10,5,6,10,5,10,5,10,"
    ∷ "5,10,5,10,5,10,5,10,5,10,5,10,5,10,5,10,5,10,5,10,"
    ∷ "5,10,5,10,5,10,5,10,5,10,5,10,5,6,6,10,5,6,6,6,"
    ∷ "6,6,6,10,5,10,5,10,5,10,5,10,5,10,5,10,5,10,5,6,"
    ∷ "6,6,6,6,6,6,6,6,6,6,6,6,6,6,6,6,6,6,6,6,6,6,6,"
    ∷ "6,6,6,6,6,6,6,6,6,55,55,55,55,55,55,55,55,55,55,"
    ∷ "55,55,55,55,55,55,55,55,55,55,55,55,55,55,55,55,55,"
    ∷ "55,55,55,55,55,55,55,55,55,55,55,6,6,5,5,5,5,5,5,"
    ∷ "5,6,5,5,5,5,5,5,5,5,5,5,5,5,5,5,5,5,5,5,5,5,5,"
    ∷ "5,5,5,5,5,5,5,5,5,5,5,5,5,5,5,5,5,56,6,5,2,6,"
    ∷ "6,6,6,6,6,2,2,2,2,2,2,2,2,2,2,2,2,2,2,2,2,2,6,"
    ∷ "2,2,2,2,2,2,2,2,2,2,2,2,2,2,2,2,2,2,2,2,2,2,2,"
    ∷ "6,2,2,2,57,2,57,2,2,57,2,6,6,6,6,6,6,6,6,6,6,6,"
    ∷ "57,57,57,57,57,57,57,57,57,57,57,57,57,57,57,57,57,"
    ∷ "57,57,57,57,57,57,57,57,57,57,6,6,6,6,6,57,57,57,"
    ∷ "57,57,6,6,6,6,6,6,6,6,6,6,6,6,6,6,6,6,6,6,6,6,"
    ∷ "6,6,6,2,6,6,6,6,6,6,6,6,6,6,6,6,6,6,57,6,6,6,"
    ∷ "57,6,57,57,57,57,57,57,57,57,57,57,57,57,57,57,57,"
    ∷ "57,57,57,57,57,57,57,57,57,57,57,6,6,6,6,6,57,57,"
    ∷ "57,57,57,57,57,57,57,57,57,2,2,2,2,2,2,2,2,2,2,2,"
    ∷ "6,6,6,6,6,6,6,6,6,6,2,2,2,2,2,2,2,2,2,2,2,2,2,"
    ∷ "57,57,57,2,57,57,57,57,57,57,57,57,57,57,57,57,57,"
    ∷ "57,57,57,57,57,57,57,57,57,57,57,57,57,57,57,57,57,"
    ∷ "57,57,57,57,57,57,57,57,57,57,57,57,57,57,57,57,57,"
    ∷ "57,57,57,57,57,57,57,57,57,57,57,57,57,57,57,57,57,"
    ∷ "57,57,57,57,57,57,57,57,57,57,57,57,57,57,57,57,57,"
    ∷ "57,57,57,57,57,57,57,57,57,57,57,57,57,57,57,57,57,"
    ∷ "57,57,57,2,2,2,2,2,2,2,58,2,2,2,2,2,2,2,57,57,2,"
    ∷ "2,2,2,2,2,2,6,6,2,2,2,2,2,2,2,2,2,2,57,57,57,57,"
    ∷ "57,6,57,57,57,57,57,57,57,57,57,57,57,57,57,57,6,6,"
    ∷ "57,2,57,57,57,57,57,57,57,57,57,57,57,57,57,57,57,"
    ∷ "57,57,57,57,57,57,57,57,57,57,57,57,6,6,6,2,2,2,2,"
    ∷ "2,2,2,2,2,2,2,2,2,2,2,2,2,2,2,2,2,2,2,2,2,2,2,"
    ∷ "6,6,6,6,6,6,6,6,6,6,6,6,6,6,6,6,6,6,6,6,6,6,6,"
    ∷ "6,6,6,6,6,6,6,6,6,6,6,6,6,6,6,6,6,6,6,6,6,6,6,"
    ∷ "6,6,6,6,6,6,6,57,57,57,57,57,57,57,57,57,57,57,57,"
    ∷ "57,57,57,57,57,57,57,57,57,57,57,57,57,57,57,57,57,"
    ∷ "57,57,57,57,57,57,57,57,57,2,2,2,2,2,2,2,2,2,2,2,"
    ∷ "57,6,6,6,6,6,6,6,6,6,6,6,6,6,6,6,6,6,6,6,6,6,"
    ∷ "6,6,6,6,6,6,6,6,6,6,6,6,6,6,6,6,6,6,6,6,6,6,6,"
    ∷ "6,6,6,6,6,6,6,6,6,6,6,6,6,6,6,6,6,6,6,6,6,6,6,"
    ∷ "6,6,6,6,6,6,6,6,6,6,6,6,6,6,6,6,6,6,6,6,6,6,6,"
    ∷ "6,6,6,6,6,6,6,6,6,6,6,6,6,6,6,6,6,6,6,6,6,6,6,"
    ∷ "6,6,6,6,6,6,6,6,6,6,6,6,6,6,6,6,6,6,6,6,6,6,6,"
    ∷ "6,6,6,6,6,6,6,6,6,6,6,6,6,6,6,6,6,6,6,6,6,6,6,"
    ∷ "6,6,6,6,6,6,6,6,6,6,6,6,6,6,6,6,6,6,6,6,6,6,6,"
    ∷ "6,6,6,6,6,6,6,6,6,6,6,6,6,6,6,6,6,6,6,6,6,6,6,"
    ∷ "6,6,6,6,6,6,6,6,6,6,6,6,6,6,6,6,6,6,6,6,6,6,6,"
    ∷ "6,6,6,6,6,6,6,6,6,6,6,6,6,6,6,6,6,6,6,6,6,6,6,"
    ∷ "6,6,6,6,6,6,6,6,6,6,6,6,6,6,6,6,6,6,6,6,6,6,6,"
    ∷ "6,6,6,6,6,6,6,6,6,6,6,6,6,6,6,6,6,6,6,6,6,6,6,"
    ∷ "6,6,6,6,6,6,6,6,6,6,6,6,6,6,6,6,6,6,6,6,6,6,6,"
    ∷ "6,6,6,6,6,6,6,6,6,6,6,6,6,6,6,2,2,5,6,5,5,5,5,"
    ∷ "5,5,5,5,5,5,5,5,5,5,5,5,5,5,5,5,5,5,5,5,5,5,5,"
    ∷ "5,5,5,5,5,5,5,5,5,5,5,5,5,5,5,5,5,5,5,5,5,5,5,"
    ∷ "5,5,5,6,6,2,5,5,5,5,2,2,2,2,2,2,2,2,5,5,5,5,2,"
    ∷ "6,6,5,2,2,2,2,6,6,6,5,5,5,5,5,5,5,5,5,5,2,2,5,"
    ∷ "5,5,5,5,5,5,5,5,5,5,5,5,6,6,6,6,6,6,6,6,6,6,6,"
    ∷ "6,6,6,6,6,2,5,5,6,5,5,5,5,5,5,5,5,6,6,5,5,6,6,"
    ∷ "5,5,5,5,5,5,5,5,5,5,5,5,5,5,5,5,5,5,5,5,5,5,6,"
    ∷ "5,5,5,5,5,5,5,6,5,6,6,6,5,5,5,5,6,6,2,6,5,5,5,"
    ∷ "2,2,2,2,6,6,5,5,6,6,5,5,2,6,6,6,6,6,6,6,6,6,5,"
    ∷ "6,6,6,6,5,5,6,5,5,5,2,2,6,6,5,5,5,5,5,5,5,5,5,"
    ∷ "5,5,5,2,2,5,5,5,5,5,5,5,6,6,6,6,6,6,6,2,6,6,5,"
    ∷ "5,5,5,5,5,6,6,6,6,5,5,6,6,5,5,5,5,5,5,5,5,5,5,"
    ∷ "5,5,5,5,5,5,5,5,5,5,5,5,6,5,5,5,5,5,5,5,6,5,5,"
    ∷ "6,5,5,6,5,5,6,6,2,6,5,5,5,2,2,6,6,6,6,2,2,6,6,"
    ∷ "2,2,2,6,6,6,6,6,6,6,6,6,6,6,5,5,5,5,6,5,6,6,6,"
    ∷ "6,6,6,6,5,5,5,5,5,5,5,5,5,5,2,2,5,5,5,6,6,6,6,"
    ∷ "6,6,6,6,6,6,6,6,2,2,5,6,5,5,5,5,5,5,5,6,5,6,5,"
    ∷ "5,5,6,5,5,5,5,5,5,5,5,5,5,5,5,5,5,5,5,5,5,5,5,"
    ∷ "5,5,6,5,5,5,5,5,5,5,6,5,5,6,5,5,5,5,5,6,6,2,5,"
    ∷ "5,5,5,2,2,2,2,2,6,2,2,5,6,5,5,2,6,6,5,6,6,6,6,"
    ∷ "6,6,6,6,6,6,6,6,6,6,6,5,6,6,6,6,6,5,5,5,5,5,5,"
    ∷ "5,5,5,5,6,6,6,6,6,6,6,6,6,6,6,6,6,6,6,6,6,2,5,"
    ∷ "5,6,5,5,5,5,5,5,5,5,6,6,5,5,6,6,5,5,5,5,5,5,5,"
    ∷ "5,5,5,5,5,5,5,5,5,5,5,5,5,5,5,6,5,5,5,5,5,5,5,"
    ∷ "6,5,5,6,6,5,5,5,5,6,6,2,5,5,2,5,2,2,2,6,6,6,5,"
    ∷ "5,6,6,5,5,2,6,6,6,6,6,6,6,6,2,5,6,6,6,6,5,5,6,"
    ∷ "5,5,5,6,6,6,6,5,5,5,5,5,5,5,5,5,5,5,6,6,6,6,6,"
    ∷ "6,6,6,6,6,6,6,6,6,6,6,6,2,5,6,5,5,5,5,5,5,6,6,"
    ∷ "6,5,5,5,6,5,5,5,5,6,6,6,5,5,6,5,6,5,5,6,6,6,5,"
    ∷ "5,6,6,6,5,5,5,6,6,6,5,5,5,5,5,5,5,5,6,5,5,5,6,"
    ∷ "6,6,6,5,5,2,5,5,6,6,6,5,5,5,6,5,5,5,2,6,6,6,6,"
    ∷ "6,6,6,6,6,5,6,6,6,6,6,6,6,6,6,6,6,6,6,6,6,5,5,"
    ∷ "5,5,5,5,5,5,5,5,5,5,6,6,6,6,6,6,6,6,6,6,6,6,6,"
    ∷ "6,5,5,5,6,5,5,5,5,5,5,5,5,6,5,5,5,6,5,5,5,5,5,"
    ∷ "5,5,5,5,5,5,5,5,5,5,5,5,5,5,5,5,5,5,6,5,5,5,5,"
    ∷ "5,5,5,5,5,5,6,5,5,5,5,5,6,6,6,6,2,2,2,5,5,5,5,"
    ∷ "6,2,2,2,6,2,2,2,2,6,6,6,6,6,6,6,2,2,6,6,6,6,6,"
    ∷ "6,6,6,6,5,5,6,6,6,6,5,5,5,5,5,5,5,5,5,5,6,6,6,"
    ∷ "6,6,6,6,6,6,6,6,6,6,6,6,6,6,6,5,5,6,5,5,5,5,5,"
    ∷ "5,5,5,6,5,5,5,6,5,5,5,5,5,5,5,5,5,5,5,5,5,5,5," ∷ []
