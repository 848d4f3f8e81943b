-- ===== src/Stringprep/Unicode/Groups3.antt =====
-- The rows of groupMap, part 3, in stringprep_uni_data.h (lines 693 to 842).
use Prim.Native.String.{String}
use hz_platform.Prelude.{List, [], ◌∷◌}

unfoldable pub group_map_3 : List String
group_map_3 =
    "5,5,5,5,5,5,5,5,5,5,5,5,5,5,5,5,5,5,5,5,5,6,5,"
    ∷ "5,5,5,5,5,5,5,5,5,5,5,5,5,5,5,5,5,5,5,5,5,5,5,"
    ∷ "5,5,5,5,5,5,5,5,5,5,5,5,5,5,5,5,5,5,5,5,5,5,5,"
    ∷ "5,5,5,5,5,5,5,5,5,5,5,5,5,5,5,5,5,5,5,5,5,5,5,"
    ∷ "5,5,5,5,5,5,5,5,5,5,5,5,5,5,5,5,5,5,5,5,5,5,5,"
    ∷ "5,5,5,5,5,5,5,5,5,5,5,5,5,5,5,5,5,5,5,5,185,5,"
    ∷ "186,5,187,5,6,6,6,6,5,5,5,5,5,188,189,190,191,192,"
    ∷ "193,194,195,5,5,196,197,198,5,5,5,199,200,201,202,203,"
    ∷ "5,5,5,5,5,5,5,5,5,5,5,5,5,5,5,5,5,5,5,5,204,205,"
    ∷ "206,207,5,5,5,5,5,5,5,208,209,210,211,212,213,214,215,"
    ∷ "216,217,218,219,220,221,5,222,5,5,5,223,224,225,5,226,"
    ∷ "5,227,228,5,5,5,5,5,5,5,5,229,5,230,231,5,232,233,"
    ∷ "6,6,5,5,5,5,5,5,5,5,5,5,5,5,5,5,5,5,5,5,5,5,5,"
    ∷ "5,5,5,5,5,5,5,5,5,5,6,5,5,5,5,5,5,5,5,5,5,5,5,"
    ∷ "5,5,5,5,5,5,5,5,5,5,5,5,5,5,5,5,5,5,5,5,5,5,5,"
    ∷ "5,5,5,5,5,5,5,5,5,5,5,5,5,5,5,5,5,5,5,5,5,5,5,"
    ∷ "5,5,5,5,5,5,5,5,5,5,5,5,5,5,5,5,5,5,5,5,5,5,5,"
    ∷ "5,5,5,5,5,5,5,5,5,5,5,5,5,5,5,5,5,5,5,5,5,5,5,"
    ∷ "5,5,5,5,5,5,5,5,5,5,5,5,5,5,5,5,5,5,5,5,5,5,5,"
    ∷ "5,5,5,5,5,5,5,5,5,5,5,5,5,5,5,5,5,5,5,5,5,5,5,"
    ∷ "5,5,5,5,5,5,5,5,5,5,5,5,5,5,5,5,5,5,5,5,5,5,5,"
    ∷ "5,5,5,5,5,5,5,5,5,6,6,6,6,6,6,6,6,6,6,6,6,6,6,"
    ∷ "6,6,6,6,6,6,6,6,6,6,6,6,6,6,6,6,6,6,6,6,6,6,6,"
    ∷ "6,6,6,6,6,6,6,6,6,6,6,6,6,6,6,6,6,6,6,6,6,6,6,"
    ∷ "6,6,6,6,6,6,6,6,6,6,6,6,6,6,5,5,5,5,5,5,5,5,5,"
    ∷ "5,5,5,5,5,5,5,5,5,5,5,5,5,5,5,5,5,5,5,5,5,5,5,"
    ∷ "5,5,5,5,5,5,5,5,5,5,5,5,5,5,5,5,5,5,5,5,5,5,5,"
    ∷ "5,5,5,5,5,5,5,5,5,5,5,5,5,5,5,5,5,5,5,5,5,5,5,"
    ∷ "5,5,5,5,5,5,5,5,5,5,5,5,5,5,5,5,5,5,5,5,5,5,5,"
    ∷ "5,5,5,5,5,5,5,5,5,5,5,5,5,5,5,5,5,5,5,5,5,5,5,"
    ∷ "5,5,5,5,5,5,5,5,5,5,5,5,5,5,5,5,5,5,5,5,5,5,5,"
    ∷ "5,5,5,5,5,5,5,5,5,5,5,5,5,5,5,5,5,5,5,6,6,6,6,"
    ∷ "6,6,6,6,6,6,6,6,6,6,6,6,6,6,6,6,6,6,6,6,6,6,6,"
    ∷ "6,6,6,6,6,6,6,6,6,6,6,6,6,6,6,6,6,6,6,6,6,6,6,"
    ∷ "6,6,6,6,6,6,6,6,6,6,6,6,6,6,6,6,6,6,6,6,6,6,6,"
    ∷ "6,6,6,6,6,6,6,6,6,6,6,6,6,6,6,6,6,5,5,5,5,5,5,"
    ∷ "5,5,5,5,5,5,5,5,5,5,5,5,5,5,5,5,5,5,5,5,5,5,5,"
    ∷ "5,5,5,5,5,5,5,5,5,5,5,5,5,5,5,5,5,5,5,5,5,5,5,"
    ∷ "5,5,5,5,5,5,5,5,5,5,5,5,5,5,5,5,5,5,5,5,5,5,5,"
    ∷ "5,5,5,5,5,5,5,5,5,5,5,5,5,5,5,5,5,5,5,5,5,5,5,"
    ∷ "5,5,5,5,5,5,5,5,5,5,5,5,5,5,5,5,5,5,5,5,5,5,5,"
    ∷ "5,5,5,5,5,5,5,5,5,5,5,5,5,5,5,5,5,5,5,5,6,6,6,"
    ∷ "2,2,2,2,2,2,2,2,2,2,2,2,2,2,2,2,2,2,2,2,2,2,2,"
    ∷ "2,2,2,2,2,2,2,2,2,2,2,2,2,2,2,2,2,2,2,2,2,2,2,"
    ∷ "2,2,2,2,2,2,2,2,2,6,6,6,6,6,6,6,6,6,6,6,6,6,6,"
    ∷ "6,6,6,6,6,6,6,6,6,6,6,6,6,6,6,6,6,6,6,6,6,6,6,"
    ∷ "6,6,6,6,6,6,6,6,6,6,6,6,6,6,6,6,6,6,6,6,5,5,5,"
    ∷ "5,5,5,5,5,5,5,5,5,5,5,5,5,5,5,5,5,5,5,5,5,5,5,"
    ∷ "5,5,5,5,5,5,5,5,5,5,5,5,5,5,5,5,5,5,5,5,5,5,5,"
    ∷ "5,5,5,5,5,5,5,5,5,5,5,5,5,5,5,5,5,5,5,5,5,5,5,"
    ∷ "5,5,5,5,5,5,5,5,5,5,5,5,5,5,5,5,5,5,5,5,5,5,5,"
    ∷ "5,5,5,5,5,5,5,5,5,5,5,5,5,5,5,5,5,5,5,5,5,5,5,"
    ∷ "5,5,5,5,5,5,5,5,5,5,5,5,5,5,5,5,5,5,5,5,5,5,5,"
    ∷ "5,5,5,5,5,5,5,5,5,5,5,5,5,5,5,5,5,5,5,5,5,5,5,"
    ∷ "6,6,6,6,6,6,6,6,6,6,6,6,6,6,6,6,6,6,6,6,6,6,6,"
    ∷ "6,6,6,6,6,6,6,6,6,6,6,6,6,6,6,6,6,6,6,6,6,6,6,"
    ∷ "6,6,6,6,6,6,6,6,6,6,6,6,6,6,6,6,6,6,6,6,6,6,6,"
    ∷ "6,6,6,6,6,6,6,6,6,6,6,6,6,6,6,6,6,6,6,6,6,6,6,"
    ∷ "154,154,154,154,154,154,154,154,154,154,154,154,154,154,"
    ∷ "154,154,154,154,154,154,154,154,154,154,154,154,154,154,"
    ∷ "154,154,154,154,154,154,154,154,154,154,154,154,154,154,"
    ∷ "154,154,154,154,154,154,154,154,154,154,154,154,154,154,"
    ∷ "154,154,154,154,154,154,154,154,154,154,154,154,154,154,"
    ∷ "154,154,154,154,154,154,154,154,154,154,154,154,154,154,"
    ∷ "154,154,154,154,154,154,154,154,154,154,154,154,154,154,"
    ∷ "154,154,154,154,154,154,154,154,154,154,154,154,154,154,"
    ∷ "154,154,154,154,154,154,154,154,154,154,154,154,154,154,"
    ∷ "154,154,154,154,154,154,154,154,154,154,154,154,154,154,"
    ∷ "154,154,154,154,154,154,154,154,154,154,154,154,154,154,"
    ∷ "154,154,154,154,154,154,154,154,154,154,154,154,154,154,"
    ∷ "154,154,154,154,154,154,154,154,154,154,154,154,154,154,"
    ∷ "154,154,154,154,154,154,154,154,154,154,154,154,154,154,"
    ∷ "154,154,154,154,154,154,154,154,154,154,154,154,154,154,"
    ∷ "154,154,154,154,154,154,154,154,154,154,154,154,154,154,"
    ∷ "154,154,154,154,154,154,154,154,154,154,154,154,154,154,"
    ∷ "154,154,154,154,154,154,154,154,154,154,154,154,154,154,"
    ∷ "154,154,154,154,5,5,5,5,5,5,5,5,5,5,5,5,5,5,5,5,"
    ∷ "5,5,5,5,5,5,5,5,5,5,5,5,5,5,5,5,5,5,5,5,5,5,5,"
    ∷ "5,5,5,5,5,5,5,6,6,5,5,5,5,5,5,5,5,5,5,5,5,5,5,"
    ∷ "5,5,5,5,5,5,5,5,5,5,5,5,5,5,5,5,5,5,5,5,5,5,5,"
    ∷ "5,5,5,5,5,5,5,5,5,5,5,5,5,5,5,5,5,5,5,5,5,5,6,"
    ∷ "6,6,6,6,6,6,6,6,6,6,6,6,6,6,6,6,6,6,6,6,6,6,6,"
    ∷ "6,6,6,6,6,6,6,6,6,6,6,6,6,6,6,6,6,6,6,6,6,6,6,"
    ∷ "6,6,6,6,6,6,6,6,6,6,6,6,6,6,6,6,6,6,6,6,6,6,6,"
    ∷ "6,6,6,6,6,6,6,6,6,6,6,6,6,6,6,6,6,6,6,6,6,6,6,"
    ∷ "6,6,6,6,6,6,6,6,6,6,6,6,6,6,6,6,6,6,6,6,6,6,6,"
    ∷ "6,6,6,6,6,6,6,6,6,6,6,6,6,6,6,6,6,6,6,6,6,6,6,"
    ∷ "6,6,6,6,6,6,6,6,6,6,234,235,236,237,238,239,240,6,"
    ∷ "6,6,6,6,6,6,6,6,6,6,6,241,242,243,244,245,6,6,6,"
    ∷ "6,6,57,2,57,57,57,57,57,57,57,57,57,57,2,57,57,57,"
    ∷ "57,57,57,57,57,57,57,57,57,57,6,57,57,57,57,57,6,57,"
    ∷ "6,57,57,6,57,57,6,57,57,57,57,57,57,57,57,57,57,57,"
    ∷ "57,57,57,57,57,57,57,57,57,57,57,57,57,57,57,57,57,"
    ∷ "57,57,57,57,57,57,57,57,57,57,57,57,57,57,57,57,57,"
    ∷ "57,57,57,57,57,57,57,57,57,57,57,57,57,57,57,57,57,"
    ∷ "57,57,57,57,57,57,57,57,57,57,57,57,57,57,57,57,57,"
    ∷ "57,57,57,57,57,57,57,57,57,57,57,57,57,57,57,57,57,"
    ∷ "57,57,57,57,57,57,57,57,57,57,57,57,6,6,6,6,6,6,6,"
    ∷ "6,6,6,6,6,6,6,6,6,6,6,6,6,6,6,6,6,6,6,6,6,6,6,"
    ∷ "6,6,6,57,57,57,57,57,57,57,57,57,57,57,57,57,57,57,"
    ∷ "57,57,57,57,57,57,57,57,57,57,57,57,57,57,57,57,57,"
    ∷ "57,57,57,57,57,57,57,57,57,57,57,57,57,57,57,57,57,"
    ∷ "57,57,57,57,57,57,57,57,57,57,57,57,57,57,57,57,57,"
    ∷ "57,57,57,57,57,57,57,57,57,57,57,57,57,57,57,57,57,"
    ∷ "57,57,57,57,57,57,57,57,57,57,57,57,57,57,57,57,57,"
    ∷ "57,57,57,57,57,57,57,57,57,57,57,57,57,57,57,57,57,"
    ∷ "57,57,57,57,57,57,57,57,57,57,57,57,57,57,57,57,57,"
    ∷ "57,57,57,57,57,57,57,57,57,57,57,57,57,57,57,57,57,"
    ∷ "57,57,57,57,57,57,57,57,57,57,57,57,57,57,57,57,57,"
    ∷ "57,57,57,57,57,57,57,57,57,57,57,57,57,57,57,57,57,"
    ∷ "57,57,57,57,57,57,57,57,57,57,57,57,57,57,57,57,57,"
    ∷ "57,57,57,57,57,57,57,57,57,57,57,57,57,57,57,57,57,"
    ∷ "57,57,57,57,57,57,57,57,57,57,57,57,57,57,57,57,57,"
    ∷ "57,57,57,57,57,57,57,57,57,57,57,57,57,57,57,57,57,"
    ∷ "57,57,57,57,57,57,57,57,57,57,57,57,57,57,57,57,57,"
    ∷ "57,57,57,57,57,57,57,57,57,57,57,57,57,57,57,57,57,"
    ∷ "57,57,57,57,57,57,57,57,57,57,57,57,57,57,57,57,57,"
    ∷ "57,57,57,57,57,57,57,57,57,57,57,57,57,57,57,57,57,"
    ∷ "57,57,57,57,57,57,57,57,57,57,57,57,57,57,57,57,57,"
    ∷ "57,57,57,57,57,57,57,57,57,57,57,57,57,57,57,57,57,"
    ∷ "57,57,57,57,57,57,57,57,2,2,6,6,6,6,6,6,6,6,6,6,"
    ∷ "6,6,6,6,6,6,57,57,57,57,57,57,57,57,57,57,57,57,57,"
    ∷ "57,57,57,57,57,57,57,57,57,57,57,57,57,57,57,57,57,"
    ∷ "57,57,57,57,57,57,57,57,57,57,57,57,57,57,57,57,57,"
    ∷ "57,57,57,57,57,57,57,57,57,57,57,57,57,57,57,57,57,"
    ∷ "6,6,57,57,57,57,57,57,57,57,57,57,57,57,57,57,57,57,"
    ∷ "57,57,57,57,57,57,57,57,57,57,57,57,57,57,57,57,57,"
    ∷ "57,57,57,57,57,57,57,57,57,57,57,57,57,57,57,57,57,"
    ∷ "57,57,57,57,6,6,6,6,6,6,6,6,6,6,6,6,6,6,6,6,6,"
    ∷ "6,6,6,6,6,6,6,6,6,6,6,6,6,6,6,6,6,6,6,6,6,6,6,"
    ∷ "57,57,57,57,57,57,57,57,57,57,57,57,57,6,6,6,7,7,"
    ∷ "7,7,7,7,7,7,7,7,7,7,7,7,7,7,6,6,6,6,6,6,6,6,6,"
    ∷ "6,6,6,6,6,6,6,2,2,2,2,6,6,6,6,6,6,6,6,6,6,6,6,"
    ∷ "2,2,2,2,2,2,2,2,2,2,2,2,2,2,2,2,2,2,2,2,2,2,2,"
    ∷ "6,6,2,2,2,2,2,2,2,2,2,2,6,2,2,2,2,2,2,2,2,2,2,"
    ∷ "2,2,2,2,2,2,2,2,2,6,2,2,2,2,6,6,6,6,57,57,57,57,"
    ∷ "57,6,57,57,57,57,57,57,57,57,57,57,57,57,57,57,57,"
    ∷ "57,57,57,57,57,57,57,57,57,57,57,57,57,57,57,57,57,"
    ∷ "57,57,57,57,57,57,57,57,57,57,57,57,57,57,57,57,57,"
    ∷ "57,57,57,57,57,57,57,57,57,57,57,57,57,57,57,57,57,"
    ∷ "57,57,57,57,57,57,57,57,57,57,57,57,57,57,57,57,57,"
    ∷ "57,57,57,57,57,57,57,57,57,57,57,57,57,57,57,57,57,"
    ∷ "57,57,57,57,57,57,57,57,57,57,57,57,57,57,57,57,57,"
    ∷ "57,57,57,57,57,57,57,57,57,57,57,57,57,57,57,57,57,"
    ∷ "57,6,6,153,6,2,2,2,2,2,2,2,2,2,2,2,2,2,2,2,2,2,"
    ∷ "2,2,2,2,2,2,2,2,2,2,2,2,2,2,2,4,4,4,4,4,4,4,4,"
    ∷ "4,4,4,4,4,4,4,4,4,4,4,4,4,4,4,4,4,4,2,2,2,2,2,"
    ∷ "2,5,5,5,5,5,5,5,5,5,5,5,5,5,5,5,5,5,5,5,5,5,5,"
    ∷ "5,5,5,5,2,2,2,2,2,2,2,2,2,2,2,5,5,5,5,5,5,5,5,"
    ∷ "5,5,5,5,5,5,5,5,5,5,5,5,5,5,5,5,5,5,5,5,5,5,5," ∷ []
