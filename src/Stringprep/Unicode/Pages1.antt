-- ===== src/Stringprep/Unicode/Pages1.antt =====
-- The rows of pageMap, part 1, in stringprep_uni_data.h (lines 180 to 233).
use Prim.Native.String.{String}
use hz_platform.Prelude.{List, [], ◌∷◌}

unfoldable pub page_map_1 : List String
page_map_1 =
    "8,8,8,8,8,8,8,8,8,8,8,8,8,8,8,8,8,8,8,8,8,8,8,"
    ∷ "8,8,8,8,8,8,8,8,8,8,8,8,8,8,8,8,8,8,8,8,8,8,8,"
    ∷ "8,8,8,8,8,8,8,8,8,8,8,8,8,8,8,8,8,8,8,8,8,8,8,"
    ∷ "8,8,8,8,8,8,8,8,8,8,8,8,8,8,8,8,8,8,8,8,8,8,8,"
    ∷ "8,8,8,8,8,8,8,8,8,8,8,8,8,8,8,8,8,8,8,8,8,8,8,"
    ∷ "8,8,8,8,8,8,8,8,8,8,8,8,8,8,8,8,8,8,8,8,8,8,8,"
    ∷ "8,8,8,8,8,8,8,8,8,8,8,8,8,8,8,8,8,8,8,8,8,8,8,"
    ∷ "8,8,8,8,8,8,8,8,8,8,8,8,8,8,8,8,8,8,8,8,8,8,8,"
    ∷ "8,8,8,8,8,8,8,8,8,8,8,8,8,8,8,8,8,8,8,8,8,8,8,"
    ∷ "8,8,8,8,8,8,8,8,8,8,8,8,8,8,8,8,8,8,8,8,8,8,8,"
    ∷ "8,8,8,8,8,8,8,8,8,8,8,8,8,8,8,8,8,8,8,8,8,8,8,"
    ∷ "8,8,8,8,8,8,8,8,8,8,8,8,8,8,8,8,8,8,8,8,8,8,8,"
    ∷ "8,8,8,8,8,8,8,8,8,8,8,8,8,8,8,8,8,8,8,8,8,8,8,"
    ∷ "8,8,8,8,8,8,8,8,8,8,8,8,8,8,8,8,8,8,8,8,8,8,8,"
    ∷ "8,8,8,8,8,8,8,8,8,8,8,8,8,8,8,8,8,8,8,8,8,8,8,"
    ∷ "8,8,8,8,8,8,8,8,8,8,8,8,8,8,8,8,8,8,8,8,8,8,8,"
    ∷ "8,8,8,8,8,8,8,8,8,8,8,8,8,8,8,8,8,8,8,8,8,8,8,"
    ∷ "8,8,8,8,8,8,8,8,8,8,8,8,8,8,8,8,8,8,8,8,8,8,8,"
    ∷ "8,8,8,8,8,8,8,8,8,8,8,8,8,8,8,8,8,8,8,8,8,8,8,"
    ∷ "8,8,8,8,8,8,8,8,8,8,8,8,8,8,8,8,8,8,8,8,8,8,8,"
    ∷ "8,8,8,8,8,8,8,8,8,8,8,8,8,8,8,8,8,8,8,8,8,8,8,"
    ∷ "8,8,8,8,8,8,8,8,8,8,8,8,8,8,8,8,8,8,8,8,8,8,8,"
    ∷ "8,8,8,8,8,8,8,8,8,8,8,8,8,8,8,8,8,8,8,8,8,8,8,"
    ∷ "8,8,8,8,8,8,44,44,44,44,44,44,44,44,44,44,44,44,44,"
    ∷ "44,44,44,44,44,44,44,44,44,44,44,44,44,44,44,44,44,"
    ∷ "44,44,44,44,44,44,44,44,44,44,44,44,44,44,44,44,44,"
    ∷ "44,44,44,44,44,44,44,44,44,44,44,44,44,44,44,44,44,"
    ∷ "44,44,44,44,44,44,44,44,44,44,44,44,44,44,44,44,44,"
    ∷ "44,44,44,44,44,44,44,44,44,44,44,44,44,44,44,44,44,"
    ∷ "44,44,44,44,44,44,44,44,44,44,44,44,44,44,44,44,44,"
    ∷ "44,44,44,44,44,44,44,44,44,44,44,44,44,44,44,44,44,"
    ∷ "44,44,44,44,44,44,44,44,44,44,44,44,44,44,44,44,44,"
    ∷ "44,44,44,44,44,44,44,44,44,44,44,44,44,44,44,44,44,"
    ∷ "44,44,44,44,44,44,44,44,44,44,44,44,44,44,44,44,44,"
    ∷ "44,44,44,44,44,44,44,44,44,44,44,44,44,44,44,44,44,"
    ∷ "44,44,44,44,44,44,44,44,44,44,44,44,44,44,44,44,44,"
    ∷ "44,44,44,44,44,44,44,44,44,44,44,44,44,44,44,44,44,"
    ∷ "44,44,44,44,44,44,44,44,44,44,44,44,44,44,44,44,44,"
    ∷ "44,44,44,44,61,44,44,44,44,44,44,44,44,44,44,44,44,"
    ∷ "44,44,44,44,44,44,44,44,44,44,44,44,44,44,44,44,44,"
    ∷ "44,44,44,44,44,44,44,44,44,44,44,44,44,44,44,44,44,"
    ∷ "44,44,44,44,44,44,44,44,44,44,44,44,44,44,44,44,44,"
    ∷ "44,44,44,44,44,44,44,44,44,44,44,44,44,44,44,44,44,"
    ∷ "44,44,44,44,44,44,44,44,44,44,44,44,44,44,44,44,44,"
    ∷ "44,44,44,44,44,44,44,44,44,44,44,44,44,44,44,44,44,"
    ∷ "44,44,44,44,44,44,44,44,44,44,44,44,44,44,44,44,44,"
    ∷ "44,44,44,44,44,44,44,44,44,44,44,44,44,44,44,44,44,"
    ∷ "44,44,44,44,44,44,44,44,44,44,44,44,44,44,44,44,44,"
    ∷ "44,44,44,44,44,44,44,44,44,44,44,44,44,44,44,44,44,"
    ∷ "44,44,44,44,44,44,44,44,44,44,44,44,44,44,44,44,44,"
    ∷ "44,44,44,44,44,44,44,44,44,44,44,44,44,44,44,44,44,"
    ∷ "44,44,44,44,44,44,44,44,44,44,44,44,44,44,44,44,44,"
    ∷ "44,44,44,44,44,44,44,44,44,44,44,44,44,44,44,44,44," ∷ "44,44,44,44,44,61" ∷ []
