-- ===== src/Stringprep/Unicode/Cases1.antt =====
-- The rows of multiCaseTable, part 1, in stringprep_uni_data.h (lines 1213 to 1222).
use Prim.Native.String.{String}
use hz_platform.Prelude.{List, [], ◌∷◌}

unfoldable pub multi_case_table_1 : List String
multi_case_table_1 =
    "{2,102,108}," ∷ "{3,102,102,105}," ∷ "{3,102,102,108}," ∷ "{2,115,116}," ∷ "{2,115,116},"
    ∷ "{2,1396,1398}," ∷ "{2,1396,1381}," ∷ "{2,1396,1387}," ∷ "{2,1406,1398}," ∷ "{2,1396,1389}"
    ∷ []
