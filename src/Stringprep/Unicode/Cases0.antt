-- ===== src/Stringprep/Unicode/Cases0.antt =====
-- The rows of multiCaseTable, part 0, in stringprep_uni_data.h (lines 1063 to 1212).
use Prim.Native.String.{String}
use hz_platform.Prelude.{List, [], ◌∷◌}

unfoldable pub multi_case_table_0 : List String
multi_case_table_0 =
    "{2,115,115}," ∷ "{2,105,775}," ∷ "{2,700,110}," ∷ "{2,106,780}," ∷ "{2,32,953},"
    ∷ "{3,953,776,769}," ∷ "{3,965,776,769}," ∷ "{2,1381,1410}," ∷ "{2,104,817}," ∷ "{2,116,776},"
    ∷ "{2,119,778}," ∷ "{2,121,778}," ∷ "{2,97,702}," ∷ "{2,965,787}," ∷ "{3,965,787,768},"
    ∷ "{3,965,787,769}," ∷ "{3,965,787,834}," ∷ "{2,7936,953}," ∷ "{2,7937,953}," ∷ "{2,7938,953},"
    ∷ "{2,7939,953}," ∷ "{2,7940,953}," ∷ "{2,7941,953}," ∷ "{2,7942,953}," ∷ "{2,7943,953},"
    ∷ "{2,7936,953}," ∷ "{2,7937,953}," ∷ "{2,7938,953}," ∷ "{2,7939,953}," ∷ "{2,7940,953},"
    ∷ "{2,7941,953}," ∷ "{2,7942,953}," ∷ "{2,7943,953}," ∷ "{2,7968,953}," ∷ "{2,7969,953},"
    ∷ "{2,7970,953}," ∷ "{2,7971,953}," ∷ "{2,7972,953}," ∷ "{2,7973,953}," ∷ "{2,7974,953},"
    ∷ "{2,7975,953}," ∷ "{2,7968,953}," ∷ "{2,7969,953}," ∷ "{2,7970,953}," ∷ "{2,7971,953},"
    ∷ "{2,7972,953}," ∷ "{2,7973,953}," ∷ "{2,7974,953}," ∷ "{2,7975,953}," ∷ "{2,8032,953},"
    ∷ "{2,8033,953}," ∷ "{2,8034,953}," ∷ "{2,8035,953}," ∷ "{2,8036,953}," ∷ "{2,8037,953},"
    ∷ "{2,8038,953}," ∷ "{2,8039,953}," ∷ "{2,8032,953}," ∷ "{2,8033,953}," ∷ "{2,8034,953},"
    ∷ "{2,8035,953}," ∷ "{2,8036,953}," ∷ "{2,8037,953}," ∷ "{2,8038,953}," ∷ "{2,8039,953},"
    ∷ "{2,8048,953}," ∷ "{2,945,953}," ∷ "{2,940,953}," ∷ "{2,945,834}," ∷ "{3,945,834,953},"
    ∷ "{2,945,953}," ∷ "{2,8052,953}," ∷ "{2,951,953}," ∷ "{2,942,953}," ∷ "{2,951,834},"
    ∷ "{3,951,834,953}," ∷ "{2,951,953}," ∷ "{3,953,776,768}," ∷ "{3,953,776,769}," ∷ "{2,953,834},"
    ∷ "{3,953,776,834}," ∷ "{3,965,776,768}," ∷ "{3,965,776,769}," ∷ "{2,961,787}," ∷ "{2,965,834},"
    ∷ "{3,965,776,834}," ∷ "{2,8060,953}," ∷ "{2,969,953}," ∷ "{2,974,953}," ∷ "{2,969,834},"
    ∷ "{3,969,834,953}," ∷ "{2,969,953}," ∷ "{2,114,115}," ∷ "{2,176,99}," ∷ "{2,176,102},"
    ∷ "{2,110,111}," ∷ "{2,115,109}," ∷ "{3,116,101,108}," ∷ "{2,116,109}," ∷ "{3,104,112,97},"
    ∷ "{2,97,117}," ∷ "{2,111,118}," ∷ "{2,112,97}," ∷ "{2,110,97}," ∷ "{2,956,97}," ∷ "{2,109,97},"
    ∷ "{2,107,97}," ∷ "{2,107,98}," ∷ "{2,109,98}," ∷ "{2,103,98}," ∷ "{2,112,102},"
    ∷ "{2,110,102}," ∷ "{2,956,102}," ∷ "{2,104,122}," ∷ "{3,107,104,122}," ∷ "{3,109,104,122},"
    ∷ "{3,103,104,122}," ∷ "{3,116,104,122}," ∷ "{2,112,97}," ∷ "{3,107,112,97},"
    ∷ "{3,109,112,97}," ∷ "{3,103,112,97}," ∷ "{2,112,118}," ∷ "{2,110,118}," ∷ "{2,956,118},"
    ∷ "{2,109,118}," ∷ "{2,107,118}," ∷ "{2,109,118}," ∷ "{2,112,119}," ∷ "{2,110,119},"
    ∷ "{2,956,119}," ∷ "{2,109,119}," ∷ "{2,107,119}," ∷ "{2,109,119}," ∷ "{2,107,969},"
    ∷ "{2,109,969}," ∷ "{2,98,113}," ∷ "{3,99,111,46}," ∷ "{2,100,98}," ∷ "{2,103,121},"
    ∷ "{2,104,112}," ∷ "{2,107,107}," ∷ "{2,107,109}," ∷ "{2,112,104}," ∷ "{3,112,112,109},"
    ∷ "{2,112,114}," ∷ "{2,115,118}," ∷ "{2,119,98}," ∷ "{2,102,102}," ∷ "{2,102,105}," ∷ []
