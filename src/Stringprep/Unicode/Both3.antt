-- ===== src/Stringprep/Unicode/Both3.antt =====
-- The rows of compBothList, part 3, in stringprep_uni_norm.h (lines 3105 to 3254).
use Prim.Native.String.{String}
use hz_platform.Prelude.{List, [], ◌∷◌}

unfoldable pub comp_both_list_3 : List String
comp_both_list_3 =
    "{" ∷ "8081,7971,7973,0,0,0,0,0,0,0,0,0,0,0,0,0,0,0,"
    ∷ "0,7975,0,0,0,0,0,0,0,0,0,0,0,0,0,0,0,0,0" ∷ "}," ∷ "{"
    ∷ "8104,8042,8044,0,0,0,0,0,0,0,0,0,0,0,0,0,0,0," ∷ "0,8046,0,0,0,0,0,0,0,0,0,0,0,0,0,0,0,0,0"
    ∷ "}," ∷ "{" ∷ "0,0,341,0,0,0,0,0,0,0,7769,0,0,345,529,531,7771,"
    ∷ "0,0,0,343,0,0,7775,0,0,0,0,0,0,0,0,0,0,0,0,0" ∷ "}," ∷ "{"
    ∷ "0,0,0,0,8164,0,8165,0,0,0,0,0,0,0,0,0,0,0,0," ∷ "0,0,0,0,0,0,0,0,0,0,0,0,0,0,0,0,0,0" ∷ "},"
    ∷ "{" ∷ "0,8011,8013,0,0,0,0,0,0,0,0,0,0,0,0,0,0,0,0," ∷ "0,0,0,0,0,0,0,0,0,0,0,0,0,0,0,0,0,0"
    ∷ "}," ∷ "{" ∷ "0,0,0,0,0,0,0,0,0,0,7818,7820,0,0,0,0,0,0,0,"
    ∷ "0,0,0,0,0,0,0,0,0,0,0,0,0,0,0,0,0,0" ∷ "}," ∷ "{"
    ∷ "0,0,0,7852,0,0,0,0,7862,0,0,0,0,0,0,0,0,0,0," ∷ "0,0,0,0,0,0,0,0,0,0,0,0,0,0,0,0,0,0" ∷ "},"
    ∷ "{" ∷ "0,475,471,0,0,0,0,469,0,0,0,0,0,473,0,0,0,0,0," ∷ "0,0,0,0,0,0,0,0,0,0,0,0,0,0,0,0,0,0"
    ∷ "}," ∷ "{" ∷ "8073,7947,7949,0,0,0,0,0,0,0,0,0,0,0,0,0,0,0,"
    ∷ "0,7951,0,0,0,0,0,0,0,0,0,0,0,0,0,0,0,0,0" ∷ "}," ∷ "{"
    ∷ "0,7809,7811,373,0,0,0,0,0,0,7815,7813,0,0,0,0,7817,"
    ∷ "0,0,0,0,0,0,0,0,0,7832,0,0,0,0,0,0,0,0,0,0" ∷ "}," ∷ "{"
    ∷ "0,0,0,0,0,0,0,0,0,0,7819,7821,0,0,0,0,0,0,0," ∷ "0,0,0,0,0,0,0,0,0,0,0,0,0,0,0,0,0,0" ∷ "},"
    ∷ "{" ∷ "0,7914,7912,0,0,7918,0,0,0,0,0,0,7916,0,0,0,7920,"
    ∷ "0,0,0,0,0,0,0,0,0,0,0,0,0,0,0,0,0,0,0,0" ∷ "}," ∷ "{"
    ∷ "0,0,263,265,0,0,0,0,0,0,267,0,0,269,0,0,0,0,0," ∷ "0,231,0,0,0,0,0,0,0,0,0,0,0,0,0,0,0,0"
    ∷ "}," ∷ "{" ∷ "0,200,201,202,0,7868,0,274,276,0,278,203,7866,282,"
    ∷ "516,518,7864,280,7706,0,552,0,7704,0,0,0,0,0,0,0," ∷ "0,0,0,0,0,0,0" ∷ "}," ∷ "{"
    ∷ "0,8136,904,0,7960,0,7961,0,0,0,0,0,0,0,0,0,0,0," ∷ "0,0,0,0,0,0,0,0,0,0,0,0,0,0,0,0,0,0,0"
    ∷ "}," ∷ "{" ∷ "0,232,233,234,0,7869,0,275,277,0,279,235,7867,283,"
    ∷ "517,519,7865,281,7707,0,553,0,7705,0,0,0,0,0,0,0," ∷ "0,0,0,0,0,0,0" ∷ "}," ∷ "{"
    ∷ "0,0,7728,0,0,0,0,0,0,0,0,0,0,488,0,0,7730,0,0," ∷ "0,310,0,0,7732,0,0,0,0,0,0,0,0,0,0,0,0,0"
    ∷ "}," ∷ "{" ∷ "0,8054,943,0,7984,0,7985,8145,8144,0,0,970,0,0,0,"
    ∷ "0,0,0,0,8150,0,0,0,0,0,0,0,0,0,0,0,0,0,0,0," ∷ "0,0" ∷ "}," ∷ "{"
    ∷ "0,7994,7996,0,0,0,0,0,0,0,0,0,0,0,0,0,0,0,0," ∷ "7998,0,0,0,0,0,0,0,0,0,0,0,0,0,0,0,0,0"
    ∷ "}," ∷ "{" ∷ "0,0,0,0,0,0,0,0,0,0,0,0,0,0,0,0,0,0,0,0,0,"
    ∷ "0,0,0,0,0,0,0,0,0,0,0,0,0,0,3271,0" ∷ "}," ∷ "{"
    ∷ "8096,8034,8036,0,0,0,0,0,0,0,0,0,0,0,0,0,0,0," ∷ "0,8038,0,0,0,0,0,0,0,0,0,0,0,0,0,0,0,0,0"
    ∷ "}," ∷ "{" ∷ "0,0,0,309,0,0,0,0,0,0,0,0,0,496,0,0,0,0,0,0,"
    ∷ "0,0,0,0,0,0,0,0,0,0,0,0,0,0,0,0,0" ∷ "}," ∷ "{"
    ∷ "0,7890,7888,0,0,7894,0,0,0,0,0,0,7892,0,0,0,0," ∷ "0,0,0,0,0,0,0,0,0,0,0,0,0,0,0,0,0,0,0,0"
    ∷ "}," ∷ "{" ∷ "0,7901,7899,0,0,7905,0,0,0,0,0,0,7903,0,0,0,7907,"
    ∷ "0,0,0,0,0,0,0,0,0,0,0,0,0,0,0,0,0,0,0,0" ∷ "}," ∷ "{"
    ∷ "0,1037,0,0,0,0,0,1250,1049,0,0,1252,0,0,0,0,0," ∷ "0,0,0,0,0,0,0,0,0,0,0,0,0,0,0,0,0,0,0,0"
    ∷ "}," ∷ "{" ∷ "0,0,0,0,0,0,0,0,1218,0,0,1245,0,0,0,0,0,0,0,"
    ∷ "0,0,0,0,0,0,0,0,0,0,0,0,0,0,0,0,0,0" ∷ "}," ∷ "{"
    ∷ "8065,7939,7941,0,0,0,0,0,0,0,0,0,0,0,0,0,0,0," ∷ "0,7943,0,0,0,0,0,0,0,0,0,0,0,0,0,0,0,0,0"
    ∷ "}," ∷ "{" ∷ "0,0,7765,0,0,0,0,0,0,0,7767,0,0,0,0,0,0,0,0,"
    ∷ "0,0,0,0,0,0,0,0,0,0,0,0,0,0,0,0,0,0" ∷ "}," ∷ "{"
    ∷ "0,0,0,0,0,7804,0,0,0,0,0,0,0,0,0,0,7806,0,0," ∷ "0,0,0,0,0,0,0,0,0,0,0,0,0,0,0,0,0,0" ∷ "},"
    ∷ "{" ∷ "0,249,250,251,0,361,0,363,365,0,0,252,7911,468,533,"
    ∷ "535,7909,371,7797,0,0,0,7799,0,0,0,367,0,0,0,369," ∷ "432,7795,0,0,0,0" ∷ "}," ∷ "{"
    ∷ "0,8146,912,0,0,0,0,0,0,0,0,0,0,0,0,0,0,0,0,8151," ∷ "0,0,0,0,0,0,0,0,0,0,0,0,0,0,0,0,0"
    ∷ "}," ∷ "{" ∷ "0,0,0,0,0,0,0,1262,1038,0,0,1264,0,0,0,0,0,0,"
    ∷ "0,0,0,0,0,0,0,0,0,0,0,0,1266,0,0,0,0,0,0" ∷ "}," ∷ "{"
    ∷ "0,224,225,226,0,227,0,257,259,0,551,228,7843,462,"
    ∷ "513,515,7841,261,0,0,0,0,0,0,0,0,229,0,0,7681,0," ∷ "0,0,0,0,0,0" ∷ "}," ∷ "{"
    ∷ "0,0,262,264,0,0,0,0,0,0,266,0,0,268,0,0,0,0,0," ∷ "0,199,0,0,0,0,0,0,0,0,0,0,0,0,0,0,0,0"
    ∷ "}," ∷ "{" ∷ "0,7856,7854,0,0,7860,0,0,0,0,0,0,7858,0,0,0,0,"
    ∷ "0,0,0,0,0,0,0,0,0,0,0,0,0,0,0,0,0,0,0,0" ∷ "}," ∷ "{"
    ∷ "0,0,0,0,0,0,0,0,0,0,0,0,0,0,0,0,0,0,0,0,0," ∷ "0,0,0,0,0,0,0,0,0,0,0,0,0,0,0,1571" ∷ "},"
    ∷ []
