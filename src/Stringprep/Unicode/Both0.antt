-- ===== src/Stringprep/Unicode/Both0.antt =====
-- The rows of compBothList, part 0, in stringprep_uni_norm.h (lines 2655 to 2804).
use Prim.Native.String.{String}
use hz_platform.Prelude.{List, [], ◌∷◌}

unfoldable pub comp_both_list_0 : List String
comp_both_list_0 =
    "{" ∷ "8179,8060,974,0,8032,0,8033,0,0,0,0,0,0,0,0,0,0,"
    ∷ "0,0,8182,0,0,0,0,0,0,0,0,0,0,0,0,0,0,0,0,0" ∷ "}," ∷ "{"
    ∷ "0,204,205,206,0,296,0,298,300,0,304,207,7880,463,"
    ∷ "520,522,7882,302,7724,0,0,0,0,0,0,0,0,0,0,0,0," ∷ "0,0,0,0,0,0" ∷ "}," ∷ "{"
    ∷ "8115,8048,940,0,7936,0,7937,8113,8112,0,0,0,0,0,0,"
    ∷ "0,0,0,0,8118,0,0,0,0,0,0,0,0,0,0,0,0,0,0,0," ∷ "0,0" ∷ "}," ∷ "{"
    ∷ "0,0,0,0,0,0,0,0,0,3546,0,0,0,0,0,0,0,0,0,0," ∷ "0,0,0,0,0,0,0,0,0,0,0,0,0,0,0,0,0" ∷ "},"
    ∷ "{" ∷ "0,8157,8158,0,0,0,0,0,0,0,0,0,0,0,0,0,0,0,0,"
    ∷ "8159,0,0,0,0,0,0,0,0,0,0,0,0,0,0,0,0,0" ∷ "}," ∷ "{"
    ∷ "0,7873,7871,0,0,7877,0,0,0,0,0,0,7875,0,0,0,0," ∷ "0,0,0,0,0,0,0,0,0,0,0,0,0,0,0,0,0,0,0,0"
    ∷ "}," ∷ "{" ∷ "0,7846,7844,0,0,7850,0,0,0,0,0,0,7848,0,0,0,0,"
    ∷ "0,0,0,0,0,0,0,0,0,0,0,0,0,0,0,0,0,0,0,0" ∷ "}," ∷ "{"
    ∷ "8131,8052,942,0,7968,0,7969,0,0,0,0,0,0,0,0,0,0,"
    ∷ "0,0,8134,0,0,0,0,0,0,0,0,0,0,0,0,0,0,0,0,0" ∷ "}," ∷ "{"
    ∷ "0,8154,906,0,7992,0,7993,8153,8152,0,0,938,0,0,0,"
    ∷ "0,0,0,0,0,0,0,0,0,0,0,0,0,0,0,0,0,0,0,0,0," ∷ "0" ∷ "}," ∷ "{"
    ∷ "0,7962,7964,0,0,0,0,0,0,0,0,0,0,0,0,0,0,0,0," ∷ "0,0,0,0,0,0,0,0,0,0,0,0,0,0,0,0,0,0" ∷ "},"
    ∷ "{" ∷ "0,0,0,293,0,0,0,0,0,0,7715,7719,0,543,0,0,7717,"
    ∷ "0,0,0,7721,7723,0,7830,0,0,0,0,0,0,0,0,0,0,0," ∷ "0,0" ∷ "}," ∷ "{"
    ∷ "0,7986,7988,0,0,0,0,0,0,0,0,0,0,0,0,0,0,0,0," ∷ "7990,0,0,0,0,0,0,0,0,0,0,0,0,0,0,0,0,0"
    ∷ "}," ∷ "{" ∷ "0,504,323,0,0,209,0,0,0,0,7748,0,0,327,0,0,7750,"
    ∷ "0,0,0,325,0,7754,7752,0,0,0,0,0,0,0,0,0,0,0,0," ∷ "0" ∷ "}," ∷ "{"
    ∷ "0,8002,8004,0,0,0,0,0,0,0,0,0,0,0,0,0,0,0,0," ∷ "0,0,0,0,0,0,0,0,0,0,0,0,0,0,0,0,0,0" ∷ "},"
    ∷ "{" ∷ "0,0,0,0,0,0,0,0,1217,0,0,1244,0,0,0,0,0,0,0," ∷ "0,0,0,0,0,0,0,0,0,0,0,0,0,0,0,0,0,0"
    ∷ "}," ∷ "{" ∷ "0,505,324,0,0,241,0,0,0,0,7749,0,0,328,0,0,7751,"
    ∷ "0,0,0,326,0,7755,7753,0,0,0,0,0,0,0,0,0,0,0,0," ∷ "0" ∷ "}," ∷ "{"
    ∷ "0,0,7743,0,0,0,0,0,0,0,7745,0,0,0,0,0,7747,0," ∷ "0,0,0,0,0,0,0,0,0,0,0,0,0,0,0,0,0,0,0"
    ∷ "}," ∷ "{" ∷ "0,0,0,0,0,0,0,0,0,0,7786,0,0,356,0,0,7788,0,0,"
    ∷ "0,354,0,7792,7790,0,538,0,0,0,0,0,0,0,0,0,0,0" ∷ "}," ∷ "{"
    ∷ "0,7701,7703,0,0,0,0,0,0,0,0,0,0,0,0,0,0,0,0," ∷ "0,0,0,0,0,0,0,0,0,0,0,0,0,0,0,0,0,0" ∷ "},"
    ∷ "{" ∷ "0,0,0,0,0,0,0,0,0,0,0,0,0,0,0,0,0,0,0,0,0," ∷ "0,0,0,3402,0,0,0,0,0,0,0,0,0,0,0,0"
    ∷ "}," ∷ "{" ∷ "0,0,7757,0,0,0,0,557,0,0,0,7759,0,0,0,0,0,0,0,"
    ∷ "0,0,0,0,0,0,0,0,0,0,0,0,0,0,0,0,0,0" ∷ "}," ∷ "{"
    ∷ "8105,8043,8045,0,0,0,0,0,0,0,0,0,0,0,0,0,0,0," ∷ "0,8047,0,0,0,0,0,0,0,0,0,0,0,0,0,0,0,0,0"
    ∷ "}," ∷ "{" ∷ "0,0,347,349,0,0,0,0,0,0,7777,0,0,353,0,0,7779,"
    ∷ "0,0,0,351,0,0,0,0,537,0,0,0,0,0,0,0,0,0,0,0" ∷ "}," ∷ "{"
    ∷ "0,7922,221,374,0,7928,0,562,0,0,7822,376,7926,0,0,"
    ∷ "0,7924,0,0,0,0,0,0,0,0,0,0,0,0,0,0,0,0,0,0," ∷ "0,0" ∷ "}," ∷ "{"
    ∷ "0,0,377,7824,0,0,0,0,0,0,379,0,0,381,0,0,7826,"
    ∷ "0,0,0,0,0,0,7828,0,0,0,0,0,0,0,0,0,0,0,0,0" ∷ "}," ∷ "{"
    ∷ "0,0,0,7853,0,0,0,0,7863,0,0,0,0,0,0,0,0,0,0," ∷ "0,0,0,0,0,0,0,0,0,0,0,0,0,0,0,0,0,0" ∷ "},"
    ∷ "{" ∷ "8188,8186,911,0,8040,0,8041,0,0,0,0,0,0,0,0,0,0,"
    ∷ "0,0,0,0,0,0,0,0,0,0,0,0,0,0,0,0,0,0,0,0" ∷ "}," ∷ "{"
    ∷ "8088,7978,7980,0,0,0,0,0,0,0,0,0,0,0,0,0,0,0," ∷ "0,7982,0,0,0,0,0,0,0,0,0,0,0,0,0,0,0,0,0"
    ∷ "}," ∷ "{" ∷ "0,7923,253,375,0,7929,0,563,0,0,7823,255,7927,0,0,"
    ∷ "0,7925,0,0,0,0,0,0,0,0,0,7833,0,0,0,0,0,0,0," ∷ "0,0,0" ∷ "}," ∷ "{"
    ∷ "0,8018,8020,0,0,0,0,0,0,0,0,0,0,0,0,0,0,0,0," ∷ "8022,0,0,0,0,0,0,0,0,0,0,0,0,0,0,0,0,0"
    ∷ "}," ∷ "{" ∷ "0,192,193,194,0,195,0,256,258,0,550,196,7842,461,"
    ∷ "512,514,7840,260,0,0,0,0,0,0,0,0,197,0,0,7680,0," ∷ "0,0,0,0,0,0" ∷ "}," ∷ "{"
    ∷ "0,0,0,0,0,0,0,0,0,0,0,0,0,0,0,0,0,0,0,0,0," ∷ "0,0,0,0,0,0,12499,12500,0,0,0,0,0,0,0,0"
    ∷ "}," ∷ "{" ∷ "0,7847,7845,0,0,7851,0,0,0,0,0,0,7849,0,0,0,0,"
    ∷ "0,0,0,0,0,0,0,0,0,0,0,0,0,0,0,0,0,0,0,0" ∷ "}," ∷ "{"
    ∷ "0,7915,7913,0,0,7919,0,0,0,0,0,0,7917,0,0,0,7921,"
    ∷ "0,0,0,0,0,0,0,0,0,0,0,0,0,0,0,0,0,0,0,0" ∷ "}," ∷ "{"
    ∷ "8124,8122,902,0,7944,0,7945,8121,8120,0,0,0,0,0,0,"
    ∷ "0,0,0,0,0,0,0,0,0,0,0,0,0,0,0,0,0,0,0,0,0," ∷ "0" ∷ "}," ∷ []
