-- ===== src/Stringprep/Unicode/Both1.antt =====
-- The rows of compBothList, part 1, in stringprep_uni_norm.h (lines 2805 to 2954).
use Prim.Native.String.{String}
use hz_platform.Prelude.{List, [], ◌∷◌}

unfoldable pub comp_both_list_1 : List String
comp_both_list_1 =
    "{" ∷ "0,0,0,0,0,0,0,0,0,0,0,0,0,0,0,0,0,0,0,0,0," ∷ "0,0,0,0,0,0,12508,12509,0,0,0,0,0,0,0,0"
    ∷ "}," ∷ "{" ∷ "0,7954,7956,0,0,0,0,0,0,0,0,0,0,0,0,0,0,0,0,"
    ∷ "0,0,0,0,0,0,0,0,0,0,0,0,0,0,0,0,0,0" ∷ "}," ∷ "{"
    ∷ "0,7760,7762,0,0,0,0,0,0,0,0,0,0,0,0,0,0,0,0," ∷ "0,0,0,0,0,0,0,0,0,0,0,0,0,0,0,0,0,0" ∷ "},"
    ∷ "{" ∷ "0,0,500,284,0,0,0,7712,286,0,288,0,0,486,0,0,0,"
    ∷ "0,0,0,290,0,0,0,0,0,0,0,0,0,0,0,0,0,0,0,0" ∷ "}," ∷ "{"
    ∷ "0,0,979,0,0,0,0,0,0,0,0,980,0,0,0,0,0,0,0,0," ∷ "0,0,0,0,0,0,0,0,0,0,0,0,0,0,0,0,0" ∷ "},"
    ∷ "{" ∷ "0,8141,8142,0,0,0,0,0,0,0,0,0,0,0,0,0,0,0,0,"
    ∷ "8143,0,0,0,0,0,0,0,0,0,0,0,0,0,0,0,0,0" ∷ "}," ∷ "{"
    ∷ "0,0,0,0,0,0,0,0,0,0,0,0,0,0,0,0,0,0,0,0,0," ∷ "0,0,0,0,0,0,12496,12497,0,0,0,0,0,0,0,0"
    ∷ "}," ∷ "{" ∷ "0,7872,7870,0,0,7876,0,0,0,0,0,0,7874,0,0,0,0,"
    ∷ "0,0,0,0,0,0,0,0,0,0,0,0,0,0,0,0,0,0,0,0" ∷ "}," ∷ "{"
    ∷ "0,0,0,0,0,0,0,0,0,0,0,0,0,0,0,0,0,0,0,0,0," ∷ "0,0,0,0,0,0,12505,12506,0,0,0,0,0,0,0,0"
    ∷ "}," ∷ "{" ∷ "0,0,313,0,0,0,0,0,0,0,0,0,0,317,0,0,7734,0,0,"
    ∷ "0,315,0,7740,7738,0,0,0,0,0,0,0,0,0,0,0,0,0" ∷ "}," ∷ "{"
    ∷ "0,7995,7997,0,0,0,0,0,0,0,0,0,0,0,0,0,0,0,0," ∷ "7999,0,0,0,0,0,0,0,0,0,0,0,0,0,0,0,0,0"
    ∷ "}," ∷ "{" ∷ "8097,8035,8037,0,0,0,0,0,0,0,0,0,0,0,0,0,0,0,"
    ∷ "0,8039,0,0,0,0,0,0,0,0,0,0,0,0,0,0,0,0,0" ∷ "}," ∷ "{"
    ∷ "0,0,7729,0,0,0,0,0,0,0,0,0,0,489,0,0,7731,0,0," ∷ "0,311,0,0,7733,0,0,0,0,0,0,0,0,0,0,0,0,0"
    ∷ "}," ∷ "{" ∷ "0,0,340,0,0,0,0,0,0,0,7768,0,0,344,528,530,7770,"
    ∷ "0,0,0,342,0,0,7774,0,0,0,0,0,0,0,0,0,0,0,0,0" ∷ "}," ∷ "{"
    ∷ "0,0,0,0,0,0,0,0,0,0,0,0,0,0,0,0,0,0,0,0,0," ∷ "0,0,0,0,0,0,12502,12503,0,0,0,0,0,0,0,0"
    ∷ "}," ∷ "{" ∷ "0,0,7756,0,0,0,0,556,0,0,0,7758,0,0,0,0,0,0,0,"
    ∷ "0,0,0,0,0,0,0,0,0,0,0,0,0,0,0,0,0,0" ∷ "}," ∷ "{"
    ∷ "0,8056,972,0,8000,0,8001,0,0,0,0,0,0,0,0,0,0,0," ∷ "0,0,0,0,0,0,0,0,0,0,0,0,0,0,0,0,0,0,0"
    ∷ "}," ∷ "{" ∷ "0,1117,0,0,0,0,0,1251,1081,0,0,1253,0,0,0,0,0,"
    ∷ "0,0,0,0,0,0,0,0,0,0,0,0,0,0,0,0,0,0,0,0" ∷ "}," ∷ "{"
    ∷ "8080,7970,7972,0,0,0,0,0,0,0,0,0,0,0,0,0,0,0," ∷ "0,7974,0,0,0,0,0,0,0,0,0,0,0,0,0,0,0,0,0"
    ∷ "}," ∷ "{" ∷ "0,7808,7810,372,0,0,0,0,0,0,7814,7812,0,0,0,0,7816,"
    ∷ "0,0,0,0,0,0,0,0,0,0,0,0,0,0,0,0,0,0,0,0" ∷ "}," ∷ "{"
    ∷ "0,8010,8012,0,0,0,0,0,0,0,0,0,0,0,0,0,0,0,0," ∷ "0,0,0,0,0,0,0,0,0,0,0,0,0,0,0,0,0,0" ∷ "},"
    ∷ "{" ∷ "0,8058,973,0,8016,0,8017,8161,8160,0,0,971,0,0,0,"
    ∷ "0,0,0,0,8166,0,0,0,0,0,0,0,0,0,0,0,0,0,0,0," ∷ "0,0" ∷ "}," ∷ "{"
    ∷ "0,0,0,0,0,0,0,0,0,0,0,0,0,0,0,0,0,0,0,0,0," ∷ "0,0,0,0,0,0,12412,12413,0,0,0,0,0,0,0,0"
    ∷ "}," ∷ "{" ∷ "8072,7946,7948,0,0,0,0,0,0,0,0,0,0,0,0,0,0,0,"
    ∷ "0,7950,0,0,0,0,0,0,0,0,0,0,0,0,0,0,0,0,0" ∷ "}," ∷ "{"
    ∷ "0,0,0,0,0,7805,0,0,0,0,0,0,0,0,0,0,7807,0,0," ∷ "0,0,0,0,0,0,0,0,0,0,0,0,0,0,0,0,0,0" ∷ "},"
    ∷ "{" ∷ "0,0,0,0,0,0,0,0,0,0,0,0,0,0,0,0,0,0,0,0,0," ∷ "0,0,0,0,0,0,12400,12401,0,0,0,0,0,0,0,0"
    ∷ "}," ∷ "{" ∷ "0,0,0,0,0,0,0,0,0,0,0,0,0,0,0,0,0,0,0,0,0,"
    ∷ "0,0,0,0,0,0,12409,12410,0,0,0,0,0,0,0,0" ∷ "}," ∷ "{"
    ∷ "0,8162,944,0,0,0,0,0,0,0,0,0,0,0,0,0,0,0,0,8167," ∷ "0,0,0,0,0,0,0,0,0,0,0,0,0,0,0,0,0"
    ∷ "}," ∷ "{" ∷ "0,0,0,0,0,0,0,1263,1118,0,0,1265,0,0,0,0,0,0,"
    ∷ "0,0,0,0,0,0,0,0,0,0,0,0,1267,0,0,0,0,0,0" ∷ "}," ∷ "{"
    ∷ "0,0,0,0,0,0,0,0,0,0,7683,0,0,0,0,0,7685,0,0," ∷ "0,0,0,0,7687,0,0,0,0,0,0,0,0,0,0,0,0,0"
    ∷ "}," ∷ "{" ∷ "0,0,0,0,0,0,0,0,0,0,7690,0,0,270,0,0,7692,0,0,"
    ∷ "0,7696,0,7698,7694,0,0,0,0,0,0,0,0,0,0,0,0,0" ∷ "}," ∷ "{"
    ∷ "0,7857,7855,0,0,7861,0,0,0,0,0,0,7859,0,0,0,0," ∷ "0,0,0,0,0,0,0,0,0,0,0,0,0,0,0,0,0,0,0,0"
    ∷ "}," ∷ "{" ∷ "0,0,509,0,0,0,0,483,0,0,0,0,0,0,0,0,0,0,0,0,"
    ∷ "0,0,0,0,0,0,0,0,0,0,0,0,0,0,0,0,0" ∷ "}," ∷ "{"
    ∷ "0,0,0,0,0,0,0,0,0,0,0,0,0,0,0,0,0,0,0,0,0," ∷ "0,0,0,0,0,0,12406,12407,0,0,0,0,0,0,0,0"
    ∷ "}," ∷ "{" ∷ "0,7987,7989,0,0,0,0,0,0,0,0,0,0,0,0,0,0,0,0,"
    ∷ "7991,0,0,0,0,0,0,0,0,0,0,0,0,0,0,0,0,0" ∷ "}," ∷ "{"
    ∷ "0,8027,8029,0,0,0,0,0,0,0,0,0,0,0,0,0,0,0,0," ∷ "8031,0,0,0,0,0,0,0,0,0,0,0,0,0,0,0,0,0"
    ∷ "}," ∷ "{" ∷ "0,0,0,0,0,0,0,0,0,0,7691,0,0,271,0,0,7693,0,0,"
    ∷ "0,7697,0,7699,7695,0,0,0,0,0,0,0,0,0,0,0,0,0" ∷ "}," ∷ []
