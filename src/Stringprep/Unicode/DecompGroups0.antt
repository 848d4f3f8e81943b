-- ===== src/Stringprep/Unicode/DecompGroups0.antt =====
-- The rows of decompGroupMap, part 0, in stringprep_uni_norm.h (lines 683 to 832).
use Prim.Native.String.{String}
use hz_platform.Prelude.{List, [], ◌∷◌}

unfoldable pub decomp_group_map_0 : List String
decomp_group_map_0 =
    "-1,-1,-1,-1,-1,-1,-1,-1,-1,-1,-1,-1,-1,-1,-1,-1,-1,"
    ∷ "-1,-1,-1,-1,-1,-1,-1,-1,-1,-1,-1,-1,-1,-1,-1,-1,-1,"
    ∷ "-1,-1,-1,-1,-1,-1,-1,-1,-1,-1,-1,-1,-1,-1,-1,-1,-1,"
    ∷ "-1,-1,-1,-1,-1,-1,-1,-1,-1,-1,-1,-1,-1,-1,-1,-1,-1,"
    ∷ "-1,-1,-1,-1,-1,-1,-1,-1,-1,-1,-1,-1,-1,-1,-1,-1,-1,"
    ∷ "-1,-1,-1,-1,-1,-1,-1,-1,-1,-1,-1,-1,-1,-1,-1,-1,-1,"
    ∷ "-1,-1,-1,-1,-1,-1,-1,-1,-1,-1,-1,-1,-1,-1,-1,-1,-1,"
    ∷ "-1,-1,-1,-1,-1,-1,-1,-1,-1,-1,-1,-1,-1,-1,-1,-1,-1,"
    ∷ "-1,-1,-1,-1,-1,-1,-1,-1,-1,-1,-1,-1,-1,-1,-1,-1,-1,"
    ∷ "-1,-1,-1,-1,-1,-1,-1,65536,-1,-1,-1,-1,-1,-1,-1,131073,"
    ∷ "-1,65539,-1,-1,-1,-1,131076,-1,-1,65542,65543,131080,65546,"
    ∷ "-1,-1,131083,65549,65550,-1,196623,196626,196629,-1,131096,"
    ∷ "131098,131100,131102,131104,131106,-1,131108,131110,131112,"
    ∷ "131114,131116,131118,131120,131122,131124,-1,131126,131128,"
    ∷ "131130,131132,131134,131136,-1,-1,131138,131140,131142,131144,"
    ∷ "131146,-1,-1,131148,131150,131152,131154,131156,131158,-1,"
    ∷ "131160,131162,131164,131166,131168,131170,131172,131174,131176,"
    ∷ "-1,131178,131180,131182,131184,131186,131188,-1,-1,131190,"
    ∷ "131192,131194,131196,131198,-1,131200,131202,131204,131206,"
    ∷ "131208,131210,131212,131214,131216,131218,131220,131222,131224,"
    ∷ "131226,131228,131230,131232,-1,-1,131234,131236,131238,131240,"
    ∷ "131242,131244,131246,131248,131250,131252,131254,131256,131258,"
    ∷ "131260,131262,131264,131266,131268,131270,131272,-1,-1,131274,"
    ∷ "131276,131278,131280,131282,131284,131286,131288,131290,-1,"
    ∷ "131292,131294,131296,131298,131300,131302,-1,131304,131306,"
    ∷ "131308,131310,131312,131314,131316,131318,-1,-1,131320,131322,"
    ∷ "131324,131326,131328,131330,131332,-1,-1,131334,131336,131338,"
    ∷ "131340,131342,131344,-1,-1,131346,131348,131350,131352,131354,"
    ∷ "131356,131358,131360,131362,131364,131366,131368,131370,131372,"
    ∷ "131374,131376,131378,131380,-1,-1,131382,131384,131386,131388,"
    ∷ "131390,131392,131394,131396,131398,131400,131402,131404,131406,"
    ∷ "131408,131410,131412,131414,131416,131418,131420,131422,131424,"
    ∷ "131426,65892,-1,-1,-1,-1,-1,-1,-1,-1,-1,-1,-1,-1,-1,"
    ∷ "-1,-1,-1,-1,-1,-1,-1,-1,-1,-1,-1,-1,-1,-1,-1,-1,-1,"
    ∷ "-1,-1,131429,131431,-1,-1,-1,-1,-1,-1,-1,-1,-1,-1,-1,"
    ∷ "-1,-1,131433,131435,-1,-1,-1,-1,-1,-1,-1,-1,-1,-1,-1,"
    ∷ "-1,-1,-1,-1,-1,-1,-1,-1,196973,196976,196979,131446,131448,"
    ∷ "131450,131452,131454,131456,131458,131460,131462,131464,131466,"
    ∷ "131468,131470,131472,197010,197013,197016,197019,197022,197025,"
    ∷ "197028,197031,-1,197034,197037,197040,197043,131510,131512,"
    ∷ "-1,-1,131514,131516,131518,131520,131522,131524,197062,197065,"
    ∷ "131532,131534,131536,131538,131540,131542,131544,131546,-1,"
    ∷ "-1,131548,131550,197088,197091,131558,131560,131562,131564,"
    ∷ "131566,131568,131570,131572,131574,131576,131578,131580,131582,"
    ∷ "131584,131586,131588,131590,131592,131594,131596,131598,131600,"
    ∷ "131602,131604,131606,131608,131610,131612,131614,131616,131618,"
    ∷ "131620,-1,-1,131622,131624,-1,-1,-1,-1,-1,-1,131626,131628,"
    ∷ "131630,131632,197170,197173,197176,197179,131646,131648,197186,"
    ∷ "197189,131656,131658,-1,-1,-1,-1,-1,-1,-1,-1,-1,-1,-1,"
    ∷ "-1,-1,-1,-1,-1,-1,-1,-1,-1,-1,-1,-1,-1,-1,-1,-1,-1,"
    ∷ "-1,-1,-1,-1,-1,-1,-1,-1,-1,-1,-1,-1,-1,-1,-1,-1,-1,"
    ∷ "-1,-1,-1,-1,-1,-1,-1,-1,-1,-1,-1,-1,-1,-1,-1,-1,-1,"
    ∷ "-1,-1,-1,-1,-1,-1,-1,-1,-1,-1,-1,-1,-1,-1,-1,-1,-1,"
    ∷ "-1,-1,-1,-1,-1,-1,-1,-1,-1,-1,-1,-1,-1,-1,-1,-1,-1,"
    ∷ "-1,-1,-1,-1,-1,-1,-1,-1,-1,-1,-1,-1,-1,-1,-1,-1,-1,"
    ∷ "-1,-1,-1,-1,-1,-1,-1,-1,-1,-1,-1,66124,66125,66126,66127,"
    ∷ "66128,66129,66130,66131,66132,-1,-1,-1,-1,-1,-1,-1,-1,"
    ∷ "-1,-1,-1,-1,-1,-1,-1,-1,-1,-1,-1,-1,-1,-1,-1,-1,-1,"
    ∷ "-1,-1,-1,-1,-1,-1,131669,131671,131673,131675,131677,131679,"
    ∷ "-1,-1,66145,66146,65892,66147,66148,-1,-1,-1,-1,-1,-1,"
    ∷ "-1,-1,-1,-1,-1,-1,-1,-1,-1,-1,-1,-1,-1,-1,-1,-1,-1,"
    ∷ "-1,-1,-1,-1,-1,-1,-1,-1,-1,-1,-1,-1,-1,-1,-1,-1,-1,"
    ∷ "-1,-1,-1,-1,-1,-1,-1,-1,-1,-1,-1,-1,-1,-1,-1,-1,-1,"
    ∷ "-1,-1,-1,-1,-1,-1,-1,-1,-1,-1,-1,-1,-1,-1,-1,-1,-1,"
    ∷ "-1,-1,-1,-1,-1,-1,-1,-1,-1,-1,-1,-1,-1,-1,-1,-1,-1,"
    ∷ "66149,66150,-1,66151,131688,-1,-1,-1,-1,-1,-1,-1,-1,-1,"
    ∷ "-1,-1,-1,-1,-1,-1,-1,-1,-1,-1,-1,-1,-1,-1,-1,-1,-1,"
    ∷ "-1,-1,-1,-1,-1,-1,-1,-1,-1,-1,-1,-1,-1,-1,-1,-1,-1,"
    ∷ "-1,-1,-1,-1,66154,-1,-1,-1,-1,-1,131691,-1,-1,-1,66157,"
    ∷ "-1,-1,-1,-1,-1,131080,197230,131697,66163,131700,131702,"
    ∷ "131704,-1,131706,-1,131708,131710,197248,-1,-1,-1,-1,-1,"
    ∷ "-1,-1,-1,-1,-1,-1,-1,-1,-1,-1,-1,-1,-1,-1,-1,-1,-1,"
    ∷ "-1,-1,-1,131715,131717,131719,131721,131723,131725,197263,"
    ∷ "-1,-1,-1,-1,-1,-1,-1,-1,-1,-1,-1,-1,-1,-1,-1,-1,-1,"
    ∷ "-1,-1,-1,-1,-1,-1,-1,-1,131730,131732,131734,131736,131738,"
    ∷ "-1,66204,66205,66206,131708,131717,66207,66208,-1,-1,-1,"
    ∷ "-1,-1,-1,-1,-1,-1,-1,-1,-1,-1,-1,-1,-1,-1,-1,-1,-1,"
    ∷ "-1,-1,-1,-1,-1,66209,66210,66211,-1,66212,66213,-1,-1,"
    ∷ "-1,-1,-1,-1,-1,-1,-1,-1,131750,131752,-1,131754,-1,-1,"
    ∷ "-1,131756,-1,-1,-1,-1,131758,131760,131762,-1,-1,-1,-1,"
    ∷ "-1,-1,-1,-1,-1,-1,131764,-1,-1,-1,-1,-1,-1,-1,-1,-1,"
    ∷ "-1,-1,-1,-1,-1,-1,-1,-1,-1,-1,-1,-1,-1,-1,-1,-1,-1,"
    ∷ "-1,-1,-1,-1,-1,131766,-1,-1,-1,-1,-1,-1,-1,-1,-1,-1,"
    ∷ "-1,-1,-1,-1,-1,-1,-1,-1,-1,-1,-1,-1,131768,131770,-1,"
    ∷ "131772,-1,-1,-1,131774,-1,-1,-1,-1,131776,131778,131780,"
    ∷ "-1,-1,-1,-1,-1,-1,-1,-1,-1,-1,-1,-1,-1,-1,-1,-1,-1,"
    ∷ "-1,-1,-1,-1,-1,-1,131782,131784,-1,-1,-1,-1,-1,-1,-1,"
    ∷ "-1,-1,-1,-1,-1,-1,-1,-1,-1,-1,-1,-1,-1,-1,-1,-1,-1,"
    ∷ "-1,-1,-1,-1,-1,-1,-1,-1,-1,-1,-1,-1,-1,-1,-1,-1,-1,"
    ∷ "-1,-1,-1,-1,-1,-1,-1,-1,-1,-1,-1,-1,-1,-1,-1,-1,-1,"
    ∷ "-1,-1,-1,-1,-1,-1,-1,-1,-1,-1,-1,-1,-1,-1,-1,131786,"
    ∷ "131788,-1,-1,-1,-1,-1,-1,-1,-1,-1,-1,-1,-1,-1,131790,"
    ∷ "131792,131794,131796,-1,-1,131798,131800,-1,-1,131802,131804,"
    ∷ "131806,131808,131810,131812,-1,-1,131814,131816,131818,131820,"
    ∷ "131822,131824,-1,-1,131826,131828,131830,131832,131834,131836,"
    ∷ "131838,131840,131842,131844,131846,131848,-1,-1,131850,131852,"
    ∷ "-1,-1,-1,-1,-1,-1,-1,-1,-1,-1,-1,-1,-1,-1,-1,-1,-1,"
    ∷ "-1,-1,-1,-1,-1,-1,-1,-1,-1,-1,-1,-1,-1,-1,-1,-1,-1,"
    ∷ "-1,-1,-1,-1,-1,-1,-1,-1,-1,-1,-1,-1,-1,-1,-1,-1,-1,"
    ∷ "-1,-1,-1,-1,-1,-1,-1,-1,-1,-1,-1,-1,-1,-1,-1,-1,-1,"
    ∷ "-1,-1,-1,-1,-1,-1,-1,-1,-1,-1,-1,-1,-1,-1,-1,-1,-1,"
    ∷ "-1,-1,-1,-1,-1,-1,-1,-1,-1,-1,-1,-1,-1,-1,-1,-1,-1,"
    ∷ "-1,-1,-1,-1,-1,-1,-1,-1,-1,-1,-1,-1,-1,-1,-1,-1,-1,"
    ∷ "-1,-1,-1,-1,-1,-1,-1,-1,-1,-1,-1,-1,-1,-1,-1,-1,-1,"
    ∷ "-1,-1,-1,-1,-1,131854,-1,-1,-1,-1,-1,-1,-1,-1,-1,-1,"
    ∷ "-1,-1,-1,-1,-1,-1,-1,-1,-1,-1,-1,-1,-1,-1,-1,-1,-1,"
    ∷ "-1,-1,-1,-1,-1,-1,-1,-1,-1,-1,-1,-1,-1,-1,-1,-1,-1,"
    ∷ "-1,-1,-1,-1,-1,-1,-1,-1,-1,-1,-1,-1,-1,-1,-1,-1,-1,"
    ∷ "-1,-1,-1,-1,-1,-1,-1,-1,-1,-1,-1,-1,-1,-1,-1,-1,-1,"
    ∷ "-1,-1,-1,-1,-1,-1,-1,-1,-1,-1,-1,-1,-1,-1,-1,-1,-1,"
    ∷ "-1,-1,-1,-1,-1,-1,-1,-1,-1,-1,-1,-1,-1,-1,-1,-1,-1,"
    ∷ "-1,-1,-1,-1,-1,-1,-1,-1,-1,-1,-1,-1,-1,-1,-1,-1,-1,"
    ∷ "-1,-1,-1,-1,-1,-1,-1,-1,-1,-1,-1,-1,-1,-1,-1,-1,-1,"
    ∷ "-1,-1,-1,-1,-1,-1,-1,-1,131856,131858,131860,131862,131864,"
    ∷ "-1,-1,-1,-1,-1,-1,-1,-1,-1,-1,-1,-1,-1,-1,-1,-1,-1,"
    ∷ "-1,-1,-1,-1,-1,-1,-1,-1,-1,-1,-1,-1,-1,-1,-1,-1,-1,"
    ∷ "-1,-1,-1,-1,-1,-1,-1,-1,-1,-1,-1,-1,-1,-1,-1,-1,-1,"
    ∷ "-1,-1,-1,-1,-1,-1,-1,-1,-1,-1,-1,-1,-1,-1,-1,-1,-1,"
    ∷ "-1,-1,-1,-1,-1,-1,-1,-1,-1,-1,131866,131868,131870,131872,"
    ∷ "-1,-1,-1,-1,-1,-1,-1,-1,-1,-1,-1,-1,-1,-1,-1,-1,-1,"
    ∷ "-1,-1,-1,-1,-1,-1,-1,-1,-1,-1,-1,-1,-1,-1,-1,-1,-1,"
    ∷ "-1,-1,-1,-1,-1,-1,-1,-1,-1,-1,-1,-1,-1,-1,-1,-1,-1,"
    ∷ "-1,-1,-1,-1,-1,-1,-1,-1,-1,-1,-1,-1,-1,-1,-1,-1,-1,"
    ∷ "-1,-1,-1,131874,-1,131876,-1,-1,-1,-1,-1,-1,-1,-1,-1,"
    ∷ "-1,-1,-1,-1,-1,-1,-1,131878,-1,-1,-1,-1,-1,-1,-1,-1,"
    ∷ "-1,-1,-1,-1,-1,-1,-1,-1,-1,-1,-1,-1,-1,-1,-1,-1,-1,"
    ∷ "-1,-1,-1,-1,-1,-1,-1,-1,-1,-1,-1,-1,-1,-1,-1,-1,-1,"
    ∷ "-1,-1,-1,-1,-1,-1,-1,-1,-1,-1,-1,-1,-1,-1,-1,-1,-1,"
    ∷ "-1,-1,-1,-1,-1,-1,-1,-1,-1,-1,-1,-1,-1,-1,-1,-1,-1,"
    ∷ "-1,-1,-1,-1,-1,-1,-1,-1,-1,-1,-1,-1,-1,-1,-1,-1,-1,"
    ∷ "-1,-1,-1,-1,-1,-1,-1,-1,-1,-1,-1,-1,-1,-1,-1,-1,-1,"
    ∷ "-1,-1,-1,-1,-1,-1,-1,-1,-1,-1,-1,-1,-1,-1,-1,-1,-1,"
    ∷ "-1,-1,-1,-1,-1,-1,-1,-1,-1,-1,-1,-1,-1,-1,-1,-1,-1,"
    ∷ "-1,-1,-1,-1,-1,-1,-1,-1,-1,-1,-1,-1,-1,-1,-1,-1,-1,"
    ∷ "-1,-1,-1,-1,-1,-1,-1,-1,-1,-1,-1,-1,-1,-1,-1,-1,-1,"
    ∷ "-1,-1,-1,-1,-1,-1,-1,-1,-1,-1,-1,-1,-1,-1,-1,-1,-1,"
    ∷ "-1,-1,-1,-1,-1,-1,-1,-1,-1,-1,-1,-1,-1,-1,-1,-1,-1,"
    ∷ "-1,-1,-1,-1,-1,-1,-1,-1,-1,-1,-1,-1,-1,-1,-1,-1,-1,"
    ∷ "-1,-1,-1,-1,-1,-1,-1,-1,-1,-1,-1,-1,-1,-1,-1,-1,-1,"
    ∷ "-1,-1,-1,-1,-1,-1,-1,-1,-1,-1,-1,-1,-1,-1,-1,-1,-1,"
    ∷ "-1,-1,-1,-1,-1,-1,-1,-1,-1,-1,-1,-1,-1,-1,-1,-1,-1,"
    ∷ "-1,-1,-1,-1,-1,-1,-1,-1,-1,-1,-1,-1,-1,-1,-1,-1,-1,"
    ∷ "-1,-1,-1,-1,-1,-1,-1,-1,-1,-1,-1,-1,-1,-1,-1,-1,-1,"
    ∷ "-1,-1,-1,-1,-1,-1,-1,-1,-1,-1,-1,-1,-1,-1,-1,-1,-1,"
    ∷ "-1,-1,-1,-1,-1,-1,-1,-1,-1,-1,131880,-1,-1,-1,-1,-1,"
    ∷ "-1,-1,131882,-1,-1,131884,-1,-1,-1,-1,-1,-1,-1,-1,-1,"
    ∷ "-1,-1,-1,-1,-1,-1,-1,-1,-1,-1,-1,-1,-1,-1,-1,-1,-1,"
    ∷ "-1,-1,-1,-1,-1,-1,-1,-1,-1,131886,131888,131890,131892,"
    ∷ "131894,131896,131898,131900,-1,-1,-1,-1,-1,-1,-1,-1,-1,"
    ∷ "-1,-1,-1,-1,-1,-1,-1,-1,-1,-1,-1,-1,-1,-1,-1,-1,-1," ∷ []
