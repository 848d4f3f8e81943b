-- ===== src/Stringprep/Unicode/DecompGroups5.antt =====
-- The rows of decompGroupMap, part 5, in stringprep_uni_norm.h (lines 1433 to 1582).
use Prim.Native.String.{String}
use hz_platform.Prelude.{List, [], ◌∷◌}

unfoldable pub decomp_group_map_5 : List String
decomp_group_map_5 =
    "68196,66146,67862,67717,65550,68197,68198,66127,65892,68199,"
    ∷ "68200,67844,66131,66147,66132,68201,68185,67759,67726,67772,"
    ∷ "67761,67762,68186,67739,67741,68187,67758,67742,67763,67743,"
    ∷ "68188,67746,67747,67748,68189,68190,68191,67819,68192,67831,"
    ∷ "68193,67756,65539,68194,67861,67773,67760,68195,67738,-1,"
    ∷ "67705,66126,68196,66146,67862,67717,65550,68197,68198,66127,"
    ∷ "65892,68199,68200,67844,66131,66147,66132,68201,68185,67759,"
    ∷ "67726,67772,67761,67762,68186,67739,67741,68187,67758,67742,"
    ∷ "67763,67743,68188,67746,67747,67748,68189,68190,68191,67819,"
    ∷ "68192,67831,68193,67756,65539,68194,67861,67773,67760,68195,"
    ∷ "67738,66124,67705,66126,68196,66146,67862,67717,65550,68197,"
    ∷ "68198,66127,65892,68199,68200,67844,66131,66147,66132,68201,"
    ∷ "68185,-1,67726,67772,-1,-1,68186,-1,-1,68187,67758,-1,-1,"
    ∷ "67743,68188,67746,67747,-1,68189,68190,68191,67819,68192,"
    ∷ "67831,68193,67756,65539,68194,67861,67773,-1,68195,-1,66124,"
    ∷ "67705,66126,68196,-1,67862,67717,-1,68197,68198,66127,65892,"
    ∷ "68199,68200,67844,66131,66147,66132,68201,68185,67759,67726,"
    ∷ "67772,67761,67762,68186,67739,67741,68187,67758,67742,67763,"
    ∷ "67743,68188,67746,67747,67748,68189,68190,68191,67819,68192,"
    ∷ "67831,68193,67756,65539,68194,67861,67773,67760,68195,67738,"
    ∷ "66124,67705,66126,68196,66146,67862,67717,65550,68197,68198,"
    ∷ "66127,65892,68199,68200,67844,66131,66147,66132,68201,68185,"
    ∷ "67759,-1,67772,67761,67762,68186,-1,-1,68187,67758,67742,"
    ∷ "67763,67743,68188,67746,67747,-1,68189,68190,68191,67819,"
    ∷ "68192,67831,68193,-1,65539,68194,67861,67773,67760,68195,"
    ∷ "67738,66124,67705,66126,68196,66146,67862,67717,65550,68197,"
    ∷ "68198,66127,65892,68199,68200,67844,66131,66147,66132,68201,"
    ∷ "68185,67759,-1,67772,67761,67762,68186,-1,67741,68187,67758,"
    ∷ "67742,67763,-1,68188,-1,-1,-1,68189,68190,68191,67819,68192,"
    ∷ "67831,68193,-1,65539,68194,67861,67773,67760,68195,67738,"
    ∷ "66124,67705,66126,68196,66146,67862,67717,65550,68197,68198,"
    ∷ "66127,65892,68199,68200,67844,66131,66147,66132,68201,68185,"
    ∷ "67759,67726,67772,67761,67762,68186,67739,67741,68187,67758,"
    ∷ "67742,67763,67743,68188,67746,67747,67748,68189,68190,68191,"
    ∷ "67819,68192,67831,68193,67756,65539,68194,67861,67773,67760,"
    ∷ "68195,67738,66124,67705,66126,68196,66146,67862,67717,65550,"
    ∷ "68197,68198,66127,65892,68199,68200,67844,66131,66147,66132,"
    ∷ "68201,68185,67759,67726,67772,67761,67762,68186,67739,67741,"
    ∷ "68187,67758,67742,67763,67743,68188,67746,67747,67748,68189,"
    ∷ "68190,68191,67819,68192,67831,68193,67756,65539,68194,67861,"
    ∷ "67773,67760,68195,67738,66124,67705,66126,68196,66146,67862,"
    ∷ "67717,65550,68197,68198,66127,65892,68199,68200,67844,66131,"
    ∷ "66147,66132,68201,68185,67759,67726,67772,67761,67762,68186,"
    ∷ "67739,67741,68187,67758,67742,67763,67743,68188,67746,67747,"
    ∷ "67748,68189,68190,68191,67819,68192,67831,68193,67756,65539,"
    ∷ "68194,67861,67773,67760,68195,67738,66124,67705,66126,68196,"
    ∷ "66146,67862,67717,65550,68197,68198,66127,65892,68199,68200,"
    ∷ "67844,66131,66147,66132,68201,68185,67759,67726,67772,67761,"
    ∷ "67762,68186,67739,67741,68187,67758,67742,67763,67743,68188,"
    ∷ "67746,67747,67748,68189,68190,68191,67819,68192,67831,68193,"
    ∷ "67756,65539,68194,67861,67773,67760,68195,67738,66124,67705,"
    ∷ "66126,68196,66146,67862,67717,65550,68197,68198,66127,65892,"
    ∷ "68199,68200,67844,66131,66147,66132,68201,68185,67759,67726,"
    ∷ "67772,67761,67762,68186,67739,67741,68187,67758,67742,67763,"
    ∷ "67743,68188,67746,67747,67748,68189,68190,68191,67819,68192,"
    ∷ "67831,68193,67756,65539,68194,67861,67773,67760,68195,67738,"
    ∷ "66124,67705,66126,68196,66146,67862,67717,65550,68197,68198,"
    ∷ "66127,65892,68199,68200,67844,66131,66147,66132,68201,68185,"
    ∷ "67759,67726,67772,67761,67762,68186,67739,67741,68187,67758,"
    ∷ "67742,67763,67743,68188,67746,67747,67748,68189,68190,68191,"
    ∷ "67819,68192,67831,68193,67756,65539,68194,67861,67773,67760,"
    ∷ "68195,67738,66124,67705,66126,68196,66146,67862,67717,65550,"
    ∷ "68197,68198,66127,65892,68199,68200,67844,66131,66147,66132,"
    ∷ "68201,-1,-1,-1,-1,71166,71167,67769,71168,71169,71170,71171,"
    ∷ "66212,71172,71173,71174,71175,71176,71177,71178,67770,71179,"
    ∷ "66212,71180,71181,66206,71182,71183,71184,67757,71185,71186,"
    ∷ "66204,67768,71187,66213,71188,71189,66205,67561,66209,71190,"
    ∷ "65546,71191,71192,71193,66208,66210,66211,71194,71195,71196,"
    ∷ "66207,71197,71198,71199,71200,66213,66205,66209,66207,66210,"
    ∷ "66208,71166,71167,67769,71168,71169,71170,71171,66212,71172,"
    ∷ "71173,71174,71175,71176,71177,71178,67770,71179,66212,71180,"
    ∷ "71181,66206,71182,71183,71184,67757,71185,71186,66204,67768,"
    ∷ "71187,66213,71188,71189,66205,67561,66209,71190,65546,71191,"
    ∷ "71192,71193,66208,66210,66211,71194,71195,71196,66207,71197,"
    ∷ "71198,71199,71200,66213,66205,66209,66207,66210,66208,71166,"
    ∷ "71167,67769,71168,71169,71170,71171,66212,71172,71173,71174,"
    ∷ "71175,71176,71177,71178,67770,71179,66212,71180,71181,66206,"
    ∷ "71182,71183,71184,67757,71185,71186,66204,67768,71187,66213,"
    ∷ "71188,71189,66205,67561,66209,71190,65546,71191,71192,71193,"
    ∷ "66208,66210,66211,71194,71195,71196,66207,71197,71198,71199,"
    ∷ "71200,66213,66205,66209,66207,66210,66208,71166,71167,67769,"
    ∷ "71168,71169,71170,71171,66212,71172,71173,71174,71175,71176,"
    ∷ "71177,71178,67770,71179,66212,71180,71181,66206,71182,71183,"
    ∷ "71184,67757,71185,71186,66204,67768,71187,66213,71188,71189,"
    ∷ "66205,67561,66209,71190,65546,71191,71192,71193,66208,66210,"
    ∷ "66211,71194,71195,71196,66207,71197,71198,71199,71200,66213,"
    ∷ "66205,66209,66207,66210,66208,71166,71167,67769,71168,71169,"
    ∷ "71170,71171,66212,71172,71173,71174,71175,71176,71177,71178,"
    ∷ "67770,71179,66212,71180,71181,66206,71182,71183,71184,67757,"
    ∷ "71185,71186,66204,67768,71187,66213,71188,71189,66205,67561,"
    ∷ "66209,71190,65546,71191,71192,71193,66208,66210,66211,71194,"
    ∷ "71195,71196,66207,71197,71198,71199,71200,66213,66205,66209,"
    ∷ "66207,66210,66208,-1,-1,-1,-1,67704,65549,65542,65543,67706,"
    ∷ "67707,67708,67709,67710,67711,67704,65549,65542,65543,67706,"
    ∷ "67707,67708,67709,67710,67711,67704,65549,65542,65543,67706,"
    ∷ "67707,67708,67709,67710,67711,67704,65549,65542,65543,67706,"
    ∷ "67707,67708,67709,67710,67711,67704,65549,65542,65543,67706,"
    ∷ "67707,67708,67709,67710,67711,71201,71202,71203,71204,71205,"
    ∷ "70085,71206,71207,71208,71209,70086,71210,71211,71212,70087,"
    ∷ "71213,71214,71215,71216,71217,71218,71219,71220,71221,71222,"
    ∷ "71223,71224,71225,71226,68234,71227,71228,71229,71230,71231,"
    ∷ "71232,71233,71234,70088,70089,71235,71236,71237,69908,71238,"
    ∷ "70090,71239,71240,71241,71242,71242,71242,71243,71244,71245,"
    ∷ "71246,71247,71248,71249,71250,71251,71252,71253,71254,71255,"
    ∷ "71256,71257,71258,71259,71260,71260,71261,71262,71263,71264,"
    ∷ "71265,70092,71266,71267,71268,70054,71269,71270,71271,71272,"
    ∷ "71273,71274,71275,71276,71277,71278,71279,71280,71281,71282,"
    ∷ "71283,71284,71285,71286,71287,71288,71289,71290,71291,71292,"
    ∷ "71293,71294,71294,71295,71296,71297,69904,71298,71299,71300,"
    ∷ "71301,71302,68260,71303,71304,68262,71305,71306,71307,71308,"
    ∷ "71309,71310,71311,71312,71313,71314,71315,71316,71317,71318,"
    ∷ "71319,71320,71321,71322,71323,71324,71325,69852,71326,68272,"
    ∷ "71327,71327,71328,71329,71329,71330,71331,71332,71333,71334,"
    ∷ "71335,71336,71337,71338,71339,71340,71341,71342,70097,71343,"
    ∷ "71344,71345,71346,71347,71346,71348,70099,71349,71350,71351,"
    ∷ "71352,70100,69825,71353,71354,71355,71356,71357,71358,71359,"
    ∷ "71360,71361,71362,71363,71364,71365,71366,71367,71368,71369,"
    ∷ "71370,71371,71372,71373,71374,70101,71375,71376,71377,71378,"
    ∷ "71379,71380,70103,71381,71382,71383,71384,71385,71386,71387,"
    ∷ "71388,69853,71389,71390,71391,71392,71393,71394,71395,71396,"
    ∷ "71397,70104,71398,71399,71400,71401,71402,71403,71404,71405,"
    ∷ "71406,71407,71408,71409,71410,71411,71412,71413,71414,71415,"
    ∷ "69921,71416,71417,71418,71419,71420,71421,71422,71423,71424,"
    ∷ "71425,71426,70105,70004,71427,71428,71429,71430,71431,71432,"
    ∷ "71433,71434,71435,71436,71437,71438,71439,71440,71441,71442,"
    ∷ "71443,71444,71445,71446,71447,71448,71449,71450,71451,71452,"
    ∷ "71453,71454,71455,71456,71457,71458,71459,71460,71461,71462,"
    ∷ "71463,71464,71465,71466,71467,71468,71468,71469,71470,71471,"
    ∷ "71472,71473,71474,71475,71476,71477,71478,69907,71479,71480,"
    ∷ "71481,71482,71483,71484,71485,71486,71487,71488,71489,71490,"
    ∷ "71491,71492,71492,71493,71494,71495,71496,71497,71498,71499,"
    ∷ "69870,71500,71501,71502,70115,71503,71504,70074,71505,71506,"
    ∷ "70118,71507,71508,71509,71510,71510,71511,71512,71513,71514,"
    ∷ "71515,71516,71517,71518,71519,71520,71521,71522,71523,71524,"
    ∷ "71525,71526,71527,71528,71529,71530,71531,71532,71533,71534,"
    ∷ "71535,71536,71537,70124,71538,71539,71540,71541,71542,71543,"
    ∷ "71544,71545,71546,71547,71548,71549,71550,71551,71552,71553,"
    ∷ "71328,71554,71555,71556,71557,71558,71559,71560,71561,71562,"
    ∷ "71563,71564,71565,69924,71566,71567,71568,71569,71570,71571,"
    ∷ "70127,71572,71573,71574,71575,71576,71577,71578,71579,71580,"
    ∷ "71581,71582,71583,71584,71585,71586,71587,71588,71589,71590,"
    ∷ "71591,69865,71592,71593,71594,71595,71596,71597,71598,71599,"
    ∷ "71600,71601,71602,71603,71604,71605,71606,68362,71607,71608,"
    ∷ "71609,71610,71611,71612,71613,71614,71615,71616,71617,71618,"
    ∷ "71619,68369,71620,71621,71622,71623,71624,71625,71626,71627,"
    ∷ "71628,71629,71630,71631,71632,71633,71634,71635,71636,71637,"
    ∷ "71638,71639,71640,71641,71642,71643,71644,71645,71646,71647,"
    ∷ "71648,71649,71650,71651,71652,71653,71654,71655,71656,71657,"
    ∷ "71658,71659,71660,71661,71662,71663,71663,71664,71665,71666,"
    ∷ "71667,71668,71669,71670,71671,71672,71673,71674,71675,71676," ∷ []
