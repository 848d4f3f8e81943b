-- ===== src/Stringprep/Unicode/DecompGroups2.antt =====
-- The rows of decompGroupMap, part 2, in stringprep_uni_norm.h (lines 983 to 1132).
use Prim.Native.String.{String}
use hz_platform.Prelude.{List, [], ◌∷◌}

unfoldable pub decomp_group_map_2 : List String
decomp_group_map_2 =
    "198266,198269,198272,198275,198278,132745,132747,198285,198288,"
    ∷ "198291,198294,198297,198300,132767,132769,198307,198310,198313,"
    ∷ "198316,-1,-1,132783,132785,198323,198326,198329,198332,-1,"
    ∷ "-1,132799,132801,198339,198342,198345,198348,198351,198354,"
    ∷ "-1,132821,-1,198359,-1,198362,-1,198365,132832,132834,198372,"
    ∷ "198375,198378,198381,198384,198387,132854,132856,198394,198397,"
    ∷ "198400,198403,198406,198409,132876,131719,132878,131721,132880,"
    ∷ "131723,132882,131725,132884,131734,132886,131736,132888,131738,"
    ∷ "-1,-1,198426,198429,263968,263972,263976,263980,263984,263988,"
    ∷ "198456,198459,263998,264002,264006,264010,264014,264018,198486,"
    ∷ "198489,264028,264032,264036,264040,264044,264048,198516,198519,"
    ∷ "264058,264062,264066,264070,264074,264078,198546,198549,264088,"
    ∷ "264092,264096,264100,264104,264108,198576,198579,264118,264122,"
    ∷ "264126,264130,264134,264138,133070,133072,198610,133077,198615,"
    ∷ "-1,133082,198620,133087,133089,133091,131697,133093,133095,"
    ∷ "67561,133095,133098,198636,198639,133106,198644,-1,133111,"
    ∷ "198649,133116,131700,133118,131702,133120,198658,198661,198664,"
    ∷ "133131,133133,198671,197248,-1,-1,133138,198676,133143,133145,"
    ∷ "133147,131704,-1,198685,198688,198691,133158,133160,198698,"
    ∷ "197263,133165,133167,133169,198707,133174,133176,133178,131708,"
    ∷ "133180,198718,197230,67649,-1,-1,198722,133189,198727,-1,"
    ∷ "133194,198732,133199,131706,133201,131710,133203,131080,133205,"
    ∷ "-1,65536,65536,65536,65536,65536,65536,65536,65536,65536,"
    ∷ "65536,65536,-1,-1,-1,-1,-1,-1,67671,-1,-1,-1,-1,-1,133208,"
    ∷ "-1,-1,-1,-1,-1,-1,-1,-1,-1,-1,-1,-1,67674,133211,198749,"
    ∷ "-1,-1,-1,-1,-1,-1,-1,-1,65536,-1,-1,-1,133216,198754,"
    ∷ "-1,133221,198759,-1,-1,-1,-1,133226,-1,133228,-1,-1,-1,"
    ∷ "-1,-1,-1,-1,-1,133230,133232,133234,-1,-1,-1,-1,-1,-1,"
    ∷ "-1,-1,-1,-1,-1,-1,-1,264308,-1,-1,-1,-1,-1,-1,-1,65536,"
    ∷ "-1,-1,-1,-1,-1,-1,-1,-1,-1,-1,-1,-1,-1,-1,-1,-1,67704,"
    ∷ "67705,-1,-1,67706,67707,67708,67709,67710,67711,67712,67713,"
    ∷ "67714,67715,67716,67717,67704,65549,65542,65543,67706,67707,"
    ∷ "67708,67709,67710,67711,67712,67713,67714,67715,67716,-1,"
    ∷ "-1,-1,-1,-1,-1,-1,-1,-1,-1,-1,-1,-1,-1,-1,-1,-1,-1,"
    ∷ "-1,-1,-1,-1,-1,-1,-1,133254,-1,-1,-1,-1,-1,-1,-1,-1,"
    ∷ "-1,-1,-1,-1,-1,-1,-1,-1,-1,-1,-1,-1,-1,-1,-1,-1,-1,"
    ∷ "-1,-1,-1,-1,-1,-1,-1,-1,-1,-1,-1,-1,-1,-1,-1,-1,-1,"
    ∷ "-1,-1,-1,-1,-1,-1,-1,-1,-1,-1,-1,-1,-1,-1,-1,-1,-1,"
    ∷ "-1,-1,-1,-1,-1,-1,-1,-1,-1,-1,-1,-1,-1,-1,-1,-1,-1,"
    ∷ "-1,-1,-1,-1,-1,-1,-1,-1,-1,-1,-1,198792,198795,67726,"
    ∷ "133263,-1,198801,198804,67735,-1,133272,67738,67739,67739,"
    ∷ "67739,66124,67740,67741,67741,67742,66146,-1,67743,133280,"
    ∷ "-1,-1,67746,67747,67748,67748,67748,-1,-1,133285,198823,"
    ∷ "133290,-1,67756,-1,67757,-1,67756,-1,67758,131106,67759,"
    ∷ "67726,-1,67760,67761,67762,-1,67763,65550,67764,67765,67766,"
    ∷ "67767,67705,-1,-1,-1,67768,67769,67770,67771,-1,-1,-1,-1,"
    ∷ "67772,67773,67760,67705,66126,-1,-1,-1,-1,-1,-1,-1,-1,"
    ∷ "-1,198846,198849,198852,198855,198858,198861,198864,198867,"
    ∷ "198870,198873,198876,198879,133346,67741,133348,198886,133353,"
    ∷ "67819,133356,198894,264433,133365,67831,133368,198906,67742,"
    ∷ "67726,67772,67763,67705,133373,198911,133378,67844,133381,"
    ∷ "198919,264458,133390,66147,133392,198930,66146,67861,67773,"
    ∷ "67862,-1,-1,-1,-1,-1,-1,-1,-1,-1,-1,-1,-1,-1,-1,-1,"
    ∷ "-1,-1,-1,-1,-1,-1,-1,-1,-1,-1,-1,133399,133401,-1,-1,"
    ∷ "-1,-1,-1,-1,-1,-1,-1,-1,-1,-1,-1,-1,-1,-1,-1,-1,133403,"
    ∷ "-1,-1,-1,-1,-1,-1,-1,-1,-1,-1,-1,-1,-1,-1,-1,-1,-1,"
    ∷ "-1,-1,-1,-1,-1,-1,-1,-1,-1,-1,-1,-1,-1,133405,133407,"
    ∷ "133409,-1,-1,-1,-1,-1,-1,-1,-1,-1,-1,-1,-1,-1,-1,-1,"
    ∷ "-1,-1,-1,-1,-1,-1,-1,-1,-1,-1,-1,-1,-1,-1,-1,-1,-1,"
    ∷ "-1,-1,-1,-1,-1,-1,-1,-1,-1,-1,-1,-1,-1,-1,-1,-1,-1,"
    ∷ "-1,-1,-1,133411,-1,-1,-1,-1,133413,-1,-1,133415,-1,-1,"
    ∷ "-1,-1,-1,-1,-1,-1,-1,-1,-1,-1,-1,-1,-1,-1,-1,-1,-1,"
    ∷ "-1,-1,-1,-1,133417,-1,133419,-1,-1,-1,-1,-1,133421,198959,"
    ∷ "-1,133426,198964,-1,-1,-1,-1,-1,-1,-1,-1,-1,-1,-1,-1,"
    ∷ "-1,-1,-1,-1,133431,-1,-1,133433,-1,-1,133435,-1,133437,"
    ∷ "-1,-1,-1,-1,-1,-1,-1,-1,-1,-1,-1,-1,-1,-1,-1,-1,-1,"
    ∷ "-1,-1,-1,-1,-1,133439,-1,133441,-1,-1,-1,-1,-1,-1,-1,"
    ∷ "-1,-1,-1,133443,133445,133447,133449,133451,-1,-1,133453,"
    ∷ "133455,-1,-1,133457,133459,-1,-1,-1,-1,-1,-1,133461,133463,"
    ∷ "-1,-1,133465,133467,-1,-1,133469,133471,-1,-1,-1,-1,-1,"
    ∷ "-1,-1,-1,-1,-1,-1,-1,-1,-1,-1,-1,-1,-1,-1,-1,-1,-1,"
    ∷ "-1,-1,-1,-1,-1,-1,-1,-1,-1,-1,-1,-1,133473,133475,133477,"
    ∷ "133479,-1,-1,-1,-1,-1,-1,-1,-1,-1,-1,-1,-1,-1,-1,-1,"
    ∷ "-1,-1,-1,-1,-1,-1,-1,-1,-1,-1,-1,-1,-1,-1,-1,-1,-1,"
    ∷ "-1,-1,-1,-1,-1,-1,-1,-1,-1,-1,-1,-1,-1,-1,-1,-1,133481,"
    ∷ "133483,133485,133487,-1,-1,-1,-1,-1,-1,133489,133491,133493,"
    ∷ "133495,-1,-1,-1,-1,-1,-1,-1,-1,-1,-1,-1,-1,-1,-1,-1,"
    ∷ "-1,-1,-1,-1,-1,-1,-1,-1,-1,-1,-1,-1,-1,-1,-1,-1,-1,"
    ∷ "-1,-1,-1,-1,-1,-1,-1,-1,-1,-1,-1,-1,-1,-1,-1,-1,-1,"
    ∷ "-1,-1,-1,-1,-1,-1,-1,-1,-1,-1,67961,67962,-1,-1,-1,-1,"
    ∷ "-1,-1,-1,-1,-1,-1,-1,-1,-1,-1,-1,-1,-1,-1,-1,-1,-1,"
    ∷ "-1,-1,-1,-1,-1,-1,-1,-1,-1,-1,-1,-1,-1,-1,-1,-1,-1,"
    ∷ "-1,-1,-1,-1,-1,-1,-1,-1,-1,-1,-1,-1,-1,-1,-1,-1,-1,"
    ∷ "-1,-1,-1,-1,-1,-1,-1,-1,-1,-1,-1,-1,-1,-1,-1,-1,-1,"
    ∷ "-1,-1,-1,-1,-1,-1,-1,-1,-1,-1,-1,-1,-1,-1,-1,-1,-1,"
    ∷ "-1,-1,-1,-1,-1,-1,-1,-1,-1,-1,-1,-1,-1,-1,-1,-1,-1,"
    ∷ "-1,-1,-1,-1,-1,-1,-1,-1,-1,-1,-1,-1,-1,-1,-1,-1,-1,"
    ∷ "-1,-1,-1,-1,-1,-1,-1,-1,-1,-1,-1,-1,-1,-1,-1,-1,-1,"
    ∷ "-1,-1,-1,-1,-1,-1,-1,-1,-1,-1,-1,-1,-1,-1,-1,-1,-1,"
    ∷ "-1,-1,-1,-1,-1,-1,-1,-1,-1,-1,-1,-1,-1,-1,-1,-1,-1,"
    ∷ "-1,-1,-1,-1,-1,-1,-1,-1,-1,-1,-1,-1,-1,-1,-1,-1,-1,"
    ∷ "-1,-1,-1,-1,-1,-1,-1,-1,-1,-1,-1,-1,-1,-1,-1,-1,-1,"
    ∷ "-1,-1,-1,-1,-1,-1,-1,-1,-1,-1,-1,-1,-1,-1,-1,-1,-1,"
    ∷ "-1,-1,-1,-1,-1,-1,-1,-1,-1,-1,-1,-1,-1,-1,-1,-1,-1,"
    ∷ "-1,-1,-1,-1,-1,-1,-1,-1,-1,-1,-1,-1,-1,-1,-1,-1,-1,"
    ∷ "-1,-1,-1,-1,-1,-1,-1,-1,-1,-1,-1,-1,-1,-1,-1,-1,-1,"
    ∷ "-1,-1,-1,-1,-1,-1,-1,-1,-1,-1,-1,-1,-1,-1,-1,-1,-1,"
    ∷ "-1,-1,-1,-1,-1,-1,-1,-1,-1,-1,-1,-1,-1,-1,-1,-1,65549,"
    ∷ "65542,65543,67706,67707,67708,67709,67710,67711,133499,133501,"
    ∷ "133503,133505,133507,133509,133511,133513,133515,133517,133519,"
    ∷ "199057,199060,199063,199066,199069,199072,199075,199078,199081,"
    ∷ "264620,264624,264628,264632,264636,264640,264644,264648,264652,"
    ∷ "264656,264660,133592,133594,133596,133598,133600,133602,133604,"
    ∷ "133606,133608,199146,199149,199152,199155,199158,199161,199164,"
    ∷ "199167,199170,199173,199176,199179,199182,199185,199188,199191,"
    ∷ "199194,199197,199200,199203,199206,199209,199212,199215,199218,"
    ∷ "199221,199224,199227,199230,199233,199236,199239,199242,199245,"
    ∷ "199248,199251,199254,68185,67759,67726,67772,67761,67762,68186,"
    ∷ "67739,67741,68187,67758,67742,67763,67743,68188,67746,67747,"
    ∷ "67748,68189,68190,68191,67819,68192,67831,68193,67756,65539,"
    ∷ "68194,67861,67773,67760,68195,67738,66124,67705,66126,68196,"
    ∷ "66146,67862,67717,65550,68197,68198,66127,65892,68199,68200,"
    ∷ "67844,66131,66147,66132,68201,67704,-1,-1,-1,-1,-1,-1,-1,"
    ∷ "-1,-1,-1,-1,-1,-1,-1,-1,-1,-1,-1,-1,-1,-1,-1,-1,-1,"
    ∷ "-1,-1,-1,-1,-1,-1,-1,-1,-1,264810,-1,-1,-1,-1,-1,-1,"
    ∷ "-1,-1,-1,-1,-1,-1,-1,-1,-1,-1,-1,-1,-1,-1,-1,-1,-1,"
    ∷ "-1,-1,-1,-1,-1,-1,-1,-1,-1,-1,-1,-1,-1,-1,-1,-1,-1,"
    ∷ "-1,-1,-1,-1,-1,-1,-1,-1,-1,-1,-1,-1,-1,-1,-1,-1,-1,"
    ∷ "-1,-1,-1,-1,-1,-1,-1,-1,-1,-1,-1,-1,-1,-1,-1,-1,-1,"
    ∷ "-1,-1,-1,-1,-1,-1,-1,-1,-1,-1,-1,-1,-1,-1,-1,-1,-1,"
    ∷ "-1,-1,-1,-1,-1,-1,-1,-1,-1,-1,-1,-1,199278,133745,199283,"
    ∷ "-1,-1,-1,-1,-1,-1,-1,-1,-1,-1,-1,-1,-1,-1,-1,-1,-1,"
    ∷ "-1,-1,-1,-1,-1,-1,-1,-1,-1,-1,-1,-1,-1,-1,-1,-1,-1,"
    ∷ "-1,-1,-1,-1,-1,-1,-1,-1,-1,-1,-1,-1,-1,-1,-1,-1,-1,"
    ∷ "-1,-1,-1,-1,-1,-1,-1,-1,-1,-1,-1,-1,-1,-1,-1,-1,-1,"
    ∷ "-1,-1,-1,-1,-1,-1,-1,-1,-1,-1,-1,-1,-1,-1,-1,-1,-1,"
    ∷ "-1,-1,-1,-1,-1,-1,-1,-1,-1,-1,-1,-1,-1,-1,-1,-1,133750,"
    ∷ "-1,-1,-1,-1,-1,-1,-1,-1,-1,-1,-1,-1,-1,-1,-1,-1,-1,"
    ∷ "-1,-1,-1,-1,-1,-1,-1,-1,-1,-1,-1,-1,-1,-1,-1,-1,-1,"
    ∷ "-1,-1,-1,-1,-1,-1,-1,-1,-1,-1,-1,-1,-1,-1,-1,-1,-1,"
    ∷ "-1,-1,-1,-1,-1,-1,-1,-1,-1,-1,-1,-1,-1,-1,-1,-1,-1,"
    ∷ "-1,-1,-1,-1,-1,-1,-1,-1,-1,-1,-1,-1,-1,-1,-1,-1,-1,"
    ∷ "-1,-1,-1,-1,-1,-1,-1,-1,-1,-1,-1,-1,-1,-1,-1,-1,-1,"
    ∷ "-1,-1,-1,-1,-1,-1,-1,-1,-1,-1,-1,-1,-1,-1,-1,-1,-1,"
    ∷ "-1,-1,-1,-1,-1,-1,-1,-1,-1,-1,-1,-1,-1,-1,-1,-1,-1,"
    ∷ "-1,-1,-1,-1,-1,-1,-1,-1,-1,-1,-1,-1,-1,-1,-1,-1,-1,"
    ∷ "-1,-1,-1,-1,-1,-1,-1,-1,-1,-1,-1,-1,-1,-1,-1,-1,-1,"
    ∷ "-1,-1,-1,-1,-1,-1,-1,-1,-1,-1,-1,-1,-1,-1,-1,-1,-1,"
    ∷ "-1,-1,-1,-1,-1,-1,-1,68216,-1,-1,-1,-1,-1,-1,-1,-1,"
    ∷ "-1,-1,-1,-1,-1,-1,-1,-1,-1,-1,-1,-1,-1,-1,-1,-1,-1,"
    ∷ "-1,-1,-1,-1,-1,-1,-1,-1,-1,-1,-1,-1,-1,-1,-1,-1,-1,"
    ∷ "-1,-1,-1,-1,-1,-1,-1,-1,-1,-1,-1,-1,-1,-1,-1,-1,-1,"
    ∷ "-1,-1,-1,-1,-1,-1,-1,-1,-1,-1,-1,-1,-1,-1,-1,-1,-1,"
    ∷ "-1,-1,-1,-1,-1,-1,-1,68217,-1,-1,-1,-1,-1,-1,-1,-1,"
    ∷ "-1,-1,-1,-1,68218,68219,68220,68221,68222,68223,68224,68225,"
    ∷ "68226,68227,68228,68229,68230,68231,68232,68233,68234,68235,"
    ∷ "68236,68237,68238,68239,68240,68241,68242,68243,68244,68245,"
    ∷ "68246,68247,68248,68249,68250,68251,68252,68253,68254,68255,"
    ∷ "68256,68257,68258,68259,68260,68261,68262,68263,68264,68265,"
    ∷ "68266,68267,68268,68269,68270,68271,68272,68273,68274,68275," ∷ []
