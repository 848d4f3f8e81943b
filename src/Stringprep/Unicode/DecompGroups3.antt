-- ===== src/Stringprep/Unicode/DecompGroups3.antt =====
-- The rows of decompGroupMap, part 3, in stringprep_uni_norm.h (lines 1133 to 1282).
use Prim.Native.String.{String}
use hz_platform.Prelude.{List, [], ◌∷◌}

unfoldable pub decomp_group_map_3 : List String
decomp_group_map_3 =
    "68276,68277,68278,68279,68280,68281,68282,68283,68284,68285,"
    ∷ "68286,68287,68288,68289,68290,68291,68292,68293,68294,68295,"
    ∷ "68296,68297,68298,68299,68300,68301,68302,68303,68304,68305,"
    ∷ "68306,68307,68308,68309,68310,68311,68312,68313,68314,68315,"
    ∷ "68316,68317,68318,68319,68320,68321,68322,68323,68324,68325,"
    ∷ "68326,68327,68328,68329,68330,68331,68332,68333,68334,68335,"
    ∷ "68336,68337,68338,68339,68340,68341,68342,68343,68344,68345,"
    ∷ "68346,68347,68348,68349,68350,68351,68352,68353,68354,68355,"
    ∷ "68356,68357,68358,68359,68360,68361,68362,68363,68364,68365,"
    ∷ "68366,68367,68368,68369,68370,68371,68372,68373,68374,68375,"
    ∷ "68376,68377,68378,68379,68380,68381,68382,68383,68384,68385,"
    ∷ "68386,68387,68388,68389,68390,68391,68392,68393,68394,68395,"
    ∷ "68396,68397,68398,68399,68400,68401,68402,68403,68404,68405,"
    ∷ "68406,68407,68408,68409,68410,68411,68412,68413,68414,68415,"
    ∷ "68416,68417,68418,68419,68420,68421,68422,68423,68424,68425,"
    ∷ "68426,68427,68428,68429,68430,68431,-1,-1,-1,-1,-1,-1,-1,"
    ∷ "-1,-1,-1,-1,-1,-1,-1,-1,-1,-1,-1,-1,-1,-1,-1,-1,-1,"
    ∷ "-1,-1,-1,-1,-1,-1,-1,-1,-1,-1,-1,-1,-1,-1,-1,-1,-1,"
    ∷ "-1,65536,-1,-1,-1,-1,-1,-1,-1,-1,-1,-1,-1,-1,-1,-1,"
    ∷ "-1,-1,-1,-1,-1,-1,-1,-1,-1,-1,-1,-1,-1,-1,-1,-1,-1,"
    ∷ "-1,-1,-1,-1,-1,-1,-1,-1,-1,-1,-1,-1,-1,-1,-1,-1,-1,"
    ∷ "-1,-1,-1,-1,-1,68432,-1,68241,68433,68434,-1,-1,-1,-1,"
    ∷ "-1,-1,-1,-1,-1,-1,-1,-1,-1,-1,-1,-1,-1,133971,-1,133973,"
    ∷ "-1,133975,-1,133977,-1,133979,-1,133981,-1,133983,-1,133985,"
    ∷ "-1,133987,-1,133989,-1,133991,-1,133993,-1,-1,133995,-1,"
    ∷ "133997,-1,133999,-1,-1,-1,-1,-1,-1,134001,134003,-1,134005,"
    ∷ "134007,-1,134009,134011,-1,134013,134015,-1,134017,134019,"
    ∷ "-1,-1,-1,-1,-1,-1,-1,-1,-1,-1,-1,-1,-1,-1,-1,-1,-1,"
    ∷ "-1,-1,-1,-1,-1,134021,-1,-1,-1,-1,-1,-1,134023,134025,"
    ∷ "-1,134027,134029,-1,-1,-1,-1,-1,-1,-1,-1,-1,-1,-1,-1,"
    ∷ "134031,-1,134033,-1,134035,-1,134037,-1,134039,-1,134041,"
    ∷ "-1,134043,-1,134045,-1,134047,-1,134049,-1,134051,-1,134053,"
    ∷ "-1,-1,134055,-1,134057,-1,134059,-1,-1,-1,-1,-1,-1,134061,"
    ∷ "134063,-1,134065,134067,-1,134069,134071,-1,134073,134075,"
    ∷ "-1,134077,134079,-1,-1,-1,-1,-1,-1,-1,-1,-1,-1,-1,-1,"
    ∷ "-1,-1,-1,-1,-1,-1,-1,-1,-1,-1,134081,-1,-1,134083,134085,"
    ∷ "134087,134089,-1,-1,-1,134091,134093,-1,-1,-1,-1,-1,-1,"
    ∷ "-1,-1,-1,-1,-1,-1,-1,-1,-1,-1,-1,-1,-1,-1,-1,-1,-1,"
    ∷ "-1,-1,-1,-1,-1,-1,-1,-1,-1,-1,-1,-1,-1,-1,-1,-1,-1,"
    ∷ "-1,-1,-1,-1,-1,-1,-1,-1,-1,68559,68560,68561,68562,68563,"
    ∷ "68564,68565,68566,68567,68568,68569,68570,68571,68572,68573,"
    ∷ "68574,68575,68576,68577,68578,68579,68580,68581,68582,68583,"
    ∷ "68584,68585,68586,68587,68588,68589,68590,68591,68592,68593,"
    ∷ "68594,68595,68596,68597,68598,68599,68600,68601,68602,68603,"
    ∷ "68604,68605,68606,68607,68608,68609,68610,68611,68612,68613,"
    ∷ "68614,68615,68616,68617,68618,68619,68620,68621,68622,68623,"
    ∷ "68624,68625,68626,68627,68628,68629,68630,68631,68632,68633,"
    ∷ "68634,68635,68636,68637,68638,68639,68640,68641,68642,68643,"
    ∷ "68644,68645,68646,68647,68648,68649,68650,68651,68652,-1,"
    ∷ "-1,-1,68218,68224,68653,68654,68655,68656,68657,68658,68222,"
    ∷ "68659,68660,68661,68662,68226,-1,-1,-1,-1,-1,-1,-1,-1,"
    ∷ "-1,-1,-1,-1,-1,-1,-1,-1,-1,-1,-1,-1,-1,-1,-1,-1,-1,"
    ∷ "-1,-1,-1,-1,-1,-1,-1,-1,-1,-1,-1,-1,-1,-1,-1,-1,-1,"
    ∷ "-1,-1,-1,-1,-1,-1,-1,-1,-1,-1,-1,-1,-1,-1,-1,-1,-1,"
    ∷ "-1,-1,-1,-1,-1,-1,-1,-1,-1,-1,-1,-1,-1,-1,-1,-1,-1,"
    ∷ "-1,-1,-1,-1,-1,-1,-1,-1,-1,-1,-1,-1,-1,-1,-1,-1,-1,"
    ∷ "-1,-1,-1,199735,199738,199741,199744,199747,199750,199753,"
    ∷ "199756,199759,199762,199765,199768,199771,199774,265313,265317,"
    ∷ "265321,265325,265329,265333,265337,265341,265345,265349,265353,"
    ∷ "265357,265361,265365,265369,-1,-1,-1,199837,199840,199843,"
    ∷ "199846,199849,199852,199855,199858,199861,199864,199867,199870,"
    ∷ "199873,199876,199879,199882,199885,199888,199891,199894,199897,"
    ∷ "199900,199903,199906,199909,199912,199915,199918,199921,199924,"
    ∷ "199927,199930,199933,199936,199939,199942,-1,-1,-1,-1,-1,"
    ∷ "-1,-1,-1,-1,-1,-1,-1,-1,134409,134411,134413,134415,134417,"
    ∷ "134419,134421,134423,134425,134427,134429,134431,134433,134435,"
    ∷ "134437,68559,68562,68565,68567,68575,68576,68579,68581,68582,"
    ∷ "68584,68585,68586,68587,68588,134439,134441,134443,134445,"
    ∷ "134447,134449,134451,134453,134455,134457,134459,134461,134463,"
    ∷ "134465,-1,-1,-1,-1,68218,68224,68653,68654,68931,68932,68933,"
    ∷ "68229,68934,68241,68291,68303,68302,68292,68384,68249,68289,"
    ∷ "68935,68936,68937,68938,68939,68940,68941,68942,68943,68944,"
    ∷ "68255,68945,68946,68947,68948,68949,68950,68951,68952,68655,"
    ∷ "68656,68657,68953,68954,68955,68956,68957,68958,68959,68960,"
    ∷ "68961,68962,134499,134501,134503,134505,134507,134509,134511,"
    ∷ "134513,134515,134517,134519,134521,134523,134525,134527,134529,"
    ∷ "134531,134533,134535,134537,134539,134541,134543,134545,200083,"
    ∷ "200086,200089,-1,-1,-1,-1,69020,69021,69022,69023,69024,"
    ∷ "69025,69026,69027,69028,69029,69030,69031,69032,69033,69034,"
    ∷ "69035,69036,69037,69038,69039,69040,69041,69042,69043,69044,"
    ∷ "69045,69046,69047,69048,69049,69050,69051,69052,69053,69054,"
    ∷ "69055,69056,69057,69058,69059,69060,69061,69062,69063,69064,"
    ∷ "69065,69066,-1,331211,265680,331220,200153,331228,200161,200164,"
    ∷ "396775,265709,200177,200180,200183,265722,265726,265730,265734,"
    ∷ "265738,265742,265746,396822,134684,396830,396836,331306,265775,"
    ∷ "396851,396857,265791,200259,200262,265801,265805,331345,331350,"
    ∷ "200283,200286,265825,200293,200296,134763,134765,200303,200306,"
    ∷ "396917,265851,331391,396932,265866,200334,200337,396948,265882,"
    ∷ "396958,200356,331431,200364,265903,200371,265910,331450,265919,"
    ∷ "331459,265928,134860,331470,200403,200406,265945,200413,200416,"
    ∷ "200419,331494,265963,134895,397041,200439,331514,265983,265987,"
    ∷ "200455,200458,265997,134929,266003,331543,134940,397086,200484,"
    ∷ "134951,134953,134955,134957,134959,134961,134963,134965,134967,"
    ∷ "134969,200507,200510,200513,200516,200519,200522,200525,200528,"
    ∷ "200531,200534,200537,200540,200543,200546,200549,200552,135019,"
    ∷ "135021,200559,135026,135028,-1,-1,-1,-1,135030,135032,135034,"
    ∷ "135036,266110,135042,135044,135046,135048,135050,135052,135054,"
    ∷ "135056,200594,266133,135065,135067,135069,135071,135073,135075,"
    ∷ "135077,200615,200618,200621,200624,135091,135093,135095,135097,"
    ∷ "135099,135101,135103,135105,135107,135109,200647,200650,135117,"
    ∷ "200655,200658,200661,135128,200666,200669,266208,135140,200678,"
    ∷ "200681,200684,200687,331762,397303,135165,135167,135169,135171,"
    ∷ "135173,135175,135177,135179,135181,135183,135185,135187,135189,"
    ∷ "135191,135193,135195,135197,135199,266273,135205,135207,135209,"
    ∷ "266283,200751,135218,135220,135222,135224,135226,135228,135230,"
    ∷ "135232,135234,135236,200774,135241,135243,200781,200784,135251,"
    ∷ "266325,200793,135260,135262,135264,135266,-1,-1,135268,135270,"
    ∷ "135272,135274,135276,135278,135280,135282,135284,200822,200825,"
    ∷ "200828,200831,200834,200837,200840,200843,200846,200849,200852,"
    ∷ "200855,200858,200861,200864,200867,200870,200873,200876,200879,"
    ∷ "200882,200885,-1,69816,69817,68376,69818,69819,69820,69821,"
    ∷ "68430,68430,69822,68384,69823,69824,69825,69826,69827,69828,"
    ∷ "69829,69830,69831,69832,69833,69834,69835,69836,69837,69838,"
    ∷ "69839,69840,69841,69842,69843,69844,69845,69846,69847,69848,"
    ∷ "69849,69850,69851,69852,69853,69854,69855,69856,69857,69858,"
    ∷ "69859,69860,69861,69862,69863,68342,69864,69865,69866,69867,"
    ∷ "69868,69869,69870,69871,69872,69873,69874,68415,69875,69876,"
    ∷ "69877,69878,69879,69880,69881,69882,69883,69884,69885,69886,"
    ∷ "69887,69888,69889,69890,69891,69892,69893,69894,69895,69896,"
    ∷ "69897,69898,69899,69900,69901,69832,69902,69903,69904,69905,"
    ∷ "69906,69907,69908,69909,69910,69911,69912,69913,69914,69915,"
    ∷ "69916,69917,69918,69919,69920,69921,68378,69922,69923,69924,"
    ∷ "69925,69926,69927,69928,69929,69930,69931,69932,69933,69934,"
    ∷ "69935,69936,68255,69937,69938,69939,69940,69941,69942,69943,"
    ∷ "69944,68236,69945,69946,69947,69948,69949,69950,69951,69952,"
    ∷ "69953,69954,69955,69956,69957,69958,69959,69960,69961,69962,"
    ∷ "69963,69964,69965,69966,69920,69967,69968,69969,69970,69971,"
    ∷ "69972,69973,69974,69904,69975,69976,69977,69978,69979,69980,"
    ∷ "69981,69982,69983,69984,69985,69986,69987,69988,69989,69990,"
    ∷ "69991,69992,69993,69994,69832,69995,69996,69997,69998,68429,"
    ∷ "69999,70000,70001,70002,70003,70004,70005,70006,70007,70008,"
    ∷ "70009,70010,68932,70011,70012,70013,70014,70015,70016,70017,"
    ∷ "70018,70019,69906,70020,70021,70022,70023,70024,70025,70026,"
    ∷ "70027,70028,70029,70030,70031,70032,68383,70033,70034,70035,"
    ∷ "70036,70037,70038,70039,70040,70041,70042,70043,70044,70045,"
    ∷ "68334,70046,70047,70048,70049,70050,70051,70052,70053,70054,"
    ∷ "70055,70056,70057,70058,70059,70060,70061,68361,70062,68364,"
    ∷ "70063,70064,70065,-1,-1,70066,-1,70067,-1,-1,70068,70069,"
    ∷ "70070,70071,70072,70073,70074,70075,70076,68341,-1,70077,"
    ∷ "-1,70078,-1,-1,70079,70080,-1,-1,-1,70081,70082,70083,70084,"
    ∷ "-1,-1,70085,70086,70087,70088,70089,70090,70091,70092,70093,"
    ∷ "70094,70095,70096,68262,70097,70098,70099,70100,70101,70102,"
    ∷ "70103,70104,70105,70106,70107,70108,70109,70110,70111,68937,"
    ∷ "70112,70113,70114,70115,68941,70116,70117,70118,70119,70120,"
    ∷ "69956,70121,70122,70123,70124,70125,70126,70126,70127,70128,"
    ∷ "70129,70130,70131,70132,70133,70134,70079,70135,70136,70137,"
    ∷ "-1,-1,-1,-1,-1,-1,-1,-1,-1,-1,-1,-1,-1,-1,-1,-1,-1,"
    ∷ "-1,-1,-1,-1,-1,-1,-1,-1,-1,-1,-1,-1,-1,-1,-1,-1,-1,"
    ∷ "-1,-1,-1,-1,-1,-1,-1,-1,-1,-1,-1,-1,-1,-1,-1,-1,-1,"
    ∷ "-1,-1,-1,-1,-1,-1,-1,-1,-1,-1,-1,-1,-1,-1,-1,-1,-1," ∷ []
