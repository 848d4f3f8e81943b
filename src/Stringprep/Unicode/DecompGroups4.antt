-- ===== src/Stringprep/Unicode/DecompGroups4.antt =====
-- The rows of decompGroupMap, part 4, in stringprep_uni_norm.h (lines 1283 to 1432).
use Prim.Native.String.{String}
use hz_platform.Prelude.{List, [], ◌∷◌}

unfoldable pub decomp_group_map_4 : List String
decomp_group_map_4 =
    "-1,-1,-1,-1,-1,-1,-1,-1,-1,-1,-1,-1,-1,-1,-1,-1,-1,"
    ∷ "-1,-1,-1,-1,-1,-1,-1,-1,-1,-1,-1,-1,-1,-1,-1,-1,-1,"
    ∷ "-1,-1,-1,-1,-1,-1,-1,-1,-1,-1,-1,-1,-1,-1,-1,-1,-1,"
    ∷ "-1,-1,-1,-1,-1,-1,-1,-1,-1,-1,-1,-1,-1,-1,-1,-1,-1,"
    ∷ "-1,-1,-1,-1,-1,-1,-1,-1,-1,-1,-1,-1,-1,135674,135676,"
    ∷ "135678,201216,201219,135686,135686,-1,-1,-1,-1,-1,-1,-1,"
    ∷ "-1,-1,-1,-1,-1,135688,135690,135692,135694,135696,-1,-1,"
    ∷ "-1,-1,-1,135698,-1,135700,70166,67764,67767,70167,70168,"
    ∷ "70169,70170,70171,70172,67712,135709,135711,201249,201252,"
    ∷ "135719,135721,135723,135725,135727,135729,135731,135733,135735,"
    ∷ "-1,135737,135739,135741,135743,135745,-1,135747,-1,135749,"
    ∷ "135751,-1,135753,135755,-1,135757,135759,135761,135763,135765,"
    ∷ "135767,135769,135771,135773,135775,70241,70241,70242,70242,"
    ∷ "70242,70242,70243,70243,70243,70243,70244,70244,70244,70244,"
    ∷ "70245,70245,70245,70245,70246,70246,70246,70246,70247,70247,"
    ∷ "70247,70247,70248,70248,70248,70248,70249,70249,70249,70249,"
    ∷ "70250,70250,70250,70250,70251,70251,70251,70251,70252,70252,"
    ∷ "70252,70252,70253,70253,70253,70253,70254,70254,70255,70255,"
    ∷ "70256,70256,70257,70257,70258,70258,70259,70259,70260,70260,"
    ∷ "70260,70260,70261,70261,70261,70261,70262,70262,70262,70262,"
    ∷ "70263,70263,70263,70263,70264,70264,70265,70265,70265,70265,"
    ∷ "131874,131874,70266,70266,70266,70266,70267,70267,70267,70267,"
    ∷ "70268,70268,131878,131878,-1,-1,-1,-1,-1,-1,-1,-1,-1,-1,"
    ∷ "-1,-1,-1,-1,-1,-1,-1,-1,-1,-1,-1,-1,-1,-1,-1,-1,-1,"
    ∷ "-1,-1,-1,-1,-1,-1,70269,70269,70269,70269,70270,70270,70271,"
    ∷ "70271,70272,70272,131870,70273,70273,70274,70274,70275,70275,"
    ∷ "70276,70276,70276,70276,70277,70277,201350,201350,201353,201353,"
    ∷ "201356,201356,201359,201359,201362,201362,201365,201365,201368,"
    ∷ "201368,201368,201371,201371,201371,70302,70302,70302,70302,"
    ∷ "201375,201378,201381,201371,201384,135851,135853,135855,135857,"
    ∷ "135859,135861,135863,135865,135867,135869,135871,135873,135875,"
    ∷ "135877,135879,135881,135883,135885,135887,135889,135891,135893,"
    ∷ "135895,135897,135899,135901,135903,135905,135907,135909,135911,"
    ∷ "135913,135915,135917,135919,135921,135923,135925,135927,135929,"
    ∷ "135931,135933,135935,135937,135939,135941,135943,135945,135947,"
    ∷ "135949,135951,135953,135955,135957,135959,135961,135963,135965,"
    ∷ "135967,135969,135971,135973,135975,135977,135979,135981,135983,"
    ∷ "135985,135987,135989,135991,135993,135995,135997,135999,136001,"
    ∷ "136003,136005,136007,136009,136011,136013,136015,136017,136019,"
    ∷ "136021,136023,136025,136027,201565,201568,201571,201574,201577,"
    ∷ "201580,201583,201586,201381,201589,201371,201384,136056,136058,"
    ∷ "135857,136060,135859,135861,136062,136064,135869,136066,135871,"
    ∷ "135873,136068,136070,135877,136072,135879,135881,135939,135941,"
    ∷ "135947,135949,135951,135959,135961,135963,135965,135973,135975,"
    ∷ "135977,136074,135985,136076,136078,135997,136080,135999,136001,"
    ∷ "136027,136082,136084,136017,136086,136019,136021,201375,201378,"
    ∷ "201624,201381,201627,135851,135853,135855,135857,136094,135863,"
    ∷ "135865,135867,135869,136096,135877,135883,135885,135887,135889,"
    ∷ "135891,135895,135897,135899,135901,135903,135905,136098,135907,"
    ∷ "135909,135911,135913,135915,135917,135921,135923,135925,135927,"
    ∷ "135929,135931,135933,135935,135937,135943,135945,135953,135955,"
    ∷ "135957,135959,135961,135967,135969,135971,135973,136100,135979,"
    ∷ "135981,135983,135985,135991,135993,135995,135997,136102,136003,"
    ∷ "136005,136104,136011,136013,136015,136017,136106,201381,201627,"
    ∷ "135857,136094,135869,136096,135877,136108,135903,136110,136112,"
    ∷ "136114,135959,135961,135973,135997,136102,136017,136106,201652,"
    ∷ "201655,201658,136125,136127,136129,136131,136133,136135,136137,"
    ∷ "136139,136141,136143,136145,136147,136149,136151,136153,136155,"
    ∷ "136157,136159,136161,136163,136165,136167,136169,136112,136171,"
    ∷ "136173,136175,136177,136125,136127,136129,136131,136133,136135,"
    ∷ "136137,136139,136141,136143,136145,136147,136149,136151,136153,"
    ∷ "136155,136157,136159,136161,136163,136165,136167,136169,136112,"
    ∷ "136171,136173,136175,136177,136165,136167,136169,136112,136110,"
    ∷ "136114,135919,135897,135899,135901,136165,136167,136169,135919,"
    ∷ "135921,136179,136179,-1,-1,-1,-1,-1,-1,-1,-1,-1,-1,-1,"
    ∷ "-1,-1,-1,-1,-1,-1,-1,201717,201720,201720,201723,201726,"
    ∷ "201729,201732,201735,201738,201738,201741,201744,201747,201750,"
    ∷ "201753,201756,201756,201759,201762,201762,201765,201765,201768,"
    ∷ "201771,201771,201774,201777,201777,201780,201780,201783,201786,"
    ∷ "201786,201789,201789,201792,201795,201798,201801,201801,201804,"
    ∷ "201807,201810,201813,201816,201816,201819,201822,201825,201828,"
    ∷ "201831,201834,201834,201837,201837,201840,201840,201843,201846,"
    ∷ "201849,201852,201855,201858,201861,-1,-1,201864,201867,201870,"
    ∷ "201873,201876,201879,201879,201882,201885,201888,201891,201891,"
    ∷ "201894,201897,201900,201903,201906,201909,201912,201915,201918,"
    ∷ "201921,201924,201927,201930,201933,201936,201939,201942,201945,"
    ∷ "201948,201951,201954,201957,201819,201825,201960,201963,201966,"
    ∷ "201969,201972,201975,201972,201966,201978,201981,201984,201987,"
    ∷ "201990,201975,201798,201768,201993,201996,-1,-1,-1,-1,-1,"
    ∷ "-1,-1,-1,-1,-1,-1,-1,-1,-1,-1,-1,-1,-1,-1,-1,-1,-1,"
    ∷ "-1,-1,-1,-1,-1,-1,-1,-1,-1,-1,-1,-1,-1,-1,-1,-1,-1,"
    ∷ "-1,201999,202002,267541,267545,267549,267553,267557,267561,"
    ∷ "267565,202033,1185076,529734,267598,-1,-1,-1,-1,-1,-1,-1,"
    ∷ "-1,-1,-1,-1,-1,-1,-1,-1,-1,-1,-1,-1,-1,-1,-1,-1,-1,"
    ∷ "-1,-1,-1,-1,-1,-1,-1,-1,-1,-1,-1,-1,-1,-1,-1,-1,-1,"
    ∷ "-1,-1,-1,-1,-1,-1,-1,-1,-1,-1,133211,70994,70995,70996,"
    ∷ "70996,67715,67716,70997,70998,70999,71000,71001,71002,71003,"
    ∷ "71004,67961,67962,71005,71006,71007,71008,-1,-1,-1,-1,133228,"
    ∷ "133228,133228,133228,70996,70996,70996,71009,71010,67674,-1,"
    ∷ "66157,71011,71012,71013,70994,67715,67716,70997,70998,70999,"
    ∷ "71000,71014,71015,71016,67712,71017,71018,71019,67714,-1,"
    ∷ "71020,71021,71022,71023,-1,-1,-1,-1,136560,136562,136564,"
    ∷ "-1,136566,-1,136568,136570,136572,136574,136576,136578,136580,"
    ∷ "136582,136584,136586,71052,131856,131856,131858,131858,131860,"
    ∷ "131860,131862,131862,131864,131864,131864,131864,71053,71053,"
    ∷ "71054,71054,71054,71054,71055,71055,71056,71056,71056,71056,"
    ∷ "71057,71057,71057,71057,71058,71058,71058,71058,71059,71059,"
    ∷ "71059,71059,71060,71060,71060,71060,71061,71061,71062,71062,"
    ∷ "71063,71063,71064,71064,71065,71065,71065,71065,71066,71066,"
    ∷ "71066,71066,71067,71067,71067,71067,71068,71068,71068,71068,"
    ∷ "71069,71069,71069,71069,71070,71070,71070,71070,71071,71071,"
    ∷ "71071,71071,71072,71072,71072,71072,71073,71073,71073,71073,"
    ∷ "71074,71074,71074,71074,71075,71075,71075,71075,71076,71076,"
    ∷ "71076,71076,71077,71077,71077,71077,71078,71078,71078,71078,"
    ∷ "71079,71079,71079,71079,71080,71080,70277,70277,71081,71081,"
    ∷ "71081,71081,202154,202154,202157,202157,202160,202160,136627,"
    ∷ "136627,-1,-1,-1,-1,71013,71093,71014,71021,71022,71015,71094,"
    ∷ "67715,67716,71016,67712,71009,71017,67674,71095,67704,65549,"
    ∷ "65542,65543,67706,67707,67708,67709,67710,67711,71011,66157,"
    ∷ "71018,67714,71019,71012,71023,68185,67759,67726,67772,67761,"
    ∷ "67762,68186,67739,67741,68187,67758,67742,67763,67743,68188,"
    ∷ "67746,67747,67748,68189,68190,68191,67819,68192,67831,68193,"
    ∷ "67756,71096,71020,71097,71098,70996,67649,65539,68194,67861,"
    ∷ "67773,67760,68195,67738,66124,67705,66126,68196,66146,67862,"
    ∷ "67717,65550,68197,68198,66127,65892,68199,68200,67844,66131,"
    ∷ "66147,66132,68201,70997,71099,70998,71100,71101,71102,71103,"
    ∷ "71005,71006,71010,71104,69066,71105,71106,71107,71108,71109,"
    ∷ "71110,71111,71112,71113,71114,69020,69021,69022,69023,69024,"
    ∷ "69025,69026,69027,69028,69029,69030,69031,69032,69033,69034,"
    ∷ "69035,69036,69037,69038,69039,69040,69041,69042,69043,69044,"
    ∷ "69045,69046,69047,69048,69049,69050,69051,69052,69053,69054,"
    ∷ "69055,69056,69057,69058,69059,69060,69061,69062,69063,71115,"
    ∷ "71116,71117,68610,68559,68560,68561,68562,68563,68564,68565,"
    ∷ "68566,68567,68568,68569,68570,68571,68572,68573,68574,68575,"
    ∷ "68576,68577,68578,68579,68580,68581,68582,68583,68584,68585,"
    ∷ "68586,68587,68588,-1,-1,-1,68589,68590,68591,68592,68593,"
    ∷ "68594,-1,-1,68595,68596,68597,68598,68599,68600,-1,-1,68601,"
    ∷ "68602,68603,68604,68605,68606,-1,-1,68607,68608,68609,-1,"
    ∷ "-1,-1,71118,71119,71120,131076,71121,71122,71123,-1,71124,"
    ∷ "71125,71126,71127,71128,71129,71130,-1,-1,-1,-1,-1,-1,-1,"
    ∷ "-1,-1,-1,-1,-1,-1,-1,-1,-1,-1,-1,-1,-1,-1,-1,-1,-1,"
    ∷ "-1,-1,-1,-1,-1,-1,-1,-1,-1,-1,-1,-1,-1,-1,-1,-1,-1,"
    ∷ "-1,-1,-1,-1,-1,-1,-1,-1,-1,-1,-1,-1,-1,-1,-1,-1,-1,"
    ∷ "-1,-1,-1,-1,-1,-1,-1,-1,-1,-1,-1,-1,-1,-1,-1,-1,-1,"
    ∷ "-1,-1,-1,-1,-1,-1,-1,-1,-1,-1,-1,-1,-1,-1,-1,-1,-1,"
    ∷ "-1,-1,-1,-1,-1,-1,-1,-1,-1,-1,-1,-1,-1,-1,-1,-1,-1,"
    ∷ "-1,-1,136667,136669,202207,202210,202213,202216,202219,-1,"
    ∷ "-1,-1,-1,-1,-1,-1,-1,-1,-1,-1,-1,-1,-1,-1,-1,-1,-1,"
    ∷ "-1,-1,-1,-1,-1,-1,-1,-1,-1,-1,-1,-1,-1,-1,-1,-1,-1,"
    ∷ "-1,-1,-1,-1,-1,-1,-1,-1,-1,-1,-1,-1,-1,-1,-1,-1,-1,"
    ∷ "-1,-1,-1,-1,-1,-1,-1,-1,-1,-1,-1,-1,-1,-1,-1,-1,-1,"
    ∷ "-1,-1,-1,-1,-1,-1,-1,-1,-1,-1,-1,-1,-1,-1,-1,-1,-1,"
    ∷ "136686,136688,202226,202229,202232,202235,-1,-1,-1,-1,-1,"
    ∷ "-1,-1,-1,-1,-1,-1,-1,-1,-1,-1,-1,-1,-1,-1,-1,-1,-1,"
    ∷ "-1,-1,-1,-1,-1,-1,-1,-1,-1,-1,-1,-1,-1,-1,-1,-1,-1,"
    ∷ "-1,-1,-1,-1,-1,-1,-1,-1,-1,-1,-1,-1,-1,-1,-1,-1,-1,"
    ∷ "-1,-1,-1,-1,-1,-1,-1,68185,67759,67726,67772,67761,67762,"
    ∷ "68186,67739,67741,68187,67758,67742,67763,67743,68188,67746,"
    ∷ "67747,67748,68189,68190,68191,67819,68192,67831,68193,67756,"
    ∷ "65539,68194,67861,67773,67760,68195,67738,66124,67705,66126," ∷ []
