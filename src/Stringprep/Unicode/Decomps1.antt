-- ===== src/Stringprep/Unicode/Decomps1.antt =====
-- The rows of decompList, part 1, in stringprep_uni_norm.h (lines 1755 to 1904).
use Prim.Native.String.{String}
use hz_platform.Prelude.{List, [], ◌∷◌}

unfoldable pub decomp_list_1 : List String
decomp_list_1 =
    "772,933,768,929,788,32,776,768,96,969,768,837,969,837,"
    ∷ "969,769,837,969,834,969,834,837,927,768,937,768,937,837,"
    ∷ "32,788,8208,32,819,46,46,46,46,46,46,8242,8242,8242,8242,"
    ∷ "8242,8245,8245,8245,8245,8245,33,33,32,773,63,63,63,33,"
    ∷ "33,63,8242,8242,8242,8242,48,105,52,53,54,55,56,57,43,"
    ∷ "8722,61,40,41,110,82,115,97,47,99,97,47,115,67,176,67,"
    ∷ "99,47,111,99,47,117,400,176,70,103,72,295,73,76,78,78,"
    ∷ "111,80,81,82,83,77,84,69,76,84,77,90,937,75,66,101,"
    ∷ "69,70,77,1488,1489,1490,1491,947,915,928,8721,68,100,49,"
    ∷ "8260,51,50,8260,51,49,8260,53,50,8260,53,51,8260,53,52,"
    ∷ "8260,53,49,8260,54,53,8260,54,49,8260,56,51,8260,56,53,"
    ∷ "8260,56,55,8260,56,49,8260,73,73,73,73,73,73,86,86,86,"
    ∷ "73,86,73,73,86,73,73,73,73,88,88,88,73,88,73,73,105,"
    ∷ "105,105,105,105,105,118,118,118,105,118,105,105,118,105,"
    ∷ "105,105,105,120,120,105,120,105,105,99,109,8592,824,8594,"
    ∷ "824,8596,824,8656,824,8660,824,8658,824,8707,824,8712,824,"
    ∷ "8715,824,8739,824,8741,824,8747,8747,8747,8747,8747,8750,"
    ∷ "8750,8750,8750,8750,8764,824,8771,824,8773,824,8776,824,"
    ∷ "61,824,8801,824,8781,824,60,824,62,824,8804,824,8805,824,"
    ∷ "8818,824,8819,824,8822,824,8823,824,8826,824,8827,824,8834,"
    ∷ "824,8835,824,8838,824,8839,824,8866,824,8872,824,8873,824,"
    ∷ "8875,824,8828,824,8829,824,8849,824,8850,824,8882,824,8883,"
    ∷ "824,8884,824,8885,824,12296,12297,49,48,49,49,49,50,49,"
    ∷ "51,49,52,49,53,49,54,49,55,49,56,49,57,50,48,40,49,"
    ∷ "41,40,50,41,40,51,41,40,52,41,40,53,41,40,54,41,40,"
    ∷ "55,41,40,56,41,40,57,41,40,49,48,41,40,49,49,41,40,"
    ∷ "49,50,41,40,49,51,41,40,49,52,41,40,49,53,41,40,49,"
    ∷ "54,41,40,49,55,41,40,49,56,41,40,49,57,41,40,50,48,"
    ∷ "41,49,46,50,46,51,46,52,46,53,46,54,46,55,46,56,46,"
    ∷ "57,46,49,48,46,49,49,46,49,50,46,49,51,46,49,52,46,"
    ∷ "49,53,46,49,54,46,49,55,46,49,56,46,49,57,46,50,48,"
    ∷ "46,40,97,41,40,98,41,40,99,41,40,100,41,40,101,41,40,"
    ∷ "102,41,40,103,41,40,104,41,40,105,41,40,106,41,40,107,"
    ∷ "41,40,108,41,40,109,41,40,110,41,40,111,41,40,112,41,"
    ∷ "40,113,41,40,114,41,40,115,41,40,116,41,40,117,41,40,"
    ∷ "118,41,40,119,41,40,120,41,40,121,41,40,122,41,65,71,"
    ∷ "74,79,83,84,85,87,89,98,102,107,112,113,116,117,122,"
    ∷ "8747,8747,8747,8747,58,58,61,61,61,61,61,61,10973,824,"
    ∷ "27597,40863,19968,20008,20022,20031,20057,20101,20108,20128,"
    ∷ "20154,20799,20837,20843,20866,20886,20907,20960,20981,20992,"
    ∷ "21147,21241,21269,21274,21304,21313,21340,21353,21378,21430,"
    ∷ "21448,21475,22231,22303,22763,22786,22794,22805,22823,22899,"
    ∷ "23376,23424,23544,23567,23586,23608,23662,23665,24027,24037,"
    ∷ "24049,24062,24178,24186,24191,24308,24318,24331,24339,24400,"
    ∷ "24417,24435,24515,25096,25142,25163,25903,25908,25991,26007,"
    ∷ "26020,26041,26080,26085,26352,26376,26408,27424,27490,27513,"
    ∷ "27571,27595,27604,27611,27663,27668,27700,28779,29226,29238,"
    ∷ "29243,29247,29255,29273,29275,29356,29572,29577,29916,29926,"
    ∷ "29976,29983,29992,30000,30091,30098,30326,30333,30382,30399,"
    ∷ "30446,30683,30690,30707,31034,31160,31166,31348,31435,31481,"
    ∷ "31859,31992,32566,32593,32650,32701,32769,32780,32786,32819,"
    ∷ "32895,32905,33251,33258,33267,33276,33292,33307,33311,33390,"
    ∷ "33394,33400,34381,34411,34880,34892,34915,35198,35211,35282,"
    ∷ "35328,35895,35910,35925,35960,35997,36196,36208,36275,36523,"
    ∷ "36554,36763,36784,36789,37009,37193,37318,37324,37329,38263,"
    ∷ "38272,38428,38582,38585,38632,38737,38750,38754,38761,38859,"
    ∷ "38893,38899,38913,39080,39131,39135,39318,39321,39340,39592,"
    ∷ "39640,39647,39717,39727,39730,39740,39770,40165,40565,40575,"
    ∷ "40613,40635,40643,40653,40657,40697,40701,40718,40723,40736,"
    ∷ "40763,40778,40786,40845,40860,40864,12306,21316,21317,12363,"
    ∷ "12441,12365,12441,12367,12441,12369,12441,12371,12441,12373,"
    ∷ "12441,12375,12441,12377,12441,12379,12441,12381,12441,12383,"
    ∷ "12441,12385,12441,12388,12441,12390,12441,12392,12441,12399,"
    ∷ "12441,12399,12442,12402,12441,12402,12442,12405,12441,12405,"
    ∷ "12442,12408,12441,12408,12442,12411,12441,12411,12442,12358,"
    ∷ "12441,32,12441,32,12442,12445,12441,12424,12426,12459,12441,"
    ∷ "12461,12441,12463,12441,12465,12441,12467,12441,12469,12441,"
    ∷ "12471,12441,12473,12441,12475,12441,12477,12441,12479,12441,"
    ∷ "12481,12441,12484,12441,12486,12441,12488,12441,12495,12441,"
    ∷ "12495,12442,12498,12441,12498,12442,12501,12441,12501,12442,"
    ∷ "12504,12441,12504,12442,12507,12441,12507,12442,12454,12441,"
    ∷ "12527,12441,12528,12441,12529,12441,12530,12441,12541,12441,"
    ∷ "12467,12488,4352,4353,4522,4354,4524,4525,4355,4356,4357,"
    ∷ "4528,4529,4530,4531,4532,4533,4378,4358,4359,4360,4385,4361,"
    ∷ "4362,4363,4364,4365,4366,4367,4368,4369,4370,4449,4450,4451,"
    ∷ "4452,4453,4454,4455,4456,4457,4458,4459,4460,4461,4462,4463,"
    ∷ "4464,4465,4466,4467,4468,4469,4448,4372,4373,4551,4552,4556,"
    ∷ "4558,4563,4567,4569,4380,4573,4575,4381,4382,4384,4386,4387,"
    ∷ "4391,4393,4395,4396,4397,4398,4399,4402,4406,4416,4423,4428,"
    ∷ "4593,4594,4439,4440,4441,4484,4485,4488,4497,4498,4500,4510,"
    ∷ "4513,19977,22235,19978,20013,19979,30002,19993,19969,22825,"
    ∷ "22320,40,4352,41,40,4354,41,40,4355,41,40,4357,41,40,"
    ∷ "4358,41,40,4359,41,40,4361,41,40,4363,41,40,4364,41,40,"
    ∷ "4366,41,40,4367,41,40,4368,41,40,4369,41,40,4370,41,40,"
    ∷ "4352,4449,41,40,4354,4449,41,40,4355,4449,41,40,4357,4449,"
    ∷ "41,40,4358,4449,41,40,4359,4449,41,40,4361,4449,41,40,"
    ∷ "4363,4449,41,40,4364,4449,41,40,4366,4449,41,40,4367,4449,"
    ∷ "41,40,4368,4449,41,40,4369,4449,41,40,4370,4449,41,40,"
    ∷ "4364,4462,41,40,19968,41,40,20108,41,40,19977,41,40,22235,"
    ∷ "41,40,20116,41,40,20845,41,40,19971,41,40,20843,41,40,"
    ∷ "20061,41,40,21313,41,40,26376,41,40,28779,41,40,27700,"
    ∷ "41,40,26408,41,40,37329,41,40,22303,41,40,26085,41,40,"
    ∷ "26666,41,40,26377,41,40,31038,41,40,21517,41,40,29305,"
    ∷ "41,40,36001,41,40,31069,41,40,21172,41,40,20195,41,40,"
    ∷ "21628,41,40,23398,41,40,30435,41,40,20225,41,40,36039,"
    ∷ "41,40,21332,41,40,31085,41,40,20241,41,40,33258,41,40,"
    ∷ "33267,41,50,49,50,50,50,51,50,52,50,53,50,54,50,55,"
    ∷ "50,56,50,57,51,48,51,49,51,50,51,51,51,52,51,53,4352,"
    ∷ "4449,4354,4449,4355,4449,4357,4449,4358,4449,4359,4449,4361,"
    ∷ "4449,4363,4449,4364,4449,4366,4449,4367,4449,4368,4449,4369,"
    ∷ "4449,4370,4449,20116,20845,19971,20061,26666,26377,31038,"
    ∷ "21517,29305,36001,31069,21172,31192,30007,36969,20778,21360,"
    ∷ "27880,38917,20241,20889,27491,24038,21491,21307,23447,23398,"
    ∷ "30435,20225,36039,21332,22812,51,54,51,55,51,56,51,57,"
    ∷ "52,48,52,49,52,50,52,51,52,52,52,53,52,54,52,55,52,"
    ∷ "56,52,57,53,48,49,26376,50,26376,51,26376,52,26376,53,"
    ∷ "26376,54,26376,55,26376,56,26376,57,26376,49,48,26376,49,"
    ∷ "49,26376,49,50,26376,12450,12452,12454,12456,12458,12459,"
    ∷ "12461,12463,12465,12467,12469,12471,12473,12475,12477,12479,"
    ∷ "12481,12484,12486,12488,12490,12491,12492,12493,12494,12495,"
    ∷ "12498,12501,12504,12507,12510,12511,12512,12513,12514,12516,"
    ∷ "12518,12520,12521,12522,12523,12524,12525,12527,12528,12529,"
    ∷ "12530,12450,12495,12442,12540,12488,12450,12523,12501,12449,"
    ∷ "12450,12531,12504,12442,12450,12450,12540,12523,12452,12491,"
    ∷ "12531,12463,12441,12452,12531,12481,12454,12457,12531,12456,"
    ∷ "12473,12463,12540,12488,12441,12456,12540,12459,12540,12458,"
    ∷ "12531,12473,12458,12540,12512,12459,12452,12522,12459,12521,"
    ∷ "12483,12488,12459,12525,12522,12540,12459,12441,12525,12531,"
    ∷ "12459,12441,12531,12510,12461,12441,12459,12441,12461,12441,"
    ∷ "12491,12540,12461,12517,12522,12540,12461,12441,12523,12479,"
    ∷ "12441,12540,12461,12525,12461,12525,12463,12441,12521,12512,"
    ∷ "12461,12525,12513,12540,12488,12523,12461,12525,12527,12483,"
    ∷ "12488,12463,12441,12521,12512,12463,12441,12521,12512,12488,"
    ∷ "12531,12463,12523,12475,12441,12452,12525,12463,12525,12540,"
    ∷ "12493,12465,12540,12473,12467,12523,12490,12467,12540,12507,"
    ∷ "12442,12469,12452,12463,12523,12469,12531,12481,12540,12512,"
    ∷ "12471,12522,12531,12463,12441,12475,12531,12481,12475,12531,"
    ∷ "12488,12479,12441,12540,12473,12486,12441,12471,12488,12441,"
    ∷ "12523,12488,12531,12490,12494,12494,12483,12488,12495,12452,"
    ∷ "12484,12495,12442,12540,12475,12531,12488,12495,12442,12540,"
    ∷ "12484,12495,12441,12540,12524,12523,12498,12442,12450,12473,"
    ∷ "12488,12523,12498,12442,12463,12523,12498,12442,12467,12498,"
    ∷ "12441,12523,12501,12449,12521,12483,12488,12441,12501,12451,"
    ∷ "12540,12488,12501,12441,12483,12471,12455,12523,12501,12521,"
    ∷ "12531,12504,12463,12479,12540,12523,12504,12442,12477,12504,"
    ∷ "12442,12491,12498,12504,12523,12484,12504,12442,12531,12473,"
    ∷ "12504,12442,12540,12471,12441,12504,12441,12540,12479,12507,"
    ∷ "12442,12452,12531,12488,12507,12441,12523,12488,12507,12531,"
    ∷ "12507,12442,12531,12488,12441,12507,12540,12523,12507,12540,"
    ∷ "12531,12510,12452,12463,12525,12510,12452,12523,12510,12483,"
    ∷ "12495,12510,12523,12463,12510,12531,12471,12519,12531,12511,"
    ∷ "12463,12525,12531,12511,12522,12511,12522,12495,12441,12540,"
    ∷ "12523,12513,12459,12441,12513,12459,12441,12488,12531,12513,"
    ∷ "12540,12488,12523,12516,12540,12488,12441,12516,12540,12523,"
    ∷ "12518,12450,12531,12522,12483,12488,12523,12522,12521,12523,"
    ∷ "12498,12442,12540,12523,12540,12501,12441,12523,12524,12512,"
    ∷ "12524,12531,12488,12465,12441,12531,12527,12483,12488,48,"
    ∷ "28857,49,28857,50,28857,51,28857,52,28857,53,28857,54,28857,"
    ∷ "55,28857,56,28857,57,28857,49,48,28857,49,49,28857,49,"
    ∷ "50,28857,49,51,28857,49,52,28857,49,53,28857,49,54,28857," ∷ []
