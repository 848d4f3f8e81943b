-- ===== src/Stringprep/Unicode/Decomps3.antt =====
-- The rows of decompList, part 3, in stringprep_uni_norm.h (lines 2055 to 2100).
use Prim.Native.String.{String}
use hz_platform.Prelude.{List, [], ◌∷◌}

unfoldable pub decomp_list_3 : List String
decomp_list_3 =
    "21373,21375,133676,28784,21450,21471,133987,21483,21489,21510,"
    ∷ "21662,21560,21576,21608,21666,21750,21776,21843,21859,21892,"
    ∷ "21913,21931,21939,21954,22294,22295,22097,22132,22766,22478,"
    ∷ "22516,22541,22411,22578,22577,22700,136420,22770,22775,22790,"
    ∷ "22810,22818,22882,136872,136938,23020,23067,23079,23000,23142,"
    ∷ "14062,136042,23304,23358,137672,23491,23512,23539,138008,23551,"
    ∷ "23558,24371,14209,23648,23744,23693,138724,23875,138726,23918,"
    ∷ "23915,23932,24033,24034,14383,24061,24104,24125,24169,14434,"
    ∷ "139651,14460,24240,24243,24246,172946,140081,33281,24354,14535,"
    ∷ "144056,156122,24418,24427,14563,24474,24525,24535,24569,24705,"
    ∷ "14650,14620,141012,24775,24904,24908,24910,24954,25010,24996,"
    ∷ "25007,25054,25104,25115,25181,25265,25300,25424,142092,25405,"
    ∷ "25340,25448,25475,25572,142321,25634,25541,25513,14894,25705,"
    ∷ "25726,25757,25719,14956,25964,143370,26083,26360,26185,15129,"
    ∷ "15112,15076,20882,20885,26368,26268,32941,17369,26395,26401,"
    ∷ "26462,26451,144323,15177,26618,26501,26706,144493,26766,26655,"
    ∷ "26900,15261,26946,27043,27114,27304,145059,27355,15384,27425,"
    ∷ "145575,27476,15438,27506,27551,27579,146061,138507,146170,"
    ∷ "27726,146620,27839,27853,27751,27926,27966,28009,28024,28037,"
    ∷ "146718,27956,28207,28270,15667,28363,28359,147153,28153,28526,"
    ∷ "147294,147342,28614,28729,28702,28699,15766,28746,28797,28791,"
    ∷ "28845,132389,28997,148067,29084,17323,29224,29237,29264,149000,"
    ∷ "29312,29333,149301,149524,29562,29579,16044,29605,16056,29767,"
    ∷ "29788,29809,29829,29898,16155,29988,150582,30014,150674,139679,"
    ∷ "30224,151457,151480,151620,16380,16392,30452,151795,151794,"
    ∷ "151833,151859,30494,30495,30538,16441,30603,16454,16534,152605,"
    ∷ "30798,30924,16611,153126,153242,153285,31211,16687,31306,31311,"
    ∷ "153980,154279,31406,16898,154539,31686,31689,16935,154752,"
    ∷ "31954,17056,31976,31971,32000,155526,32099,17153,32199,32258,"
    ∷ "32325,17204,156200,156231,17241,156377,32634,156478,32661,"
    ∷ "32762,156890,156963,32864,157096,32880,144223,17365,32946,"
    ∷ "33027,17419,33086,23221,157607,157621,144275,144284,33284,"
    ∷ "36766,17515,33425,33419,33437,21171,33457,33459,33469,33510,"
    ∷ "158524,33565,33635,33709,33571,33725,33767,33619,33738,33740,"
    ∷ "33756,158774,159083,158933,17707,34033,34035,34070,160714,"
    ∷ "34148,159532,17757,17761,159665,159954,17771,34384,34407,34409,"
    ∷ "34473,34440,34574,34530,34681,34600,34667,34694,19799,34785,"
    ∷ "34817,17913,34912,161383,35031,35038,17973,35066,13499,161966,"
    ∷ "162150,18110,18119,35488,35565,35722,162984,36011,36033,36123,"
    ∷ "36215,163631,133124,36299,36284,36336,133342,36564,36664,165330,"
    ∷ "165357,37012,37105,37137,165678,37147,37432,37591,37592,37500,"
    ∷ "37881,37909,166906,38283,18837,38327,167287,18918,38595,23986,"
    ∷ "38691,168261,168474,19054,19062,38880,168970,19122,169110,"
    ∷ "38923,38953,169398,39138,19251,39209,39335,39362,39422,19406,"
    ∷ "170800,39698,40000,40189,19662,19693,40295,172238,19704,172293,"
    ∷ "172558,172689,19798,40702,40709,40719,40726,173568" ∷ []
