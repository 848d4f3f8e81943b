-- ===== src/Stringprep/Unicode/Decomps2.antt =====
-- The rows of decompList, part 2, in stringprep_uni_norm.h (lines 1905 to 2054).
use Prim.Native.String.{String}
use hz_platform.Prelude.{List, [], ◌∷◌}

unfoldable pub decomp_list_2 : List String
decomp_list_2 =
    "49,55,28857,49,56,28857,49,57,28857,50,48,28857,50,49,"
    ∷ "28857,50,50,28857,50,51,28857,50,52,28857,104,80,97,100,"
    ∷ "97,65,85,98,97,114,111,86,112,99,24179,25104,26157,21644,"
    ∷ "22823,27491,26126,27835,26666,24335,20250,31038,112,65,110,"
    ∷ "65,956,65,109,65,107,65,75,66,77,66,71,66,99,97,108,"
    ∷ "107,99,97,108,112,70,110,70,956,70,956,103,109,103,107,"
    ∷ "103,72,122,107,72,122,77,72,122,71,72,122,84,72,122,"
    ∷ "956,108,109,108,100,108,107,108,102,109,110,109,956,109,"
    ∷ "109,109,99,109,107,109,109,109,50,99,109,50,109,50,107,"
    ∷ "109,50,109,109,51,99,109,51,109,51,107,109,51,109,8725,"
    ∷ "115,109,8725,115,50,80,97,107,80,97,77,80,97,71,80,97,"
    ∷ "114,97,100,114,97,100,8725,115,114,97,100,8725,115,50,"
    ∷ "112,115,110,115,956,115,109,115,112,86,110,86,956,86,"
    ∷ "109,86,107,86,77,86,112,87,110,87,956,87,109,87,107,"
    ∷ "87,77,87,107,937,77,937,97,46,109,46,66,113,99,99,99,"
    ∷ "100,67,8725,107,103,67,111,46,100,66,71,121,104,97,72,"
    ∷ "80,105,110,75,75,75,77,107,116,108,109,108,110,108,111,"
    ∷ "103,108,120,109,98,109,105,108,109,111,108,80,72,112,"
    ∷ "46,109,46,80,80,77,80,82,115,114,83,118,87,98,49,26085,"
    ∷ "50,26085,51,26085,52,26085,53,26085,54,26085,55,26085,56,"
    ∷ "26085,57,26085,49,48,26085,49,49,26085,49,50,26085,49,"
    ∷ "51,26085,49,52,26085,49,53,26085,49,54,26085,49,55,26085,"
    ∷ "49,56,26085,49,57,26085,50,48,26085,50,49,26085,50,50,"
    ∷ "26085,50,51,26085,50,52,26085,50,53,26085,50,54,26085,"
    ∷ "50,55,26085,50,56,26085,50,57,26085,51,48,26085,51,49,"
    ∷ "26085,35912,26356,36040,28369,20018,21477,22865,21895,22856,"
    ∷ "25078,30313,32645,34367,34746,35064,37007,27138,27931,28889,"
    ∷ "29662,33853,37226,39409,20098,21365,27396,29211,34349,40478,"
    ∷ "23888,28651,34253,35172,25289,33240,34847,24266,26391,28010,"
    ∷ "29436,37070,20358,20919,21214,25796,27347,29200,30439,34310,"
    ∷ "34396,36335,38706,39791,40442,30860,31103,32160,33737,37636,"
    ∷ "35542,22751,24324,31840,32894,29282,30922,36034,38647,22744,"
    ∷ "23650,27155,28122,28431,32047,32311,38475,21202,32907,20956,"
    ∷ "20940,31260,32190,33777,38517,35712,25295,35582,20025,23527,"
    ∷ "24594,29575,30064,21271,30971,20415,24489,19981,27852,25976,"
    ∷ "32034,21443,22622,30465,33865,35498,27578,27784,25342,33509,"
    ∷ "25504,30053,20142,20841,20937,26753,31975,33391,35538,37327,"
    ∷ "21237,21570,24300,26053,28670,31018,38317,39530,40599,40654,"
    ∷ "26310,27511,36706,24180,24976,25088,25754,28451,29001,29833,"
    ∷ "31178,32244,32879,36646,34030,36899,37706,21015,21155,21693,"
    ∷ "28872,35010,24265,24565,25467,27566,31806,29557,20196,22265,"
    ∷ "23994,24604,29618,29801,32666,32838,37428,38646,38728,38936,"
    ∷ "20363,31150,37300,38584,24801,20102,20698,23534,23615,26009,"
    ∷ "29134,30274,34044,36988,26248,38446,21129,26491,26611,27969,"
    ∷ "28316,29705,30041,30827,32016,39006,25134,38520,20523,23833,"
    ∷ "28138,36650,24459,24900,26647,38534,21033,21519,23653,26131,"
    ∷ "26446,26792,27877,29702,30178,32633,35023,35041,38626,21311,"
    ∷ "28346,21533,29136,29848,34298,38563,40023,40607,26519,28107,"
    ∷ "33256,31520,31890,29376,28825,35672,20160,33590,21050,20999,"
    ∷ "24230,25299,31958,23429,27934,26292,36667,38477,24275,20800,"
    ∷ "21952,22618,26228,20958,29482,30410,31036,31070,31077,31119,"
    ∷ "38742,31934,34322,35576,36920,37117,39151,39164,39208,40372,"
    ∷ "20398,20711,20813,21193,21220,21329,21917,22022,22120,22592,"
    ∷ "22696,23652,24724,24936,24974,25074,25935,26082,26257,26757,"
    ∷ "28023,28186,28450,29038,29227,29730,30865,31049,31048,31056,"
    ∷ "31062,31117,31118,31296,31361,31680,32265,32321,32626,32773,"
    ∷ "33261,33401,33879,35088,35222,35585,35641,36051,36104,36790,"
    ∷ "38627,38911,38971,102,102,102,105,102,108,102,102,105,102,"
    ∷ "102,108,115,116,1396,1398,1396,1381,1396,1387,1406,1398,"
    ∷ "1396,1389,1497,1460,1522,1463,1506,1492,1499,1500,1501,1512,"
    ∷ "1514,1513,1473,1513,1474,1513,1468,1473,1513,1468,1474,1488,"
    ∷ "1463,1488,1464,1488,1468,1489,1468,1490,1468,1491,1468,1492,"
    ∷ "1468,1493,1468,1494,1468,1496,1468,1497,1468,1498,1468,1499,"
    ∷ "1468,1500,1468,1502,1468,1504,1468,1505,1468,1507,1468,1508,"
    ∷ "1468,1510,1468,1511,1468,1512,1468,1513,1468,1514,1468,1493,"
    ∷ "1465,1489,1471,1499,1471,1508,1471,1488,1500,1649,1659,1662,"
    ∷ "1664,1658,1663,1657,1700,1702,1668,1667,1670,1671,1677,1676,"
    ∷ "1678,1672,1688,1681,1705,1711,1715,1713,1722,1723,1729,1726,"
    ∷ "1746,1709,1735,1734,1736,1739,1733,1737,1744,1609,1610,1620,"
    ∷ "1575,1610,1620,1749,1610,1620,1608,1610,1620,1735,1610,1620,"
    ∷ "1734,1610,1620,1736,1610,1620,1744,1610,1620,1609,1740,1610,"
    ∷ "1620,1580,1610,1620,1581,1610,1620,1605,1610,1620,1610,1576,"
    ∷ "1580,1576,1581,1576,1582,1576,1605,1576,1609,1576,1610,1578,"
    ∷ "1580,1578,1581,1578,1582,1578,1605,1578,1609,1578,1610,1579,"
    ∷ "1580,1579,1605,1579,1609,1579,1610,1580,1581,1580,1605,1581,"
    ∷ "1580,1581,1605,1582,1580,1582,1581,1582,1605,1587,1580,1587,"
    ∷ "1581,1587,1582,1587,1605,1589,1581,1589,1605,1590,1580,1590,"
    ∷ "1581,1590,1582,1590,1605,1591,1581,1591,1605,1592,1605,1593,"
    ∷ "1580,1593,1605,1594,1580,1594,1605,1601,1580,1601,1581,1601,"
    ∷ "1582,1601,1605,1601,1609,1601,1610,1602,1581,1602,1605,1602,"
    ∷ "1609,1602,1610,1603,1575,1603,1580,1603,1581,1603,1582,1603,"
    ∷ "1604,1603,1605,1603,1609,1603,1610,1604,1580,1604,1581,1604,"
    ∷ "1582,1604,1605,1604,1609,1604,1610,1605,1580,1605,1581,1605,"
    ∷ "1582,1605,1605,1605,1609,1605,1610,1606,1580,1606,1581,1606,"
    ∷ "1582,1606,1605,1606,1609,1606,1610,1607,1580,1607,1605,1607,"
    ∷ "1609,1607,1610,1610,1580,1610,1581,1610,1582,1610,1605,1610,"
    ∷ "1609,1610,1610,1584,1648,1585,1648,1609,1648,32,1612,1617,"
    ∷ "32,1613,1617,32,1614,1617,32,1615,1617,32,1616,1617,32,"
    ∷ "1617,1648,1610,1620,1585,1610,1620,1586,1610,1620,1606,1576,"
    ∷ "1585,1576,1586,1576,1606,1578,1585,1578,1586,1578,1606,1579,"
    ∷ "1585,1579,1586,1579,1606,1605,1575,1606,1585,1606,1586,1606,"
    ∷ "1606,1610,1585,1610,1586,1610,1606,1610,1620,1582,1610,1620,"
    ∷ "1607,1576,1607,1578,1607,1589,1582,1604,1607,1606,1607,1607,"
    ∷ "1648,1610,1607,1579,1607,1587,1607,1588,1605,1588,1607,1600,"
    ∷ "1614,1617,1600,1615,1617,1600,1616,1617,1591,1609,1591,1610,"
    ∷ "1593,1609,1593,1610,1594,1609,1594,1610,1587,1609,1587,1610,"
    ∷ "1588,1609,1588,1610,1581,1609,1581,1610,1580,1609,1580,1610,"
    ∷ "1582,1609,1582,1610,1589,1609,1589,1610,1590,1609,1590,1610,"
    ∷ "1588,1580,1588,1581,1588,1582,1588,1585,1587,1585,1589,1585,"
    ∷ "1590,1585,1575,1611,1578,1580,1605,1578,1581,1580,1578,1581,"
    ∷ "1605,1578,1582,1605,1578,1605,1580,1578,1605,1581,1578,1605,"
    ∷ "1582,1580,1605,1581,1581,1605,1610,1581,1605,1609,1587,1581,"
    ∷ "1580,1587,1580,1581,1587,1580,1609,1587,1605,1581,1587,1605,"
    ∷ "1580,1587,1605,1605,1589,1581,1581,1589,1605,1605,1588,1581,"
    ∷ "1605,1588,1580,1610,1588,1605,1582,1588,1605,1605,1590,1581,"
    ∷ "1609,1590,1582,1605,1591,1605,1581,1591,1605,1605,1591,1605,"
    ∷ "1610,1593,1580,1605,1593,1605,1605,1593,1605,1609,1594,1605,"
    ∷ "1605,1594,1605,1610,1594,1605,1609,1601,1582,1605,1602,1605,"
    ∷ "1581,1602,1605,1605,1604,1581,1605,1604,1581,1610,1604,1581,"
    ∷ "1609,1604,1580,1580,1604,1582,1605,1604,1605,1581,1605,1581,"
    ∷ "1580,1605,1581,1605,1605,1581,1610,1605,1580,1581,1605,1580,"
    ∷ "1605,1605,1582,1580,1605,1582,1605,1605,1580,1582,1607,1605,"
    ∷ "1580,1607,1605,1605,1606,1581,1605,1606,1581,1609,1606,1580,"
    ∷ "1605,1606,1580,1609,1606,1605,1610,1606,1605,1609,1610,1605,"
    ∷ "1605,1576,1582,1610,1578,1580,1610,1578,1580,1609,1578,1582,"
    ∷ "1610,1578,1582,1609,1578,1605,1610,1578,1605,1609,1580,1605,"
    ∷ "1610,1580,1581,1609,1580,1605,1609,1587,1582,1609,1589,1581,"
    ∷ "1610,1588,1581,1610,1590,1581,1610,1604,1580,1610,1604,1605,"
    ∷ "1610,1610,1581,1610,1610,1580,1610,1610,1605,1610,1605,1605,"
    ∷ "1610,1602,1605,1610,1606,1581,1610,1593,1605,1610,1603,1605,"
    ∷ "1610,1606,1580,1581,1605,1582,1610,1604,1580,1605,1603,1605,"
    ∷ "1605,1580,1581,1610,1581,1580,1610,1605,1580,1610,1601,1605,"
    ∷ "1610,1576,1581,1610,1587,1582,1610,1606,1580,1610,1589,1604,"
    ∷ "1746,1602,1604,1746,1575,1604,1604,1607,1575,1603,1576,1585,"
    ∷ "1605,1581,1605,1583,1589,1604,1593,1605,1585,1587,1608,1604,"
    ∷ "1593,1604,1610,1607,1608,1587,1604,1605,1589,1604,1609,1589,"
    ∷ "1604,1609,32,1575,1604,1604,1607,32,1593,1604,1610,1607,"
    ∷ "32,1608,1587,1604,1605,1580,1604,32,1580,1604,1575,1604,"
    ∷ "1607,1585,1740,1575,1604,8212,8211,95,123,125,12308,12309,"
    ∷ "12304,12305,12298,12299,12300,12301,12302,12303,44,12289,"
    ∷ "58,63,33,35,38,42,45,60,62,92,36,37,64,32,1611,1600,"
    ∷ "1611,32,1612,32,1613,32,1614,1600,1614,32,1615,1600,1615,"
    ∷ "32,1616,1600,1616,32,1617,1600,1617,32,1618,1600,1618,1569,"
    ∷ "1575,1576,1577,1578,1579,1580,1581,1582,1583,1584,1585,1586,"
    ∷ "1587,1588,1589,1590,1591,1592,1593,1594,1601,1602,1603,1604,"
    ∷ "1605,1606,1607,1608,1610,1604,1575,1619,1604,1575,1620,1604,"
    ∷ "1575,1621,1604,1575,34,39,47,91,93,94,124,126,10629,10630,"
    ∷ "12290,12539,12449,12451,12453,12455,12457,12515,12517,12519,"
    ∷ "12483,12540,12531,12441,12442,162,163,172,166,165,8361,9474,"
    ∷ "8592,8593,8594,8595,9632,9675,119127,119141,119128,119141,"
    ∷ "119128,119141,119150,119128,119141,119151,119128,119141,119152,"
    ∷ "119128,119141,119153,119128,119141,119154,119225,119141,119226,"
    ∷ "119141,119225,119141,119150,119226,119141,119150,119225,119141,"
    ∷ "119151,119226,119141,119151,913,914,916,917,918,919,921,"
    ∷ "922,923,924,925,926,927,929,931,932,934,935,936,8711,945,"
    ∷ "948,950,951,955,957,958,959,963,964,965,967,968,969,8706,"
    ∷ "20029,20024,20033,131362,20320,20411,20482,20602,20633,20687,"
    ∷ "13470,132666,20820,20836,20855,132380,13497,20839,20877,132427,"
    ∷ "20887,20900,20172,20908,20917,168415,20995,13535,21051,21062,"
    ∷ "21106,21111,13589,21191,21242,21253,21254,21321,21338,21363," ∷ []
