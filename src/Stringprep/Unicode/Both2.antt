-- ===== src/Stringprep/Unicode/Both2.antt =====
-- The rows of compBothList, part 2, in stringprep_uni_norm.h (lines 2955 to 3104).
use Prim.Native.String.{String}
use hz_platform.Prelude.{List, [], ◌∷◌}

unfoldable pub comp_both_list_2 : List String
comp_both_list_2 =
    "{" ∷ "0,0,0,0,0,0,0,0,1233,0,0,1235,0,0,0,0,0,0,0," ∷ "0,0,0,0,0,0,0,0,0,0,0,0,0,0,0,0,0,0"
    ∷ "}," ∷ "{" ∷ "0,7963,7965,0,0,0,0,0,0,0,0,0,0,0,0,0,0,0,0,"
    ∷ "0,0,0,0,0,0,0,0,0,0,0,0,0,0,0,0,0,0" ∷ "}," ∷ "{"
    ∷ "0,0,0,0,0,0,0,0,0,0,0,0,0,0,0,0,0,0,0,0,0," ∷ "0,0,0,0,0,0,12403,12404,0,0,0,0,0,0,0,0"
    ∷ "}," ∷ "{" ∷ "0,236,237,238,0,297,0,299,301,0,0,239,7881,464,521,"
    ∷ "523,7883,303,7725,0,0,0,0,0,0,0,0,0,0,0,0,0,0," ∷ "0,0,0,0" ∷ "}," ∷ "{"
    ∷ "0,210,211,212,0,213,0,332,334,0,558,214,7886,465,"
    ∷ "524,526,7884,490,0,0,0,0,0,0,0,0,0,0,0,0,336,416," ∷ "0,0,0,0,0" ∷ "}," ∷ "{"
    ∷ "0,0,7764,0,0,0,0,0,0,0,7766,0,0,0,0,0,0,0,0," ∷ "0,0,0,0,0,0,0,0,0,0,0,0,0,0,0,0,0,0" ∷ "},"
    ∷ "{" ∷ "0,8003,8005,0,0,0,0,0,0,0,0,0,0,0,0,0,0,0,0," ∷ "0,0,0,0,0,0,0,0,0,0,0,0,0,0,0,0,0,0"
    ∷ "}," ∷ "{" ∷ "0,1104,0,0,0,0,0,0,1239,0,0,1105,0,0,0,0,0,0,"
    ∷ "0,0,0,0,0,0,0,0,0,0,0,0,0,0,0,0,0,0,0" ∷ "}," ∷ "{"
    ∷ "0,8184,908,0,8008,0,8009,0,0,0,0,0,0,0,0,0,0,0," ∷ "0,0,0,0,0,0,0,0,0,0,0,0,0,0,0,0,0,0,0"
    ∷ "}," ∷ "{" ∷ "0,7900,7898,0,0,7904,0,0,0,0,0,0,7902,0,0,0,7906,"
    ∷ "0,0,0,0,0,0,0,0,0,0,0,0,0,0,0,0,0,0,0,0" ∷ "}," ∷ "{"
    ∷ "8064,7938,7940,0,0,0,0,0,0,0,0,0,0,0,0,0,0,0," ∷ "0,7942,0,0,0,0,0,0,0,0,0,0,0,0,0,0,0,0,0"
    ∷ "}," ∷ "{" ∷ "0,242,243,244,0,245,0,333,335,0,559,246,7887,466,"
    ∷ "525,527,7885,491,0,0,0,0,0,0,0,0,0,0,0,0,337,417," ∷ "0,0,0,0,0" ∷ "}," ∷ "{"
    ∷ "0,217,218,219,0,360,0,362,364,0,0,220,7910,467,532,"
    ∷ "534,7908,370,7796,0,0,0,7798,0,0,0,366,0,0,0,368," ∷ "431,7794,0,0,0,0" ∷ "}," ∷ "{"
    ∷ "0,8170,910,0,0,0,8025,8169,8168,0,0,939,0,0,0,0,"
    ∷ "0,0,0,0,0,0,0,0,0,0,0,0,0,0,0,0,0,0,0,0,0" ∷ "}," ∷ "{"
    ∷ "0,0,0,0,0,0,0,0,0,0,7787,7831,0,357,0,0,7789,0,"
    ∷ "0,0,355,0,7793,7791,0,539,0,0,0,0,0,0,0,0,0,0," ∷ "0" ∷ "}," ∷ "{"
    ∷ "0,476,472,0,0,0,0,470,0,0,0,0,0,474,0,0,0,0,0," ∷ "0,0,0,0,0,0,0,0,0,0,0,0,0,0,0,0,0,0"
    ∷ "}," ∷ "{" ∷ "8089,7979,7981,0,0,0,0,0,0,0,0,0,0,0,0,0,0,0,"
    ∷ "0,7983,0,0,0,0,0,0,0,0,0,0,0,0,0,0,0,0,0" ∷ "}," ∷ "{"
    ∷ "0,0,378,7825,0,0,0,0,0,0,380,0,0,382,0,0,7827,"
    ∷ "0,0,0,0,0,0,7829,0,0,0,0,0,0,0,0,0,0,0,0,0" ∷ "}," ∷ "{"
    ∷ "0,8019,8021,0,0,0,0,0,0,0,0,0,0,0,0,0,0,0,0," ∷ "8023,0,0,0,0,0,0,0,0,0,0,0,0,0,0,0,0,0"
    ∷ "}," ∷ "{" ∷ "0,0,0,0,0,0,0,0,0,0,7682,0,0,0,0,0,7684,0,0,"
    ∷ "0,0,0,0,7686,0,0,0,0,0,0,0,0,0,0,0,0,0" ∷ "}," ∷ "{"
    ∷ "0,7955,7957,0,0,0,0,0,0,0,0,0,0,0,0,0,0,0,0," ∷ "0,0,0,0,0,0,0,0,0,0,0,0,0,0,0,0,0,0" ∷ "},"
    ∷ "{" ∷ "0,7761,7763,0,0,0,0,0,0,0,0,0,0,0,0,0,0,0,0," ∷ "0,0,0,0,0,0,0,0,0,0,0,0,0,0,0,0,0,0"
    ∷ "}," ∷ "{" ∷ "0,0,0,292,0,0,0,0,0,0,7714,7718,0,542,0,0,7716,"
    ∷ "0,0,0,7720,7722,0,0,0,0,0,0,0,0,0,0,0,0,0,0," ∷ "0" ∷ "}," ∷ "{"
    ∷ "0,8050,941,0,7952,0,7953,0,0,0,0,0,0,0,0,0,0,0," ∷ "0,0,0,0,0,0,0,0,0,0,0,0,0,0,0,0,0,0,0"
    ∷ "}," ∷ "{" ∷ "8140,8138,905,0,7976,0,7977,0,0,0,0,0,0,0,0,0,0,"
    ∷ "0,0,0,0,0,0,0,0,0,0,0,0,0,0,0,0,0,0,0,0" ∷ "}," ∷ "{"
    ∷ "0,0,0,0,0,0,0,0,1232,0,0,1234,0,0,0,0,0,0,0," ∷ "0,0,0,0,0,0,0,0,0,0,0,0,0,0,0,0,0,0" ∷ "},"
    ∷ "{" ∷ "0,0,0,0,0,0,0,0,0,0,0,0,0,0,0,0,0,0,0,0,0," ∷ "0,0,0,0,0,0,0,0,0,0,0,0,3018,3020,0,0"
    ∷ "}," ∷ "{" ∷ "0,0,501,285,0,0,0,7713,287,0,289,0,0,487,0,0,0,"
    ∷ "0,0,0,291,0,0,0,0,0,0,0,0,0,0,0,0,0,0,0,0" ∷ "}," ∷ "{"
    ∷ "0,0,7742,0,0,0,0,0,0,0,7744,0,0,0,0,0,7746,0," ∷ "0,0,0,0,0,0,0,0,0,0,0,0,0,0,0,0,0,0,0"
    ∷ "}," ∷ "{" ∷ "0,0,508,0,0,0,0,482,0,0,0,0,0,0,0,0,0,0,0,0,"
    ∷ "0,0,0,0,0,0,0,0,0,0,0,0,0,0,0,0,0" ∷ "}," ∷ "{"
    ∷ "0,8173,901,0,0,0,0,0,0,0,0,0,0,0,0,0,0,0,0,8129," ∷ "0,0,0,0,0,0,0,0,0,0,0,0,0,0,0,0,0"
    ∷ "}," ∷ "{" ∷ "0,1024,0,0,0,0,0,0,1238,0,0,1025,0,0,0,0,0,0,"
    ∷ "0,0,0,0,0,0,0,0,0,0,0,0,0,0,0,0,0,0,0" ∷ "}," ∷ "{"
    ∷ "0,0,314,0,0,0,0,0,0,0,0,0,0,318,0,0,7735,0,0,"
    ∷ "0,316,0,7741,7739,0,0,0,0,0,0,0,0,0,0,0,0,0" ∷ "}," ∷ "{"
    ∷ "0,0,346,348,0,0,0,0,0,0,7776,0,0,352,0,0,7778,"
    ∷ "0,0,0,350,0,0,0,0,536,0,0,0,0,0,0,0,0,0,0,0" ∷ "}," ∷ "{"
    ∷ "0,7700,7702,0,0,0,0,0,0,0,0,0,0,0,0,0,0,0,0," ∷ "0,0,0,0,0,0,0,0,0,0,0,0,0,0,0,0,0,0" ∷ "},"
    ∷ "{" ∷ "0,7891,7889,0,0,7895,0,0,0,0,0,0,7893,0,0,0,0,"
    ∷ "0,0,0,0,0,0,0,0,0,0,0,0,0,0,0,0,0,0,0,0" ∷ "}," ∷ []
