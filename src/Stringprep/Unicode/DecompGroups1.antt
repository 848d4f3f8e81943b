-- ===== src/Stringprep/Unicode/DecompGroups1.antt =====
-- The rows of decompGroupMap, part 1, in stringprep_uni_norm.h (lines 833 to 982).
use Prim.Native.String.{String}
use hz_platform.Prelude.{List, [], ◌∷◌}

unfoldable pub decomp_group_map_1 : List String
decomp_group_map_1 =
    "-1,-1,-1,-1,-1,-1,-1,-1,-1,-1,-1,-1,-1,-1,-1,-1,-1,"
    ∷ "-1,-1,-1,-1,-1,-1,-1,-1,-1,-1,-1,-1,-1,-1,-1,-1,-1,"
    ∷ "-1,-1,-1,-1,-1,-1,-1,-1,-1,-1,-1,-1,-1,-1,-1,-1,-1,"
    ∷ "-1,-1,-1,-1,-1,-1,-1,-1,-1,-1,-1,-1,-1,-1,-1,-1,-1,"
    ∷ "-1,-1,-1,-1,-1,-1,-1,-1,-1,-1,-1,-1,-1,131902,131904,"
    ∷ "-1,-1,-1,-1,-1,-1,-1,-1,-1,-1,-1,-1,-1,-1,-1,131906,"
    ∷ "131908,-1,131910,-1,-1,-1,-1,-1,-1,-1,-1,-1,-1,-1,-1,"
    ∷ "-1,-1,-1,-1,-1,-1,-1,-1,-1,-1,-1,-1,-1,-1,-1,-1,-1,"
    ∷ "-1,-1,-1,-1,-1,-1,-1,-1,-1,-1,-1,-1,-1,-1,-1,-1,-1,"
    ∷ "-1,-1,-1,-1,-1,-1,-1,-1,-1,-1,-1,-1,-1,-1,-1,-1,-1,"
    ∷ "-1,-1,-1,-1,-1,-1,-1,-1,-1,-1,-1,-1,-1,-1,-1,-1,-1,"
    ∷ "-1,-1,-1,131912,-1,-1,131914,-1,-1,-1,-1,-1,-1,-1,-1,"
    ∷ "-1,-1,-1,-1,-1,-1,-1,-1,-1,-1,-1,-1,-1,-1,-1,-1,-1,"
    ∷ "-1,-1,-1,-1,-1,-1,-1,-1,-1,131916,131918,131920,-1,-1,"
    ∷ "131922,-1,-1,-1,-1,-1,-1,-1,-1,-1,-1,-1,-1,-1,-1,-1,"
    ∷ "-1,-1,-1,-1,-1,-1,-1,-1,-1,-1,-1,-1,-1,-1,-1,-1,-1,"
    ∷ "-1,-1,-1,-1,-1,-1,-1,-1,-1,-1,-1,-1,-1,-1,-1,-1,-1,"
    ∷ "-1,-1,-1,-1,-1,-1,-1,-1,-1,-1,-1,-1,-1,-1,-1,-1,-1,"
    ∷ "-1,-1,-1,-1,-1,-1,-1,-1,-1,-1,-1,-1,-1,-1,-1,-1,-1,"
    ∷ "-1,-1,-1,-1,-1,-1,-1,-1,-1,-1,-1,-1,-1,-1,-1,-1,-1,"
    ∷ "-1,-1,-1,-1,-1,-1,-1,-1,-1,-1,-1,-1,-1,-1,-1,-1,-1,"
    ∷ "-1,-1,-1,-1,-1,-1,-1,-1,-1,-1,-1,-1,-1,-1,-1,-1,-1,"
    ∷ "-1,-1,-1,-1,-1,-1,-1,-1,-1,-1,-1,-1,-1,-1,-1,-1,-1,"
    ∷ "-1,-1,-1,-1,-1,-1,-1,-1,-1,-1,-1,-1,-1,-1,-1,-1,-1,"
    ∷ "-1,-1,-1,-1,-1,-1,-1,-1,-1,-1,-1,-1,-1,-1,-1,-1,-1,"
    ∷ "-1,-1,-1,-1,-1,-1,-1,-1,-1,-1,-1,-1,-1,-1,-1,-1,-1,"
    ∷ "-1,-1,-1,-1,-1,-1,-1,-1,-1,-1,-1,-1,-1,-1,-1,-1,-1,"
    ∷ "-1,-1,-1,-1,-1,-1,-1,-1,-1,-1,-1,-1,-1,-1,131924,-1,"
    ∷ "-1,131926,131928,-1,-1,-1,-1,-1,-1,-1,-1,-1,-1,-1,-1,"
    ∷ "-1,-1,-1,131930,131932,-1,-1,-1,-1,-1,-1,-1,-1,-1,-1,"
    ∷ "-1,-1,-1,-1,-1,-1,-1,-1,-1,-1,-1,-1,-1,-1,-1,-1,-1,"
    ∷ "-1,-1,-1,-1,-1,-1,-1,-1,-1,-1,-1,-1,-1,-1,-1,-1,-1,"
    ∷ "-1,-1,-1,-1,-1,-1,-1,-1,-1,-1,131934,-1,-1,-1,-1,-1,"
    ∷ "-1,-1,-1,-1,-1,-1,-1,-1,-1,-1,-1,-1,-1,-1,-1,-1,-1,"
    ∷ "-1,-1,-1,-1,-1,-1,-1,-1,-1,-1,-1,-1,-1,-1,-1,-1,-1,"
    ∷ "-1,-1,-1,-1,-1,-1,-1,-1,-1,-1,-1,-1,-1,-1,131936,131938,"
    ∷ "131940,-1,-1,-1,-1,-1,-1,-1,-1,-1,-1,-1,-1,-1,-1,-1,"
    ∷ "-1,-1,-1,-1,-1,-1,-1,-1,-1,-1,-1,-1,-1,-1,-1,-1,-1,"
    ∷ "-1,-1,-1,-1,-1,-1,-1,-1,-1,-1,-1,-1,-1,-1,-1,-1,-1,"
    ∷ "-1,-1,-1,-1,-1,-1,-1,-1,-1,-1,-1,-1,-1,-1,-1,-1,-1,"
    ∷ "-1,-1,-1,-1,-1,-1,-1,-1,-1,-1,-1,-1,-1,-1,-1,-1,-1,"
    ∷ "-1,-1,-1,-1,-1,-1,-1,-1,-1,-1,-1,-1,-1,-1,-1,-1,-1,"
    ∷ "-1,-1,-1,-1,-1,-1,-1,-1,-1,-1,-1,-1,-1,-1,-1,-1,-1,"
    ∷ "-1,-1,-1,-1,-1,-1,131942,-1,-1,-1,-1,-1,-1,-1,-1,-1,"
    ∷ "-1,-1,-1,-1,-1,-1,-1,-1,-1,-1,-1,-1,-1,-1,-1,-1,-1,"
    ∷ "-1,-1,-1,-1,-1,-1,-1,-1,-1,-1,-1,-1,-1,-1,-1,-1,-1,"
    ∷ "-1,-1,-1,-1,-1,-1,-1,-1,-1,-1,-1,-1,-1,-1,-1,-1,-1,"
    ∷ "-1,-1,-1,-1,-1,-1,-1,-1,-1,-1,-1,-1,-1,-1,-1,-1,-1,"
    ∷ "-1,-1,-1,-1,-1,-1,-1,-1,-1,-1,-1,-1,-1,-1,-1,-1,-1,"
    ∷ "-1,-1,-1,-1,-1,-1,-1,-1,-1,-1,-1,-1,-1,-1,-1,-1,-1,"
    ∷ "-1,-1,-1,-1,-1,-1,-1,-1,131944,-1,-1,-1,-1,-1,-1,131946,"
    ∷ "131948,-1,131950,197488,-1,-1,-1,-1,-1,-1,-1,-1,-1,-1,"
    ∷ "-1,-1,-1,-1,-1,-1,-1,-1,-1,-1,-1,-1,-1,-1,-1,-1,-1,"
    ∷ "-1,-1,-1,-1,-1,-1,-1,-1,-1,-1,-1,-1,-1,-1,-1,-1,-1,"
    ∷ "-1,-1,-1,-1,-1,-1,-1,-1,-1,-1,-1,-1,-1,-1,-1,-1,-1,"
    ∷ "-1,-1,-1,-1,-1,-1,-1,-1,-1,-1,-1,-1,-1,-1,-1,-1,-1,"
    ∷ "-1,-1,-1,-1,-1,-1,-1,-1,-1,-1,-1,-1,-1,-1,-1,-1,-1,"
    ∷ "-1,-1,-1,-1,-1,-1,-1,-1,-1,-1,-1,-1,-1,-1,-1,-1,-1,"
    ∷ "-1,-1,-1,-1,-1,-1,-1,-1,-1,-1,-1,-1,-1,-1,131955,131957,"
    ∷ "131959,-1,-1,-1,-1,-1,-1,-1,-1,-1,-1,-1,-1,-1,-1,-1,"
    ∷ "-1,-1,-1,-1,-1,-1,-1,-1,-1,-1,-1,-1,-1,-1,-1,-1,-1,"
    ∷ "-1,-1,-1,-1,-1,-1,-1,-1,-1,-1,-1,-1,-1,-1,-1,-1,-1,"
    ∷ "-1,-1,-1,-1,-1,-1,-1,-1,-1,-1,-1,-1,-1,-1,-1,-1,-1,"
    ∷ "-1,-1,-1,-1,-1,-1,-1,-1,-1,-1,-1,-1,-1,-1,-1,-1,-1,"
    ∷ "-1,-1,-1,-1,-1,-1,-1,-1,-1,-1,-1,-1,-1,-1,-1,-1,-1,"
    ∷ "-1,-1,-1,-1,-1,-1,-1,-1,-1,-1,-1,-1,-1,-1,-1,-1,-1,"
    ∷ "-1,-1,-1,-1,-1,-1,-1,-1,-1,-1,-1,-1,-1,-1,-1,-1,-1,"
    ∷ "-1,-1,-1,-1,-1,-1,-1,131961,-1,131963,197501,131968,-1,"
    ∷ "-1,-1,-1,-1,-1,-1,-1,-1,-1,-1,-1,-1,-1,-1,-1,-1,-1,"
    ∷ "-1,-1,-1,-1,-1,-1,-1,-1,-1,-1,-1,-1,-1,-1,-1,-1,-1,"
    ∷ "-1,-1,-1,-1,-1,-1,-1,-1,-1,-1,-1,-1,-1,-1,-1,-1,-1,"
    ∷ "-1,-1,-1,-1,-1,-1,-1,-1,-1,-1,-1,-1,-1,-1,-1,-1,-1,"
    ∷ "-1,-1,-1,-1,-1,-1,-1,-1,-1,-1,-1,-1,-1,-1,-1,131970,"
    ∷ "-1,-1,-1,-1,-1,-1,-1,-1,-1,-1,-1,-1,-1,-1,-1,-1,-1,"
    ∷ "-1,-1,-1,-1,-1,-1,-1,-1,-1,-1,-1,-1,-1,-1,-1,-1,-1,"
    ∷ "-1,-1,-1,-1,-1,-1,-1,-1,-1,-1,-1,-1,-1,-1,-1,-1,-1,"
    ∷ "-1,-1,-1,-1,-1,-1,-1,-1,-1,-1,-1,-1,-1,-1,-1,-1,-1,"
    ∷ "-1,-1,-1,-1,-1,-1,-1,-1,-1,-1,-1,-1,-1,-1,-1,-1,-1,"
    ∷ "-1,-1,-1,-1,-1,-1,-1,-1,-1,-1,-1,-1,-1,-1,-1,-1,-1,"
    ∷ "-1,-1,-1,-1,-1,-1,-1,-1,-1,-1,-1,-1,-1,-1,-1,-1,-1,"
    ∷ "-1,-1,-1,-1,-1,-1,-1,-1,131972,-1,-1,-1,-1,-1,-1,-1,"
    ∷ "-1,-1,-1,-1,-1,-1,-1,-1,-1,-1,-1,-1,-1,-1,-1,-1,-1,"
    ∷ "-1,-1,-1,-1,-1,-1,-1,-1,-1,-1,-1,-1,-1,-1,-1,-1,131974,"
    ∷ "131976,-1,-1,-1,-1,-1,-1,-1,-1,-1,-1,-1,-1,-1,-1,-1,"
    ∷ "-1,-1,-1,-1,-1,-1,-1,-1,-1,-1,-1,-1,-1,-1,-1,-1,-1,"
    ∷ "-1,-1,-1,-1,-1,-1,-1,-1,-1,-1,-1,-1,-1,-1,66442,-1,"
    ∷ "-1,-1,-1,-1,-1,-1,-1,-1,-1,-1,-1,-1,-1,-1,-1,-1,-1,"
    ∷ "-1,-1,-1,-1,-1,-1,-1,-1,-1,-1,-1,-1,-1,-1,-1,-1,-1,"
    ∷ "-1,-1,-1,-1,-1,-1,-1,-1,-1,-1,-1,-1,-1,-1,-1,-1,-1,"
    ∷ "-1,-1,131979,-1,-1,-1,-1,-1,-1,-1,-1,-1,131981,-1,-1,"
    ∷ "-1,-1,131983,-1,-1,-1,-1,131985,-1,-1,-1,-1,131987,-1,"
    ∷ "-1,-1,-1,-1,-1,-1,-1,-1,-1,-1,-1,131989,-1,-1,-1,-1,"
    ∷ "-1,-1,-1,-1,-1,131991,-1,131993,131995,197533,132000,197538,"
    ∷ "-1,-1,-1,-1,-1,-1,-1,132005,-1,-1,-1,-1,-1,-1,-1,-1,"
    ∷ "-1,-1,-1,-1,-1,-1,-1,-1,-1,132007,-1,-1,-1,-1,-1,-1,"
    ∷ "-1,-1,-1,132009,-1,-1,-1,-1,132011,-1,-1,-1,-1,132013,"
    ∷ "-1,-1,-1,-1,132015,-1,-1,-1,-1,-1,-1,-1,-1,-1,-1,-1,"
    ∷ "-1,132017,-1,-1,-1,-1,-1,-1,-1,-1,-1,-1,-1,-1,-1,-1,"
    ∷ "-1,-1,-1,-1,-1,-1,-1,-1,-1,-1,-1,-1,-1,-1,-1,-1,-1,"
    ∷ "-1,-1,-1,-1,-1,-1,-1,-1,-1,-1,-1,-1,-1,-1,-1,-1,-1,"
    ∷ "-1,-1,-1,-1,-1,-1,-1,-1,-1,-1,-1,-1,-1,-1,-1,-1,-1,"
    ∷ "-1,-1,-1,-1,-1,-1,-1,-1,-1,-1,-1,-1,-1,-1,-1,-1,-1,"
    ∷ "-1,-1,-1,-1,-1,-1,-1,-1,-1,-1,-1,-1,-1,-1,-1,-1,-1,"
    ∷ "-1,-1,-1,-1,-1,-1,-1,-1,-1,132019,-1,-1,-1,-1,-1,-1,"
    ∷ "-1,-1,-1,-1,-1,-1,-1,-1,-1,-1,-1,-1,-1,-1,-1,-1,-1,"
    ∷ "-1,-1,-1,-1,-1,-1,-1,-1,-1,-1,-1,-1,-1,-1,-1,-1,-1,"
    ∷ "-1,-1,-1,-1,-1,-1,-1,-1,-1,-1,-1,-1,-1,-1,-1,-1,-1,"
    ∷ "-1,-1,-1,-1,-1,-1,-1,-1,-1,-1,-1,-1,-1,-1,-1,-1,-1,"
    ∷ "-1,-1,-1,-1,-1,-1,-1,-1,-1,-1,-1,-1,-1,-1,-1,-1,-1,"
    ∷ "-1,-1,-1,-1,-1,-1,-1,-1,-1,-1,-1,-1,-1,-1,-1,-1,-1,"
    ∷ "-1,-1,-1,-1,-1,-1,-1,-1,-1,-1,-1,-1,-1,-1,-1,-1,-1,"
    ∷ "-1,-1,-1,-1,-1,-1,-1,-1,-1,-1,-1,-1,-1,-1,-1,-1,-1,"
    ∷ "-1,-1,-1,-1,-1,-1,-1,-1,-1,-1,-1,-1,-1,-1,-1,-1,-1,"
    ∷ "-1,-1,-1,-1,-1,-1,-1,-1,-1,-1,-1,-1,-1,-1,-1,-1,-1,"
    ∷ "-1,-1,-1,-1,-1,-1,-1,-1,-1,-1,-1,-1,-1,-1,-1,-1,-1,"
    ∷ "-1,-1,-1,-1,-1,-1,-1,-1,-1,-1,-1,-1,-1,-1,-1,-1,-1,"
    ∷ "-1,-1,-1,-1,-1,-1,-1,132021,132023,132025,132027,132029,"
    ∷ "132031,132033,132035,197573,197576,132043,132045,132047,132049,"
    ∷ "132051,132053,132055,132057,132059,132061,197599,197602,197605,"
    ∷ "197608,132075,132077,132079,132081,197619,197622,132089,132091,"
    ∷ "132093,132095,132097,132099,132101,132103,132105,132107,132109,"
    ∷ "132111,132113,132115,132117,132119,197657,197660,132127,132129,"
    ∷ "132131,132133,132135,132137,132139,132141,197679,197682,132149,"
    ∷ "132151,132153,132155,132157,132159,132161,132163,132165,132167,"
    ∷ "132169,132171,132173,132175,132177,132179,132181,132183,197721,"
    ∷ "197724,197727,197730,197733,197736,197739,197742,132209,132211,"
    ∷ "132213,132215,132217,132219,132221,132223,197761,197764,132231,"
    ∷ "132233,132235,132237,132239,132241,197779,197782,197785,197788,"
    ∷ "197791,197794,132261,132263,132265,132267,132269,132271,132273,"
    ∷ "132275,132277,132279,132281,132283,132285,132287,197825,197828,"
    ∷ "197831,197834,132301,132303,132305,132307,132309,132311,132313,"
    ∷ "132315,132317,132319,132321,132323,132325,132327,132329,132331,"
    ∷ "132333,132335,132337,132339,132341,132343,132345,132347,132349,"
    ∷ "132351,132353,132355,132357,132359,132361,132237,-1,-1,-1,"
    ∷ "-1,132363,132365,132367,132369,197907,197910,197913,197916,"
    ∷ "197919,197922,197925,197928,197931,197934,197937,197940,197943,"
    ∷ "197946,197949,197952,197955,197958,197961,197964,132431,132433,"
    ∷ "132435,132437,132439,132441,197979,197982,197985,197988,197991,"
    ∷ "197994,197997,198000,198003,198006,132473,132475,132477,132479,"
    ∷ "132481,132483,132485,132487,198025,198028,198031,198034,198037,"
    ∷ "198040,198043,198046,198049,198052,198055,198058,198061,198064,"
    ∷ "198067,198070,198073,198076,198079,198082,132549,132551,132553,"
    ∷ "132555,198093,198096,198099,198102,198105,198108,198111,198114,"
    ∷ "198117,198120,132587,132589,132591,132593,132595,132597,132599,"
    ∷ "132601,-1,-1,-1,-1,-1,-1,132603,132605,198143,198146,198149,"
    ∷ "198152,198155,198158,132625,132627,198165,198168,198171,198174,"
    ∷ "198177,198180,132647,132649,198187,198190,198193,198196,-1,"
    ∷ "-1,132663,132665,198203,198206,198209,198212,-1,-1,132679,"
    ∷ "132681,198219,198222,198225,198228,198231,198234,132701,132703,"
    ∷ "198241,198244,198247,198250,198253,198256,132723,132725,198263," ∷ []
