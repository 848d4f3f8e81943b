-- ===== src/Stringprep/Unicode/Groups4.antt =====
-- The rows of groupMap, part 4, in stringprep_uni_data.h (lines 843 to 991).
use Prim.Native.String.{String}
use hz_platform.Prelude.{List, [], ◌∷◌}

unfoldable pub group_map_4 : List String
group_map_4 =
    "5,5,5,5,5,5,5,5,5,5,5,5,5,5,5,5,5,5,5,5,5,5,5,"
    ∷ "5,5,5,5,5,5,5,5,5,5,5,5,5,5,5,5,5,5,5,5,5,5,5,"
    ∷ "5,5,5,5,5,5,5,5,5,5,5,5,6,6,6,5,5,5,5,5,5,6,6,"
    ∷ "5,5,5,5,5,5,6,6,5,5,5,5,5,5,6,6,5,5,5,6,6,6,2,"
    ∷ "2,2,2,2,2,2,6,2,2,2,2,2,2,2,6,6,6,6,6,6,6,6,6,"
    ∷ "6,6,6,6,6,6,6,6,5,5,5,5,5,5,5,5,5,5,5,5,5,5,5,"
    ∷ "5,5,5,5,5,5,5,5,5,5,5,5,5,5,5,5,6,5,5,5,5,6,6,"
    ∷ "6,6,6,6,6,6,6,6,6,6,5,5,5,5,5,5,5,5,5,5,5,5,5,"
    ∷ "5,5,5,5,5,5,5,5,5,5,5,5,5,5,6,6,6,6,6,6,6,6,6,"
    ∷ "6,6,6,6,6,6,6,6,6,6,6,6,6,6,6,6,6,6,6,6,6,6,6,"
    ∷ "6,6,6,6,6,6,6,6,6,6,6,6,6,6,6,6,6,6,6,6,6,6,6,"
    ∷ "6,6,6,6,6,6,6,6,6,6,6,6,6,6,6,6,6,6,6,6,6,6,6,"
    ∷ "6,6,6,6,6,6,6,6,6,6,6,6,6,6,6,6,6,6,6,6,6,6,6,"
    ∷ "6,6,6,6,6,6,6,6,6,6,6,6,6,6,6,6,6,6,6,6,6,6,6,"
    ∷ "6,6,6,6,6,6,6,6,6,6,6,6,6,6,6,6,6,6,6,6,6,6,6,"
    ∷ "6,6,6,6,6,6,6,6,6,6,6,6,6,6,6,6,6,6,6,6,6,6,6,"
    ∷ "6,6,6,6,6,6,6,6,6,6,6,246,246,246,246,246,246,246,"
    ∷ "246,246,246,246,246,246,246,246,246,246,246,246,246,246,"
    ∷ "246,246,246,246,246,246,246,246,246,246,246,246,246,246,"
    ∷ "246,246,246,6,6,5,5,5,5,5,5,5,5,5,5,5,5,5,5,5,5,"
    ∷ "5,5,5,5,5,5,5,5,5,5,5,5,5,5,5,5,5,5,5,5,5,5,6,"
    ∷ "6,6,6,6,6,6,6,6,6,6,6,6,6,6,6,6,6,6,6,6,6,6,6,"
    ∷ "6,6,6,6,6,6,6,6,6,6,6,6,6,6,6,6,6,6,6,6,6,6,6,"
    ∷ "6,6,6,6,6,6,6,6,6,6,6,6,6,6,6,6,6,6,6,6,6,6,6,"
    ∷ "6,6,6,6,6,6,6,6,6,6,6,6,6,6,6,6,6,6,6,6,6,6,6,"
    ∷ "6,6,6,6,6,6,6,6,6,6,6,6,6,6,6,6,6,6,6,6,6,6,6,"
    ∷ "6,6,6,6,6,6,6,6,6,6,6,6,6,6,6,6,6,6,6,6,6,6,6,"
    ∷ "6,6,6,6,6,6,6,6,6,6,6,6,6,6,6,6,6,6,6,6,6,6,6,"
    ∷ "6,6,6,6,6,6,6,6,6,6,6,6,6,6,6,6,5,5,5,5,5,5,5,"
    ∷ "5,5,5,5,5,5,5,5,5,5,5,5,5,5,5,5,5,5,5,5,5,5,5,"
    ∷ "5,5,5,5,5,5,5,5,5,5,5,5,5,5,5,5,5,5,5,5,5,5,5,"
    ∷ "5,5,5,5,5,5,5,5,5,5,5,5,5,5,5,5,5,5,5,5,5,5,5,"
    ∷ "5,5,5,5,5,5,5,5,5,5,5,5,5,5,5,5,5,5,5,5,5,5,5,"
    ∷ "5,5,5,5,5,5,5,5,5,5,5,5,5,5,5,5,5,5,5,5,5,5,5,"
    ∷ "5,5,5,5,5,5,5,5,5,5,5,5,5,5,5,5,5,5,5,5,5,5,5,"
    ∷ "5,5,5,5,5,5,5,5,5,5,5,5,5,5,5,5,5,5,5,5,5,5,5,"
    ∷ "5,5,5,5,5,5,5,5,5,5,5,5,5,5,5,5,5,5,5,5,5,5,5,"
    ∷ "5,5,5,5,5,5,5,5,5,5,5,5,5,5,5,5,5,5,5,5,5,5,5,"
    ∷ "5,5,5,5,5,5,5,5,5,5,5,5,5,5,5,5,5,5,5,5,5,5,5,"
    ∷ "5,5,5,5,5,5,5,5,5,6,6,6,6,6,6,6,6,6,6,5,5,5,5,"
    ∷ "5,5,5,5,5,5,5,5,5,5,5,5,5,5,5,5,5,5,5,5,5,5,5,"
    ∷ "5,5,5,5,5,5,5,5,5,5,5,5,6,6,6,5,5,5,5,5,5,5,5,"
    ∷ "5,5,5,5,5,5,5,5,5,5,5,5,5,5,5,5,5,5,5,5,5,5,5,"
    ∷ "5,5,5,5,5,5,5,5,5,5,5,5,5,5,5,5,5,5,5,5,5,5,5,"
    ∷ "5,5,5,5,5,5,5,2,2,2,5,5,5,5,5,5,5,5,5,6,6,6,6,"
    ∷ "6,6,6,6,2,2,2,2,2,2,2,2,5,5,2,2,2,2,2,2,2,5,5,"
    ∷ "5,5,5,5,5,5,5,5,5,5,5,5,5,5,5,5,5,5,5,5,5,5,5,"
    ∷ "5,5,5,5,5,2,2,2,2,5,5,5,5,5,5,5,5,5,5,5,5,5,5,"
    ∷ "5,5,5,5,5,5,5,5,5,5,5,5,5,5,5,5,5,5,5,5,5,5,5,"
    ∷ "5,5,5,5,5,5,5,5,5,5,5,6,6,6,6,6,6,6,6,6,6,6,6,"
    ∷ "6,6,6,6,6,6,6,6,6,6,6,6,6,6,6,6,6,6,6,6,6,6,247,"
    ∷ "247,247,247,247,247,247,247,247,247,247,247,247,247,247,"
    ∷ "247,247,247,247,247,247,247,247,247,247,247,5,5,5,5,"
    ∷ "5,5,5,5,5,5,5,5,5,5,5,5,5,5,5,5,5,5,5,5,5,5,248,"
    ∷ "248,248,248,248,248,248,248,248,248,248,248,248,248,248,"
    ∷ "248,248,248,248,248,248,248,248,248,248,248,5,5,5,5,"
    ∷ "5,5,5,6,5,5,5,5,5,5,5,5,5,5,5,5,5,5,5,5,5,5,249,"
    ∷ "249,249,249,249,249,249,249,249,249,249,249,249,249,249,"
    ∷ "249,249,249,249,249,249,249,249,249,249,249,5,5,5,5,"
    ∷ "5,5,5,5,5,5,5,5,5,5,5,5,5,5,5,5,5,5,5,5,5,5,250,"
    ∷ "6,250,250,6,6,250,6,6,250,250,6,6,250,250,250,250,6,"
    ∷ "250,250,250,250,250,250,250,250,5,5,5,5,6,5,6,5,5,"
    ∷ "5,5,6,5,5,6,5,5,5,5,5,5,5,5,5,5,5,251,251,251,251,"
    ∷ "251,251,251,251,251,251,251,251,251,251,251,251,251,251,"
    ∷ "251,251,251,251,251,251,251,251,5,5,5,5,5,5,5,5,5,"
    ∷ "5,5,5,5,5,5,5,5,5,5,5,5,5,5,5,5,5,252,252,6,252,"
    ∷ "252,252,252,6,6,252,252,252,252,252,252,252,252,6,252,"
    ∷ "252,252,252,252,252,252,6,5,5,5,5,5,5,5,5,5,5,5,5,"
    ∷ "5,5,5,5,5,5,5,5,5,5,5,5,5,5,253,253,6,253,253,253,"
    ∷ "253,6,253,253,253,253,253,6,253,6,6,6,253,253,253,253,"
    ∷ "253,253,253,6,5,5,5,5,5,5,5,5,5,5,5,5,5,5,5,5,5,"
    ∷ "5,5,5,5,5,5,5,5,5,254,254,254,254,254,254,254,254,"
    ∷ "254,254,254,254,254,254,254,254,254,254,254,254,254,254,"
    ∷ "254,254,254,254,5,5,5,5,5,5,5,5,5,5,5,5,5,5,5,5,"
    ∷ "5,5,5,5,5,5,5,5,5,5,255,255,255,255,255,255,255,255,"
    ∷ "255,255,255,255,255,255,255,255,255,255,255,255,255,255,"
    ∷ "255,255,255,255,5,5,5,5,5,5,5,5,5,5,5,5,5,5,5,5,"
    ∷ "5,5,5,5,5,5,5,5,5,5,256,256,256,256,256,256,256,256,"
    ∷ "256,256,256,256,256,256,256,256,256,256,256,256,256,256,"
    ∷ "256,256,256,256,5,5,5,5,5,5,5,5,5,5,5,5,5,5,5,5,"
    ∷ "5,5,5,5,5,5,5,5,5,5,257,257,257,257,257,257,257,257,"
    ∷ "257,257,257,257,257,257,257,257,257,257,257,257,257,257,"
    ∷ "257,257,257,257,5,5,5,5,5,5,5,5,5,5,5,5,5,5,5,5,"
    ∷ "5,5,5,5,5,5,5,5,5,5,258,258,258,258,258,258,258,258,"
    ∷ "258,258,258,258,258,258,258,258,258,258,258,258,258,258,"
    ∷ "258,258,258,258,5,5,5,5,5,5,5,5,5,5,5,5,5,5,5,5,"
    ∷ "5,5,5,5,5,5,5,5,5,5,259,259,259,259,259,259,259,259,"
    ∷ "259,259,259,259,259,259,259,259,259,259,259,259,259,259,"
    ∷ "259,259,259,259,5,5,5,5,5,5,5,5,5,5,5,5,5,5,5,5,"
    ∷ "5,5,5,5,5,5,5,5,5,5,6,6,6,6,260,260,260,260,260,"
    ∷ "260,260,260,260,260,260,260,260,260,260,260,260,261,260,"
    ∷ "260,260,260,260,260,260,5,5,5,5,5,5,5,5,5,5,5,5,5,"
    ∷ "5,5,5,5,5,262,5,5,5,5,5,5,5,5,5,5,5,5,5,5,263,"
    ∷ "263,263,263,263,263,263,263,263,263,263,263,263,263,263,"
    ∷ "263,263,264,263,263,263,263,263,263,263,5,5,5,5,5,5,"
    ∷ "5,5,5,5,5,5,5,5,5,5,5,5,265,5,5,5,5,5,5,5,5,5,"
    ∷ "5,5,5,5,5,266,266,266,266,266,266,266,266,266,266,266,"
    ∷ "266,266,266,266,266,266,267,266,266,266,266,266,266,266,"
    ∷ "5,5,5,5,5,5,5,5,5,5,5,5,5,5,5,5,5,5,268,5,5,5,"
    ∷ "5,5,5,5,5,5,5,5,5,5,5,269,269,269,269,269,269,269,"
    ∷ "269,269,269,269,269,269,269,269,269,269,270,269,269,269,"
    ∷ "269,269,269,269,5,5,5,5,5,5,5,5,5,5,5,5,5,5,5,5,"
    ∷ "5,5,271,5,5,5,5,5,5,5,5,5,5,5,5,5,5,272,272,272,"
    ∷ "272,272,272,272,272,272,272,272,272,272,272,272,272,272,"
    ∷ "273,272,272,272,272,272,272,272,5,5,5,5,5,5,5,5,5,"
    ∷ "5,5,5,5,5,5,5,5,5,274,5,5,5,5,5,5,5,5,5,5,5,5,"
    ∷ "5,5,6,6,6,6,2,2,2,2,2,2,2,2,2,2,2,2,2,2,2,2,2,"
    ∷ "2,2,2,2,2,2,2,2,2,2,2,2,2,2,2,2,2,2,2,2,2,2,2,"
    ∷ "2,2,2,2,2,2,2,2,2,2,5,5,5,5,5,5,5,5,5,5,5,5,5,"
    ∷ "5,5,5,5,5,5,5,5,5,5,5,5,5,5,5,5,5,5,5,5,5,5,5,"
    ∷ "5,5,5,5,5,5,5,5,5,5,5,5,5,5,5,5,5,5,5,5,5,5,5,"
    ∷ "5,5,5,5,5,5,5,5,5,5,5,5,5,5,5,5,5,5,5,5,5,5,5,"
    ∷ "5,5,5,5,5,5,5,5,5,5,5,5,5,5,5,5,5,5,5,5,5,5,5,"
    ∷ "5,5,5,5,5,5,5,5,5,5,5,5,5,5,5,5,5,5,5,5,5,5,5,"
    ∷ "5,5,5,5,5,5,5,5,5,5,5,5,5,5,5,5,5,5,5,5,5,5,5,"
    ∷ "5,5,5,5,5,5,5,5,5,5,5,5,5,5,5,5,5,5,5,5,5,5,5,"
    ∷ "5,5,5,5,5,5,5,5,5,5,5,5,5,5,5,5,5,5,5,5,5,5,5,"
    ∷ "5,5,5,5,5,5,5,5,5,5,5,5,5,5,5,5,5,5,6,6,6,6,6,"
    ∷ "6,6,6,6,6,6,6,6,6,6,6,6,6,6,6,6,6,6,6,6,6,6,6,"
    ∷ "6,6,6,6,6,6,6,6,6,6,6,6,6,5,5,5,5,5,5,5,5,5,5,"
    ∷ "5,5,5,5,5,5,5,5,5,5,5,5,5,5,5,5,5,5,5,5,6,6,6,"
    ∷ "6,6,6,6,6,6,6,6,6,6,6,6,6,6,6,6,6,6,6,6,6,6,6,"
    ∷ "6,6,6,6,6,6,6,6,6,6,6,6,6,6,6,6,6,6,6,6,6,6,6,"
    ∷ "6,6,6,6,6,6,6,6,6,6,6,6,6,6,6,6,6,6,6,6,6,6,6,"
    ∷ "6,6,6,6,6,6,6,6,6,6,6,6,6,6,6,6,6,6,6,6,6,6,6,"
    ∷ "6,6,6,6,6,6,6,6,6,6,6,6,6,6,6,6,6,6,6,6,6,6,6,"
    ∷ "6,6,6,6,6,6,6,6,6,6,6,6,6,6,6,6,6,6,6,6,6,6,6,"
    ∷ "6,6,6,6,6,6,6,6,6,6,6,6,6,6,6,6,6,6,6,6,6,6,6,"
    ∷ "6,6,6,6,6,6,6,6,6,6,6,6,6,6,6,6,6,6,6,6,6,6,6,"
    ∷ "6,6,6,6,6,6,6,6,6,6,6,6,6,6,6,6,6,6,6,6,6,6,6,"
    ∷ "6,6,6,6,6,6,6,6,6,6,6,6,6,6,6,6,154,154,154,154,"
    ∷ "154,154,154,154,154,154,154,154,154,154,154,154,154,154,"
    ∷ "154,154,154,154,154,154,154,154,154,154,154,154,154,154,"
    ∷ "154,154,154,154,154,154,154,154,154,154,154,154,154,154,"
    ∷ "154,154,154,154,154,154,154,154,154,154,154,154,154,154,"
    ∷ "154,154,154,154,154,154,154,154,154,154,154,154,154,154,"
    ∷ "154,154,154,154,154,154,154,154,154,154,154,154,154,154,"
    ∷ "154,154,154,154,154,154,154,154,154,154,154,154,154,154,"
    ∷ "154,154,154,154,154,154,154,154,154,154,154,154,154,154,"
    ∷ "154,154,154,154,154,154,154,154,154,154,154,154,154,154,"
    ∷ "154,154,154,154,154,154,154,154,154,154,154,154,154,154,"
    ∷ "154,154,154,154,154,154,154,154,154,154,154,154,154,154,"
    ∷ "154,154,154,154,154,154,154,154,154,154,154,154,154,154,"
    ∷ "154,154,154,154,154,154,154,154,154,154,154,154,154,154,"
    ∷ "154,154,154,154,154,154,154,154,154,154,154,154,154,154,"
    ∷ "154,154,154,154,154,154,154,154,154,154,154,154,154,154,"
    ∷ "154,154,154,154,154,154,154,154,154,154,154,154,154,154,"
    ∷ "154,154,154,154,154,154,154,154,154,154,154,154,154,154,"
    ∷ "154,154,154,154,154,154,154,154,154,154,154,154,6,6" ∷ []
