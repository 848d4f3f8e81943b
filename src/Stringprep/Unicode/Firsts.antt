-- ===== src/Stringprep/Unicode/Firsts.antt =====
-- The rows of compFirstList, in stringprep_uni_norm.h (lines 2598 to 2641).
use Prim.Native.String.{String}
use hz_platform.Prelude.{List, [], ◌∷◌}

unfoldable pub comp_first_list : List String
comp_first_list =
    "{824,8817},{837,8119},{3530,3549},{837,8116},{770,7896},"
    ∷ "{837,8090},{776,1243},{837,8076},{837,8114},{783,1143},"
    ∷ "{780,494},{824,8772},{824,8742},{769,7727},{769,7688},"
    ∷ "{824,8777},{837,8178},{770,7879},{772,481},{824,8938},"
    ∷ "{769,1116},{772,7737},{824,8824},{776,1259},{837,8099},"
    ∷ "{772,7773},{824,8833},{837,8083},{824,8814},{837,8069},"
    ∷ "{776,1268},{776,7802},{837,8074},{837,8110},{837,8183},"
    ∷ "{824,8840},{837,8094},{775,7711},{837,8130},{769,506},"
    ∷ "{769,7726},{3031,2964},{3158,3144},{824,8931},{824,8930},"
    ∷ "{769,1036},{776,1247},{824,8821},{3006,3019},{12441,12489},"
    ∷ "{788,8172},{769,511},{824,8941},{12441,12487},{772,561},"
    ∷ "{837,8066},{837,8102},{772,492},{12441,12485},{776,1261},"
    ∷ "{824,8802},{769,7800},{837,8086},{837,8108},{769,507},"
    ∷ "{775,7785},{824,8876},{12441,12482},{770,308},{770,7897},"
    ∷ "{837,8091},{837,8092},{12441,12480},{837,8077},{837,8078},"
    ∷ "{1620,1728},{1620,1747},{824,8877},{824,8622},{12441,12393},"
    ∷ "{4142,4134},{12441,12478},{1620,1730},{824,8713},"
    ∷ "{12441,12391},{12441,12476},{776,1246},{12441,12389},"
    ∷ "{775,7780},{774,7708},{772,555},{12441,12474},{769,510},"
    ∷ "{824,8939},{3285,3275},{824,8825},{775,7782},{12441,12386},"
    ∷ "{12441,12472},{837,8100},{12441,12470},{824,8928},"
    ∷ "{12441,12384},{837,8084},{824,8800},{837,8070},{837,8106},"
    ∷ "{12441,12468},{824,8655},{12441,12382},{824,8836},"
    ∷ "{824,8816},{824,8769},{776,7803},{12441,12380},{776,1242},"
    ∷ "{837,8075},{837,8111},{12441,12466},{2364,2356},{2364,2353},"
    ∷ "{1620,1574},{776,1111},{776,1273},{824,8603},{783,1142},"
    ∷ "{824,8841},{776,1260},{837,8180},{12441,12378},{12441,12464},"
    ∷ "{837,8095},{824,8740},{824,8879},{769,1107},{12441,12376},"
    ∷ "{12441,12462},{770,7878},{12441,12460},{772,480},"
    ∷ "{824,8716},{12441,12374},{772,554},{772,7736},{837,8135},"
    ∷ "{824,8813},{776,1258},{837,8098},{12441,12372},{772,7772},"
    ∷ "{12441,12370},{776,1255},{824,8832},{12441,12542},"
    ∷ "{837,8082},{12441,12532},{837,8067},{837,8068},{837,8103},"
    ∷ "{3390,3403},{772,493},{12441,12368},{824,8653},{769,7801},"
    ∷ "{837,8087},{775,7710},{837,8109},{12441,12366},{769,7689},"
    ∷ "{824,8602},{776,1272},{837,8132},{12441,12364},{837,8093},"
    ∷ "{837,8079},{824,8708},{824,8878},{772,478},{769,1027},"
    ∷ "{824,8775},{3285,3264},{12441,12446},{12441,12436},"
    ∷ "{12441,12538},{12441,12537},{824,8820},{775,7781},"
    ∷ "{12441,12536},{774,7709},{824,8940},{12441,12535},"
    ∷ "{776,1254},{775,7835},{780,495},{775,7783},{772,560},"
    ∷ "{837,8101},{1620,1572},{2364,2345},{824,8929},{776,1031},"
    ∷ "{837,8085},{824,8815},{837,8071},{837,8107},{824,8654},"
    ∷ "{772,479},{775,7784},{776,1269},{824,8837}" ∷ []
