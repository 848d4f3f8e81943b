-- ===== src/Stringprep/Unicode/Infos.antt =====
-- The rows of groups, in stringprep_uni_data.h (lines 1021 to 1055).
use Prim.Native.String.{String}
use hz_platform.Prelude.{List, [], ◌∷◌}

unfoldable pub groups : List String
groups =
    "4,2,0,64,65568,32,1,8,1587232,160,2080,2208,4256,"
    ∷ "-247776,-548832,430112,421920,419872,161824,413728,415776,"
    ∷ "423968,432160,428064,436256,438304,446496,444448,448544,"
    ∷ "4128,6304,-198624,-114656,-266208,237568,8352,77856,75808,"
    ∷ "131104,129056,10400,12448,-61408,-51168,-26592,-12256,"
    ∷ "-18400,-30688,-45024,-110560,-98272,-96224,-122848,-131040,"
    ∷ "163872,98336,14496,16,17,16544,18592,20640,22688,24736,"
    ∷ "-118752,-16352,26784,28832,30880,32928,34976,37024,39072,"
    ∷ "41120,43168,45216,47264,49312,51360,53408,55456,57504,"
    ∷ "59552,61600,63648,65696,67744,69792,71840,73888,75936,"
    ∷ "77984,80032,82080,84128,86176,88224,90272,92320,94368,"
    ∷ "96416,98464,100512,102560,104608,106656,108704,110752,"
    ∷ "112800,114848,116896,118944,120992,123040,125088,127136,"
    ∷ "129184,131232,133280,135328,137376,139424,141472,-151520,"
    ∷ "143520,-14690272,145568,147616,149664,151712,153760,-176096,"
    ∷ "155808,157856,159904,161952,164000,-204768,166048,168096,"
    ∷ "170144,172192,174240,-229344,-14304,176288,178336,180384,"
    ∷ "182432,184480,-262112,-258016,186528,9,33,188544,-17102816,"
    ∷ "190592,-16080864,192640,-17111008,-17113056,-17115104,-17119200,"
    ∷ "-17121248,-17117152,194688,-17123296,-17125344,-17127392,"
    ∷ "196736,198784,200832,-15394784,-17133536,-17168352,-16920544,"
    ∷ "-17190880,-17192928,-17182688,-15488992,-15464416,-17237984,"
    ∷ "32800,53280,202912,204960,207008,209056,211104,213152,"
    ∷ "215200,217248,219296,221344,223392,225440,227488,229536,"
    ∷ "231584,233632,235680,237728,239776,241824,243872,245920,"
    ∷ "247968,250016,252064,254112,256160,258208,260256,262304,"
    ∷ "264352,266400,268448,270496,272544,274592,276640,278688,"
    ∷ "280736,282784,284832,286880,288928,290976,293024,295072,"
    ∷ "297120,299168,301216,303264,305312,307360,309408,311456,"
    ∷ "313504,315552,317600,319648,321696,323744,325792,81952,"
    ∷ "-245168096,-245274592,-245381088,-245487584,-245594080,-245700576,"
    ∷ "-245807072,-245913568,-246020064,-246126560,-246233056,-246339552,"
    ∷ "-246446048,-244824032,-244844512,-244875232,-244942816,-244963296,"
    ∷ "-244994016,-245061600,-245082080,-245112800,-245180384,-245200864,"
    ∷ "-245231584,-245299168,-245319648,-245350368" ∷ []
