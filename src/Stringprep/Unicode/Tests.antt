-- ===== src/Stringprep/Unicode/Tests.antt =====
-- Runs of the driver on the arrays of the headers.
use hz_platform.Prelude.{ℕ, ◌≡◌, refl, List, [], ◌∷◌, ◌++◌, pos}
use hz_platform.Run.{Returns}
use hz_platform.Text.{codes}
use hz_platform.Stringprep.Control.Refines.{
  stringprep, decoded, spec_answer, no_prohibited, bidi_allowed, exists_bit, last_bit,
}
use hz_platform.Stringprep.Control.{
  map_char, tolower, prohibit, has_any, add_decomp, add_decomps, decomp_from, control, nodeprep,
}
use hz_platform.Stringprep.Utf8.{decode, next_char, two_bytes, encode, encode_char}
use hz_platform.Stringprep.Order.{canonical_ordering, order_loop, sink}
use hz_platform.Stringprep.Compose.{compose_all, compose_loop, compose, compose_by_table}
use hz_platform.Stringprep.Tables.{
  has_bit, get_delta, add_delta, get_uni_char_info, get_uni_char_cclass, get_uni_char_decomp_info,
  get_uni_char_comp_info, get_mc,
}
use hz_platform.Stringprep.Unicode.{
  unicode, element, page_map_cells, group_map_cells, groups_cells, multi_case_table_cells,
  cclass_page_map_cells, cclass_group_map_cells, decomp_page_map_cells, decomp_group_map_cells,
  decomp_list_cells, comp_page_map_cells, comp_group_map_cells, comp_first_list_cells,
  comp_second_list_cells, comp_both_list_cells, Beyond,
}
use hz_platform.Stringprep.Unicode.Safe.{Answers, control-Answers, control-unicode}

abbrev zeros : Beyond
zeros = record { number = λ i. 0; integer = λ i. pos 0; pair = λ i. (0, 0); row = λ d. [] }

abbrev ones : Beyond
ones = record { number = λ i. 1; integer = λ i. pos 1; pair = λ i. (1, 1); row = λ d. 1 ∷ [] }

-- "StraEß" and an A with the combining ring U+030A.
abbrev street : List ℕ
street = codes "StraE" ++ 0xC3 ∷ 0x9F ∷ 0x41 ∷ 0xCC ∷ 0x8A ∷ []

control-unicode_example :
    control (unicode zeros) nodeprep street ≡ control (unicode ones) nodeprep street
control-unicode_example = control-unicode zeros ones nodeprep street

control-Answers_example : Returns (control (unicode zeros) nodeprep street) Answers
control-Answers_example = control-Answers zeros nodeprep street (λ e. cc)

-- nodeprep, with all that it calls.
run_nodeprep : List ℕ → List ℕ
unfolding stringprep decoded spec_answer no_prohibited bidi_allowed exists_bit last_bit map_char
    tolower prohibit has_any add_decomp add_decomps decomp_from decode next_char two_bytes encode
    encode_char canonical_ordering order_loop sink compose_all compose_loop compose compose_by_table
    has_bit get_delta add_delta get_uni_char_info get_uni_char_cclass get_uni_char_decomp_info
    get_uni_char_comp_info get_mc unicode element page_map_cells group_map_cells groups_cells
    multi_case_table_cells cclass_page_map_cells cclass_group_map_cells decomp_page_map_cells
    decomp_group_map_cells decomp_list_cells comp_page_map_cells comp_group_map_cells
    comp_first_list_cells comp_second_list_cells comp_both_list_cells
run_nodeprep buf = stringprep (unicode zeros) nodeprep buf

-- The case is folded, the sharp s is two, and the ring is composed with its letter.
street_prepared : run_nodeprep street ≡ 1 ∷ codes "straess" ++ 0xC3 ∷ 0xA5 ∷ []
unfolding run_nodeprep
street_prepared = refl

-- An @ is not allowed in the name of a node.
at_refused : run_nodeprep (codes "a@b") ≡ 0 ∷ []
unfolding run_nodeprep
at_refused = refl
