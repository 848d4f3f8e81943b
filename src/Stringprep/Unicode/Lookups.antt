-- ===== src/Stringprep/Unicode/Lookups.antt =====
-- The look-ups of a character of Unicode stay inside the arrays.
use hz_platform.Prelude.{
  ℕ, ◌+◌, ◌*◌, ◌/◌, ◌%◌, ◌^◌, ◌<◌, ◌≡◌, ap, true, List, length, ltb, ltb→lt, arith,
}
use hz_platform.Stringprep.Utf8.RoundTrip.{IsUnicode}
use hz_platform.Stringprep.Tables.{
  cell, get_uni_char_info, get_uni_char_cclass, get_uni_char_decomp_info, get_uni_char_comp_info,
}
use hz_platform.Stringprep.Unicode.{
  Beyond, element, unicode, page_map_cells, group_map_cells, groups_cells, cclass_page_map_cells,
  cclass_group_map_cells, decomp_page_map_cells, decomp_group_map_cells, comp_page_map_cells,
  comp_group_map_cells,
}
use hz_platform.Stringprep.Unicode.Cells.{each, element-inside, each-element}
use hz_platform.Stringprep.Unicode.Checks.{
  length-page_map, length-group_map, length-groups, length-cclass_page_map, length-cclass_group_map,
  length-decomp_page_map, length-decomp_group_map, length-comp_page_map, length-comp_group_map,
  page_map_below, cclass_page_map_below, decomp_page_map_below, comp_page_map_below,
  group_map_below, decomp_group_map_inside, comp_group_map_inside, decomposes, composes,
}

-- Two numbers are the same one, below a bound.
abbrev pub SameBelow : ℕ → ℕ → ℕ → Type 0
SameBelow n a b = (a ≡ b) × (a < n)

pub element-SameBelow :
    (n : ℕ) (xs : List ℕ) (out out' : ℕ → ℕ) (i : ℕ)
    → each (λ _ p. ltb p n) 0 xs ≡ true
    → i < length xs
    → SameBelow n (element xs out i) (element xs out' i)
element-SameBelow n xs out out' i below h = (
  element-inside xs out out' i h,
  ltb→lt (element xs out i) n (each-element (λ _ p. ltb p n) 0 xs out i below h),
)

-- A page map of 4352 entries covers Unicode.
cell-SameBelow :
    (n : ℕ) (pages : List ℕ) (out out' : ℕ → ℕ) (c : ℕ)
    → length pages ≡ 4352
    → each (λ _ p. ltb p n) 0 pages ≡ true
    → IsUnicode c
    → SameBelow (n * 256) (cell (element pages out) c) (cell (element pages out') c)
cell-SameBelow n pages out out' c size below h =
    let (e, small) = element-SameBelow n pages out out' (c % 2 ^ 21 / 2 ^ 8) below (omega arith) in
    (ap (λ p. p * 2 ^ 8 + c % 2 ^ 8) e, omega arith)

module _ (out out' : Beyond) (c : ℕ) (h : IsUnicode c) where
  pub group-SameBelow :
      SameBelow 275
        (element group_map_cells out.number (cell (element page_map_cells out.number) c))
        (element group_map_cells out'.number (cell (element page_map_cells out'.number) c))
  group-SameBelow =
      let (e, small) =
        cell-SameBelow 62 page_map_cells out.number out'.number c length-page_map page_map_below
          h in
      rw (← e) (
        element-SameBelow 275 group_map_cells out.number out'.number _ group_map_below
          (omega (arith, length-group_map)))

  pub info_same : get_uni_char_info (unicode out) c ≡ get_uni_char_info (unicode out') c
  unfolding get_uni_char_info unicode
  info_same =
      let (e, small) = group-SameBelow in
      rw (← e)
        (element-inside groups_cells out.integer out'.integer _ (omega (arith, length-groups)))

  pub cclass_same : get_uni_char_cclass (unicode out) c ≡ get_uni_char_cclass (unicode out') c
  unfolding get_uni_char_cclass unicode
  cclass_same =
      let (e, small) =
        cell-SameBelow 21 cclass_page_map_cells out.number out'.number c length-cclass_page_map
          cclass_page_map_below h in
      rw (← e) (
        element-inside cclass_group_map_cells out.number out'.number _
          (omega (arith, length-cclass_group_map)))

  pub decomp_info_same :
      (get_uni_char_decomp_info (unicode out) c ≡ get_uni_char_decomp_info (unicode out') c)
      × (decomposes (get_uni_char_decomp_info (unicode out) c) ≡ true)
  unfolding get_uni_char_decomp_info unicode
  decomp_info_same =
      let (e, small) =
        cell-SameBelow 45 decomp_page_map_cells out.number out'.number c length-decomp_page_map
          decomp_page_map_below h in
      let inside : cell (element decomp_page_map_cells out.number) c
          < length decomp_group_map_cells =
        omega (arith, length-decomp_group_map) in
      (
        rw (← e) (element-inside decomp_group_map_cells out.integer out'.integer _ inside),
        each-element (λ _ info. decomposes info) 0 decomp_group_map_cells out.integer _
            decomp_group_map_inside inside,
      )

  pub comp_info_same :
      (get_uni_char_comp_info (unicode out) c ≡ get_uni_char_comp_info (unicode out') c)
      × (composes (get_uni_char_comp_info (unicode out) c) ≡ true)
  unfolding get_uni_char_comp_info unicode
  comp_info_same =
      let (e, small) =
        cell-SameBelow 17 comp_page_map_cells out.number out'.number c length-comp_page_map
          comp_page_map_below h in
      let inside : cell (element comp_page_map_cells out.number) c < length comp_group_map_cells =
        omega (arith, length-comp_group_map) in
      (
        rw (← e) (element-inside comp_group_map_cells out.integer out'.integer _ inside),
        each-element (λ _ info. composes info) 0 comp_group_map_cells out.integer _
            comp_group_map_inside inside,
      )
