-- ===== src/Stringprep/Unicode/Mapped.antt =====
-- Mapping and decomposing a character of Unicode: nothing behind an array is read, and what comes
-- out is within Unicode.
use hz_platform.Prelude.{
  ℕ, zero, suc, ◌+◌, ◌/◌, ◌%◌, ◌^◌, ◌<◌, ◌≤◌, ◌≡◌, refl, sym, ap, if◌then◌else◌, ◌∙◌, Bool, true,
  false, not, ◌||◌, List, [], ◌∷◌, ◌++◌, length, leb→le, ltb→lt, ℤ, pos, negsuc, arith, Bool-cases,
  inl, inr,
}
use mathlib.Core.Path.{subst}
use hz_platform.Stringprep.Utf8.RoundTrip.{IsUnicode, AllUnicode}
use hz_platform.Stringprep.Tables.{
  has_bit, get_delta, add_delta, get_uni_char_info, get_uni_char_decomp_info, get_mc,
}
use hz_platform.Stringprep.Control.{decomp_from, add_decomp, add_decomps, map_char}
use hz_platform.Stringprep.Control.Agree.{AllUnicode-append}
use hz_platform.Stringprep.Unicode.{
  Beyond, element, unicode, decomp_list_cells, multi_case_table_cells, groups_cells, row_at,
}
use hz_platform.Stringprep.Unicode.Cells.{each-element, element-inside}
use hz_platform.Stringprep.Unicode.Checks.{
  within, all_within, decomposes, names_row, decomp_list_within, multi_case_table_within,
  groups_rows, length-decomp_list, length-multi_case_table, length-groups,
}
use hz_platform.Stringprep.Unicode.Lookups.{group-SameBelow, info_same, decomp_info_same}
use hz_platform.Stringprep.Unicode.Deltas.{or_cases, delta-lands}

-- Two sequences are the same one, within Unicode.
abbrev pub SameUnicode : List ℕ → List ℕ → Type 0
SameUnicode xs ys = (xs ≡ ys) × AllUnicode xs

append-SameUnicode :
    (xs xs' ys ys' : List ℕ)
    → SameUnicode xs xs'
    → SameUnicode ys ys'
    → SameUnicode (xs ++ ys) (xs' ++ ys')
append-SameUnicode xs xs' ys ys' (e, h) (e', h') =
    (ap (λ l. l ++ ys) e ∙ ap (λ l. xs' ++ l) e', AllUnicode-append xs ys h h')

all_within-AllUnicode : (cs : List ℕ) → all_within cs ≡ true → AllUnicode cs
all_within-AllUnicode [] h = tt
all_within-AllUnicode (c ∷ cs) h = (ground (arith), all_within-AllUnicode cs (ground (arith)))

module _ (out out' : Beyond) where
  decomp_from-SameUnicode :
      (n i : ℕ)
      → i + n ≤ 6155
      → SameUnicode (decomp_from (unicode out) n i) (decomp_from (unicode out') n i)
  unfolding decomp_from unicode
  decomp_from-SameUnicode zero i h = (refl, tt)
  decomp_from-SameUnicode (suc n) i h =
      let inside : i < length decomp_list_cells = omega (arith, length-decomp_list) in
      let small =
        each-element (λ _ c. within c) 0 decomp_list_cells out.number i decomp_list_within inside in
      let (e, rest) = decomp_from-SameUnicode n (i + 1) (omega arith) in
      (
        rw (element-inside decomp_list_cells out.number out'.number i inside, e) refl,
        (leb→le (element decomp_list_cells out.number i) 0x10FFFF small, rest),
      )

  -- What ADD_DECOMP appends for such an information.
  abbrev appended : Beyond → ℕ → ℤ → List ℕ
  appended o ruc d = elim d [
    | pos info ↦ decomp_from (unicode o) (info / 2 ^ 16) (info % 2 ^ 16)
    | negsuc n ↦ ruc ∷ []
  ]

  decomposed :
      (ruc : ℕ) (d : ℤ)
      → IsUnicode ruc
      → decomposes d ≡ true
      → SameUnicode (appended out ruc d) (appended out' ruc d)
  decomposed ruc (pos info) h inside =
      decomp_from-SameUnicode (info / 2 ^ 16) (info % 2 ^ 16) (leb→le _ 6155 inside)
  decomposed ruc (negsuc n) h inside = (refl, (h, tt))

  add_decomp-SameUnicode :
      (ruc : ℕ)
      → IsUnicode ruc
      → SameUnicode (add_decomp (unicode out) ruc) (add_decomp (unicode out') ruc)
  unfolding add_decomp
  add_decomp-SameUnicode ruc h =
      let (e, inside) = decomp_info_same out out' ruc h in
      let d = get_uni_char_decomp_info (unicode out) ruc in
      subst (λ d'. SameUnicode (appended out ruc d) (appended out' ruc d')) e
        (decomposed ruc d h inside)

  add_decomps-SameUnicode :
      (rucs : List ℕ)
      → AllUnicode rucs
      → SameUnicode (add_decomps (unicode out) rucs) (add_decomps (unicode out') rucs)
  unfolding add_decomps
  add_decomps-SameUnicode [] h = (refl, tt)
  add_decomps-SameUnicode (ruc ∷ rucs) h =
      append-SameUnicode _ _ _ _ (add_decomp-SameUnicode ruc h.0) (add_decomps-SameUnicode rucs h.1)

  row-SameUnicode :
      (d : ℤ) → names_row d ≡ true → SameUnicode (row_at out.row d) (row_at out'.row d)
  row-SameUnicode (pos d) h =
      let inside : d < length multi_case_table_cells =
        omega (arith, length-multi_case_table, ltb→lt d 160 h) in
      (
        element-inside multi_case_table_cells _ _ d inside,
        all_within-AllUnicode _ (
            each-element (λ _ row. all_within row) 0 multi_case_table_cells (λ n. out.row (pos n)) d
              multi_case_table_within inside),
      )
  row-SameUnicode (negsuc d) h = cc

  module _ (uc : ℕ) (h : IsUnicode uc) where
    rows_named :
        (not (has_bit 7 (get_uni_char_info (unicode out) uc))
          || names_row (get_delta (get_uni_char_info (unicode out) uc)))
        ≡ true
    unfolding get_uni_char_info unicode
    rows_named =
        each-element (λ _ info. not (has_bit 7 info) || names_row (get_delta info)) 0 groups_cells
          out.integer _ groups_rows (omega (arith, length-groups, (group-SameBelow out out uc h).1))

    lowered :
        (info : ℤ)
        → info ≡ get_uni_char_info (unicode out) uc
        → has_bit 3 info ≡ false
        → has_bit 7 info ≡ false
        → SameUnicode
            (add_decomp (unicode out) (add_delta uc (get_delta info)))
            (add_decomp (unicode out') (add_delta uc (get_delta info)))
    lowered info e kept single =
        let lands =
          subst (λ i. (has_bit 3 i || has_bit 7 i || within (add_delta uc (get_delta i))) ≡ true)
            (sym e) (delta-lands out uc h) in
        let landed = or_cases (has_bit 3 info || has_bit 7 info) _ lands (rw (kept, single) refl) in
        add_decomp-SameUnicode (add_delta uc (get_delta info)) (leb→le _ 0x10FFFF landed)

    spread_out :
        (info : ℤ)
        → info ≡ get_uni_char_info (unicode out) uc
        → has_bit 7 info ≡ true
        → SameUnicode
            (add_decomps (unicode out) (get_mc (unicode out) info))
            (add_decomps (unicode out') (get_mc (unicode out') info))
    unfolding get_mc unicode
    spread_out info e many =
        let named =
          subst (λ i. (not (has_bit 7 i) || names_row (get_delta i)) ≡ true) (sym e) rows_named in
        let (same, inside) =
          row-SameUnicode (get_delta info)
            (or_cases (not (has_bit 7 info)) _ named (rw many refl)) in
        rw (← same) (add_decomps-SameUnicode _ inside)

    mapped :
        (lower : Bool) (info : ℤ)
        → info ≡ get_uni_char_info (unicode out) uc
        → has_bit 3 info ≡ false
        → SameUnicode
            (if lower
              then (if not (has_bit 7 info)
                  then add_decomp (unicode out) (add_delta uc (get_delta info))
                  else add_decomps (unicode out) (get_mc (unicode out) info))
              else add_decomp (unicode out) uc)
            (if lower
              then (if not (has_bit 7 info)
                  then add_decomp (unicode out') (add_delta uc (get_delta info))
                  else add_decomps (unicode out') (get_mc (unicode out') info))
              else add_decomp (unicode out') uc)
    mapped false info e kept = add_decomp-SameUnicode uc h
    mapped true info e kept = elim (Bool-cases (has_bit 7 info)) [
      | inl many ↦ rw many (spread_out info e many)
      | inr single ↦ rw single (lowered info e kept single)
    ]

    pub map_char-SameUnicode :
        (lower : Bool)
        → SameUnicode (map_char (unicode out) lower uc) (map_char (unicode out') lower uc)
    unfolding map_char
    map_char-SameUnicode lower =
        let info = get_uni_char_info (unicode out) uc in
        rw (← info_same out out' uc h) (elim (Bool-cases (has_bit 3 info)) [
          | inl dropped ↦ rw dropped (refl, tt)
          | inr kept ↦ rw kept (mapped lower info refl kept)
        ])
