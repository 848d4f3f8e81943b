-- ===== src/Stringprep/Unicode/Composed.antt =====
-- Composing two characters of Unicode: nothing behind an array is read, and the result is one.
use hz_platform.Prelude.{
  ℕ, zero, suc, ◌+◌, ◌-◌, ◌*◌, ◌%◌, ◌<◌, ◌≡◌, refl, Bool, true, false, not, ◌&&◌, leb→le, ltb→lt,
  ◌==◌, length, ℤ, pos, negsuc, is_minus_one, arith, Bool-cases, inl, inr, if◌then◌else◌,
}
use hz_platform.Stringprep.Utf8.RoundTrip.{IsUnicode}
use hz_platform.Stringprep.Tables.{low_16, get_uni_char_comp_info}
use hz_platform.Stringprep.Compose.{
  compose, compose_by_table, is_single, is_second, within, s_base, l_base, v_base, t_base, l_count,
  v_count, t_count, s_count,
}
use hz_platform.Stringprep.Unicode.{
  Beyond, element, unicode, both_at, comp_first_list_cells, comp_second_list_cells,
  comp_both_list_cells,
}
use hz_platform.Stringprep.Unicode.Cells.{each-element, element-inside}
use hz_platform.Stringprep.Unicode.Checks
use hz_platform.Stringprep.Unicode.Checks.{
  composes, names_both_row, comp_first_list_within, comp_second_list_within, comp_both_list_within,
  length-comp_first_list, length-comp_second_list, length-comp_both_list,
}
use hz_platform.Stringprep.Unicode.Lookups.{comp_info_same}
use hz_platform.Stringprep.Unicode.Deltas.{or_cases}

-- Two characters are the same one, of Unicode.
abbrev pub SameChar : ℕ → ℕ → Type 0
SameChar a b = (a ≡ b) × IsUnicode a

nothing : SameChar 0 0
nothing = (refl, omega arith)

chosen : (b : Bool) (x y : ℕ) → SameChar x y → SameChar (if b then x else 0) (if b then y else 0)
chosen true x y h = h
chosen false x y h = nothing

module _ (out out' : Beyond) where
  abbrev first : Beyond → ℤ → ℕ × ℕ
  first o info = element comp_first_list_cells o.pair (low_16 info)

  abbrev second : Beyond → ℤ → ℕ × ℕ
  second o info = element comp_second_list_cells o.pair (low_16 info)

  first_same :
      (info : ℤ)
      → low_16 info < 210
      → (first out info ≡ first out' info) × IsUnicode ((first out info).1)
  first_same info h =
      let inside : low_16 info < length comp_first_list_cells =
        omega (arith, length-comp_first_list) in
      (
        element-inside comp_first_list_cells out.pair out'.pair (low_16 info) inside,
        leb→le _ 0x10FFFF (
            each-element (λ _ p. Checks.within (p.1)) 0 comp_first_list_cells out.pair (low_16 info)
              comp_first_list_within inside),
      )

  second_same :
      (info : ℤ)
      → low_16 info < 12
      → (second out info ≡ second out' info) × IsUnicode ((second out info).1)
  second_same info h =
      let inside : low_16 info < length comp_second_list_cells =
        omega (arith, length-comp_second_list) in
      (
        element-inside comp_second_list_cells out.pair out'.pair (low_16 info) inside,
        leb→le _ 0x10FFFF (
            each-element (λ _ p. Checks.within (p.1)) 0 comp_second_list_cells out.pair
              (low_16 info) comp_second_list_within inside),
      )

  both_same :
      (info : ℤ) (j : ℕ)
      → names_both_row info ≡ true
      → is_minus_one info ≡ false
      → j < 37
      → SameChar (both_at out.number info j) (both_at out'.number info j)
  both_same (pos i) j row m col =
      let inside : i * 37 + j < length comp_both_list_cells =
        omega (arith, length-comp_both_list, ltb→lt i 144 row) in
      (
        element-inside comp_both_list_cells out.number out'.number (i * 37 + j) inside,
        leb→le _ 0x10FFFF (
            each-element (λ _ c. Checks.within c) 0 comp_both_list_cells out.number (i * 37 + j)
              comp_both_list_within inside),
      )
  both_same (negsuc zero) j row m col = cc
  both_same (negsuc (suc i)) j row m col = cc

  -- The three cases of `compose_by_table`, for the infos of its two characters.
  by_first :
      (info : ℤ) (c : ℕ)
      → composes info ≡ true
      → is_single info ≡ true
      → SameChar
          (if not (is_second info) && c == (first out info).0 then (first out info).1 else 0)
          (if not (is_second info) && c == (first out' info).0 then (first out' info).1 else 0)
  by_first info c ok_info single = elim (Bool-cases (is_second info)) [
    | inl s ↦ rw s nothing
    | inr n ↦
        let (e, inside) = first_same info (ltb→lt _ 210 (rw (single, n) at ok_info)) in
        rw (n, ← e) (chosen (c == (first out info).0) _ _ (refl, inside))
  ]

  by_second :
      (info : ℤ) (c : ℕ)
      → composes info ≡ true
      → is_single info ≡ true
      → SameChar
          (if is_second info && c == (second out info).0 then (second out info).1 else 0)
          (if is_second info && c == (second out' info).0 then (second out' info).1 else 0)
  by_second info c ok_info single = elim (Bool-cases (is_second info)) [
    | inl s ↦
        let (e, inside) = second_same info (ltb→lt _ 12 (rw (single, s) at ok_info)) in
        rw (s, ← e) (chosen (c == (second out info).0) _ _ (refl, inside))
    | inr n ↦ rw n nothing
  ]

  by_both :
      (i j : ℤ)
      → composes i ≡ true
      → composes j ≡ true
      → is_single i ≡ false
      → is_single j ≡ false
      → SameChar
          (if (not (is_minus_one i) && not (is_minus_one j)) && (not (is_second i) && is_second j)
            then both_at out.number i (low_16 j)
            else 0)
          (if (not (is_minus_one i) && not (is_minus_one j)) && (not (is_second i) && is_second j)
            then both_at out'.number i (low_16 j)
            else 0)
  by_both i j ok_i ok_j si sj = elim (Bool-cases (is_minus_one i)) [
    | inl m ↦ rw m nothing
    | inr p ↦ elim (Bool-cases (is_minus_one j)) [
      | inl n ↦ rw (p, n) nothing
      | inr q ↦ elim (Bool-cases (is_second i)) [
        | inl s ↦ rw (p, q, s) nothing
        | inr f ↦ elim (Bool-cases (is_second j)) [
          | inl s ↦
              let row = rw (si, f) at ok_i in
              let column = or_cases (is_minus_one j) _ (rw (sj, s) at ok_j) q in
              rw (p, q, f, s) (both_same i (low_16 j) row p (ltb→lt _ 37 column))
          | inr g ↦ rw (p, q, f, g) nothing
        ]
      ]
    ]
  ]

  compose_by_table-SameChar :
      (c d : ℕ)
      → IsUnicode c
      → IsUnicode d
      → SameChar (compose_by_table (unicode out) c d) (compose_by_table (unicode out') c d)
  unfolding compose_by_table unicode
  compose_by_table-SameChar c d hc hd =
      let (ec, ok_c) = comp_info_same out out' c hc in
      let (ed, ok_d) = comp_info_same out out' d hd in
      let i = get_uni_char_comp_info (unicode out) c in
      let j = get_uni_char_comp_info (unicode out) d in
      rw (← ec, ← ed)
        (elim (Bool-cases (is_single i)) [
          | inl single ↦ rw single (by_first i d ok_c single)
          | inr si ↦ elim (Bool-cases (is_single j)) [
            | inl single ↦ rw (si, single) (by_second j c ok_d single)
            | inr sj ↦ rw (si, sj) (by_both i j ok_c ok_d si sj)
          ]
        ])

  pub compose-SameChar :
      (c d : ℕ)
      → IsUnicode c
      → IsUnicode d
      → SameChar (compose (unicode out) c d) (compose (unicode out') c d)
  unfolding compose
  compose-SameChar c d hc hd =
      elim (Bool-cases (within l_base l_count c && within v_base v_count d)) [
        | inl lv ↦ rw lv (refl, ground (arith))
        | inr other ↦
            elim (Bool-cases (
              (within s_base s_count c && (c - s_base) % t_count == 0)
              && within t_base t_count d)) [
                | inl lvt ↦ rw (other, lvt) (refl, ground (arith))
                | inr rest ↦ rw (other, rest) (compose_by_table-SameChar c d hc hd)
              ]
      ]
