-- ===== src/Stringprep/Unicode/Deltas.antt =====
-- The case conversion by a difference stays within Unicode.
use hz_platform.Prelude.{
  ℕ, zero, suc, ◌+◌, ◌*◌, ◌/◌, ◌%◌, ◌^◌, ◌<◌, ◌≡◌, refl, Bool, true, false, not, ◌||◌, ◌==◌, ℤ, pos,
  negsuc, arith, Bool-cases, inl, inr,
}
use mathlib.Core.Path.{subst}
use hz_platform.Stringprep.Utf8.RoundTrip.{IsUnicode}
use hz_platform.Stringprep.Tables.{cell, has_bit, get_delta, add_delta, get_uni_char_info}
use hz_platform.Stringprep.Unicode.{
  Beyond, element, unicode, page_map_cells, group_map_cells, groups_cells,
}
use hz_platform.Stringprep.Unicode.Cells.{each-element, window-element, element-inside}
use hz_platform.Stringprep.Unicode.Checks.{
  within, lands, stays, info_of, moves, page_stays, page_lands, below_each, still_pages,
  moving_pages, length-page_map, length-group_map, length-groups, page_map_below,
}
use hz_platform.Stringprep.Unicode.Lookups.{element-SameBelow, group-SameBelow}

below_each_sound : (n : ℕ) (p : ℕ → Bool) (i : ℕ) → below_each n p ≡ true → i < n → p i ≡ true
below_each_sound zero p i h lt = absurd (omega arith)
below_each_sound (suc n) p i h lt = ground (arith, below_each_sound n p i)

pub or_cases : (a b : Bool) → (a || b) ≡ true → a ≡ false → b ≡ true
or_cases true b h e = cc
or_cases false b h e = h

stay_lands :
    (a b : Bool) (uc : ℕ) (d : ℤ)
    → (a || b || (elim d [ pos n ↦ n == 0 | negsuc n ↦ false ])) ≡ true
    → IsUnicode uc
    → (a || b || within (add_delta uc d)) ≡ true
unfolding add_delta
stay_lands true b uc d s h = refl
stay_lands false true uc d s h = refl
stay_lands false false uc (pos n) s h = ground arith
stay_lands false false uc (negsuc n) s h = cc

stays-lands : (uc : ℕ) (info : ℤ) → stays info ≡ true → IsUnicode uc → lands uc info ≡ true
stays-lands uc info s h = stay_lands (has_bit 3 info) (has_bit 7 info) uc (get_delta info) s h

module _ (out : Beyond) (uc : ℕ) (h : IsUnicode uc) where
  abbrev number_of_page : ℕ
  number_of_page = uc % 2 ^ 21 / 2 ^ 8

  abbrev page : ℕ
  page = element page_map_cells out.number number_of_page

  abbrev place : ℕ
  place = uc % 2 ^ 8

  abbrev group : ℕ
  group = element group_map_cells out.number (cell (element page_map_cells out.number) uc)

  page_small : page < 62
  page_small =
      (element-SameBelow 62 page_map_cells out.number out.number number_of_page page_map_below
        (omega (arith, length-page_map))).1

  info_lem : info_of group ≡ get_uni_char_info (unicode out) uc
  unfolding get_uni_char_info unicode
  info_lem =
      element-inside groups_cells (λ _. pos 0) out.integer group
        (omega (arith, length-groups, (group-SameBelow out out uc h).1))

  group-lands : page_lands number_of_page page ≡ true → lands uc (info_of group) ≡ true
  unfolding page_lands
  group-lands ok_page =
      let e : number_of_page * 256 + (0 + place) ≡ uc = omega arith in
      let found =
        window-element (λ k g. lands (number_of_page * 256 + k) (info_of g)) (page * 256) 256 0
          group_map_cells out.number place ok_page (omega arith)
          (omega (arith, page_small, length-group_map)) in
      subst (λ n. lands n (info_of group) ≡ true) e found

  group_stays : page_stays page ≡ true → lands uc (info_of group) ≡ true
  unfolding page_stays
  group_stays ok_page =
      stays-lands uc (info_of group)
        (window-element (λ k g. stays (info_of g)) (page * 256) 256 0 group_map_cells out.number
          place ok_page (omega arith) (omega (arith, page_small, length-group_map)))
        h

  pub delta-lands : lands uc (get_uni_char_info (unicode out) uc) ≡ true
  delta-lands =
      subst (λ info. lands uc info ≡ true) info_lem
        (elim (Bool-cases (moves page)) [
          | inl m ↦
              let checked =
                each-element (λ i p. not (moves p) || page_lands i p) 0 page_map_cells out.number
                  number_of_page moving_pages (omega (arith, length-page_map)) in
              let plain : 0 + number_of_page ≡ number_of_page = omega arith in
              group-lands (
                or_cases (not (moves page)) _
                  (subst (λ i. (not (moves page) || page_lands i page) ≡ true) plain checked)
                  (rw m refl))
          | inr s ↦ group_stays (
              or_cases (moves page) _
                (below_each_sound 62 (λ p. moves p || page_stays p) page still_pages page_small) s)
        ])
