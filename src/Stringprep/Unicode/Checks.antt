-- ===== src/Stringprep/Unicode/Checks.antt =====
-- Checks of the arrays by evaluation: their lengths, and what every cell of them satisfies.
use hz_platform.Prelude.{
  ℕ, ◌+◌, ◌*◌, ◌/◌, ◌%◌, ◌^◌, ◌≡◌, refl, Bool, true, false, not, ◌&&◌, ◌||◌, List, [], ◌∷◌, length,
  ltb, leb, ◌==◌, ℤ, pos, negsuc, if◌then◌else◌, zero, suc, is_minus_one,
}
use hz_platform.Stringprep.Tables.{has_bit, get_delta, add_delta, low_16}
use hz_platform.Stringprep.Compose.{is_single, is_second}
use hz_platform.Stringprep.Unicode.{
  element, page_map_cells, group_map_cells, groups_cells, multi_case_table_cells,
  cclass_page_map_cells, cclass_group_map_cells, decomp_page_map_cells, decomp_group_map_cells,
  decomp_list_cells, comp_page_map_cells, comp_group_map_cells, comp_first_list_cells,
  comp_second_list_cells, comp_both_list_cells,
}
use hz_platform.Stringprep.Unicode.Cells.{each, window}

abbrev pub within : ℕ → Bool
within c = leb c 0x10FFFF

abbrev pub all_within : List ℕ → Bool
all_within [] = true
all_within (c ∷ cs) = within c && all_within cs

pub length-page_map : length page_map_cells ≡ 4352
unfolding page_map_cells
length-page_map = refl

pub length-group_map : length group_map_cells ≡ 15872
unfolding group_map_cells
length-group_map = refl

pub length-groups : length groups_cells ≡ 275
unfolding groups_cells
length-groups = refl

pub length-multi_case_table : length multi_case_table_cells ≡ 160
unfolding multi_case_table_cells
length-multi_case_table = refl

pub length-cclass_page_map : length cclass_page_map_cells ≡ 4352
unfolding cclass_page_map_cells
length-cclass_page_map = refl

pub length-cclass_group_map : length cclass_group_map_cells ≡ 5376
unfolding cclass_group_map_cells
length-cclass_group_map = refl

pub length-decomp_page_map : length decomp_page_map_cells ≡ 4352
unfolding decomp_page_map_cells
length-decomp_page_map = refl

pub length-decomp_group_map : length decomp_group_map_cells ≡ 11520
unfolding decomp_group_map_cells
length-decomp_group_map = refl

pub length-decomp_list : length decomp_list_cells ≡ 6155
unfolding decomp_list_cells
length-decomp_list = refl

pub length-comp_page_map : length comp_page_map_cells ≡ 4352
unfolding comp_page_map_cells
length-comp_page_map = refl

pub length-comp_group_map : length comp_group_map_cells ≡ 4352
unfolding comp_group_map_cells
length-comp_group_map = refl

pub length-comp_first_list : length comp_first_list_cells ≡ 210
unfolding comp_first_list_cells
length-comp_first_list = refl

pub length-comp_second_list : length comp_second_list_cells ≡ 12
unfolding comp_second_list_cells
length-comp_second_list = refl

pub length-comp_both_list : length comp_both_list_cells ≡ 5328
unfolding comp_both_list_cells
length-comp_both_list = refl

-- The pages of the four maps.
pub page_map_below : each (λ i p. ltb p 62) 0 page_map_cells ≡ true
unfolding page_map_cells each
page_map_below = refl

pub cclass_page_map_below : each (λ i p. ltb p 21) 0 cclass_page_map_cells ≡ true
unfolding cclass_page_map_cells each
cclass_page_map_below = refl

pub decomp_page_map_below : each (λ i p. ltb p 45) 0 decomp_page_map_cells ≡ true
unfolding decomp_page_map_cells each
decomp_page_map_below = refl

pub comp_page_map_below : each (λ i p. ltb p 17) 0 comp_page_map_cells ≡ true
unfolding comp_page_map_cells each
comp_page_map_below = refl

pub group_map_below : each (λ i g. ltb g 275) 0 group_map_cells ≡ true
unfolding group_map_cells each
group_map_below = refl

-- A row is named by a number below 160, where one is.
abbrev pub names_row : ℤ → Bool
names_row (pos d) = ltb d 160
names_row (negsuc d) = false

pub groups_rows :
    each (λ i info. not (has_bit 7 info) || names_row (get_delta info)) 0 groups_cells ≡ true
unfolding groups_cells each has_bit get_delta
groups_rows = refl

pub multi_case_table_within : each (λ i row. all_within row) 0 multi_case_table_cells ≡ true
unfolding multi_case_table_cells each
multi_case_table_within = refl

-- A decomposition lies inside decompList.
abbrev pub decomposes : ℤ → Bool
decomposes (pos info) = leb (info % 2 ^ 16 + info / 2 ^ 16) 6155
decomposes (negsuc n) = true

pub decomp_group_map_inside : each (λ i info. decomposes info) 0 decomp_group_map_cells ≡ true
unfolding decomp_group_map_cells each
decomp_group_map_inside = refl

pub decomp_list_within : each (λ i c. within c) 0 decomp_list_cells ≡ true
unfolding decomp_list_cells each
decomp_list_within = refl

-- The index of a composition is inside the list, the column or the row that its bits name.
abbrev pub names_both_row : ℤ → Bool
names_both_row (pos n) = ltb n 144
names_both_row (negsuc zero) = true
names_both_row (negsuc (suc n)) = false

abbrev pub composes : ℤ → Bool
composes info =
    if is_single info
    then ltb (low_16 info) (if is_second info then 12 else 210)
    else (if is_second info then is_minus_one info || ltb (low_16 info) 37 else names_both_row info)

pub comp_group_map_inside : each (λ i info. composes info) 0 comp_group_map_cells ≡ true
unfolding comp_group_map_cells each has_bit
comp_group_map_inside = refl

pub comp_first_list_within : each (λ i p. within (p.1)) 0 comp_first_list_cells ≡ true
unfolding comp_first_list_cells each
comp_first_list_within = refl

pub comp_second_list_within : each (λ i p. within (p.1)) 0 comp_second_list_cells ≡ true
unfolding comp_second_list_cells each
comp_second_list_within = refl

pub comp_both_list_within : each (λ i c. within c) 0 comp_both_list_cells ≡ true
unfolding comp_both_list_cells each
comp_both_list_within = refl

-- The pages with a character that a single other one replaces.
abbrev member : ℕ → List ℕ → Bool
member p [] = false
member p (q ∷ qs) = p == q || member p qs

abbrev pub moves : ℕ → Bool
moves p = member p (0 ∷ 1 ∷ 2 ∷ 3 ∷ 4 ∷ 5 ∷ 25 ∷ 26 ∷ 28 ∷ 31 ∷ 50 ∷ 52 ∷ 55 ∷ 56 ∷ 57 ∷ 58 ∷ [])

-- What `uc + delta` is for a character that is kept (no B1Mask) and has no row (no MCMask).
abbrev pub lands : ℕ → ℤ → Bool
lands uc info = has_bit 3 info || has_bit 7 info || within (add_delta uc (get_delta info))

abbrev pub stays : ℤ → Bool
stays info =
    has_bit 3 info
    || has_bit 7 info
    || (elim (get_delta info) [ pos d ↦ d == 0 | negsuc d ↦ false ])

abbrev pub info_of : ℕ → ℤ
info_of g = element groups_cells (λ _. pos 0) g

-- One of the 62 pages; and one of the 4352 numbers of pages, with its page.
unfoldable pub page_stays : ℕ → Bool
unfolding window
page_stays p = window (λ k g. stays (info_of g)) (p * 256) 256 0 group_map_cells

unfoldable pub page_lands : ℕ → ℕ → Bool
unfolding window
page_lands i p = window (λ k g. lands (i * 256 + k) (info_of g)) (p * 256) 256 0 group_map_cells

abbrev pub below_each : ℕ → (ℕ → Bool) → Bool
below_each zero p = true
below_each (suc n) p = p n && below_each n p

pub still_pages : below_each 62 (λ p. moves p || page_stays p) ≡ true
unfolding page_stays element groups_cells group_map_cells has_bit get_delta
still_pages = refl

pub moving_pages : each (λ i p. not (moves p) || page_lands i p) 0 page_map_cells ≡ true
unfolding page_lands each element groups_cells group_map_cells page_map_cells has_bit get_delta
    add_delta
moving_pages = refl
