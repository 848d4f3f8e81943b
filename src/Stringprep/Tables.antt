-- ===== src/Stringprep/Tables.antt =====
-- The macros of stringprep_uni_data.h and stringprep_uni_norm.h, over any tables; Unicode has those of
-- the two headers.
use hz_platform.Prelude.{ℕ, ◌+◌, ◌-◌, ◌*◌, ◌/◌, ◌%◌, ◌^◌, Bool, ◌==◌, List, ℤ, pos, negsuc, not}

pub record Tables : Type 0 where
  pub page_map : ℕ → ℕ
  pub group_map : ℕ → ℕ
  pub groups : ℕ → ℤ
  -- the entries 1 to mc[0] of a row of multiCaseTable
  pub multi_case_table : ℤ → List ℕ
  pub cclass_page_map : ℕ → ℕ
  pub cclass_group_map : ℕ → ℕ
  pub decomp_page_map : ℕ → ℕ
  pub decomp_group_map : ℕ → ℤ
  pub decomp_list : ℕ → ℕ
  pub comp_page_map : ℕ → ℕ
  pub comp_group_map : ℕ → ℤ
  pub comp_first_list : ℕ → ℕ × ℕ
  pub comp_second_list : ℕ → ℕ × ℕ
  pub comp_both_list : ℤ → ℕ → ℕ

-- `(page_map[(ch & 0x1fffff) >> 8] << 8) | (ch & 255)`
abbrev pub cell : (ℕ → ℕ) → ℕ → ℕ
cell page_map ch = page_map (ch % 2 ^ 21 / 2 ^ 8) * 2 ^ 8 + ch % 2 ^ 8

-- `info & (1 << k)`, in two's complement.
unfoldable pub has_bit : ℕ → ℤ → Bool
has_bit k (pos n) = n / 2 ^ k % 2 == 1
has_bit k (negsuc n) = not (n / 2 ^ k % 2 == 1)

-- `(info > 0) ? info >> 11 : ~(~info >> 11)`
unfoldable pub get_delta : ℤ → ℤ
get_delta (pos n) = pos (n / 2 ^ 11)
get_delta (negsuc n) = negsuc (n / 2 ^ 11)

-- `info & 0xffff`
abbrev pub low_16 : ℤ → ℕ
low_16 (pos n) = n % 2 ^ 16
low_16 (negsuc n) = 2 ^ 16 - 1 - n % 2 ^ 16

-- `uc + delta`, as the bit pattern of an int.
unfoldable pub add_delta : ℕ → ℤ → ℕ
add_delta uc (pos n) = (uc + n) % 2 ^ 32
add_delta uc (negsuc n) = (uc + 2 ^ 32 - (n + 1)) % 2 ^ 32

module _ (t : Tables) where
  unfoldable pub get_uni_char_info : ℕ → ℤ
  get_uni_char_info ch = t.groups (t.group_map (cell t.page_map ch))

  unfoldable pub get_uni_char_cclass : ℕ → ℕ
  get_uni_char_cclass ch = t.cclass_group_map (cell t.cclass_page_map ch)

  unfoldable pub get_uni_char_decomp_info : ℕ → ℤ
  get_uni_char_decomp_info ch = t.decomp_group_map (cell t.decomp_page_map ch)

  unfoldable pub get_uni_char_comp_info : ℕ → ℤ
  get_uni_char_comp_info ch = t.comp_group_map (cell t.comp_page_map ch)

  unfoldable pub get_mc : ℤ → List ℕ
  get_mc info = t.multi_case_table (get_delta info)
