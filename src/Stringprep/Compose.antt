-- ===== src/Stringprep/Compose.antt =====
-- compose of exmpp_stringprep.c, and the composition loop of exmpp_stringprep_control.
-- In the loop the array is `done`, the pending starter `ch1`, and what stands `behind` it.
pub mod Laws
use hz_platform.Prelude.{
  ℕ, ◌+◌, ◌-◌, ◌*◌, ◌/◌, ◌%◌, Bool, true, false, ◌&&◌, ◌||◌, List, [], ◌∷◌, ◌++◌, ltb, leb, ◌==◌,
  not, if◌then◌else◌, ℤ, is_minus_one,
}
use hz_platform.Stringprep.Tables.{
  Tables, has_bit, low_16, get_uni_char_cclass, get_uni_char_comp_info,
}

abbrev pub s_base : ℕ
s_base = 0xAC00

abbrev pub l_base : ℕ
l_base = 0x1100

abbrev pub v_base : ℕ
v_base = 0x1161

abbrev pub t_base : ℕ
t_base = 0x11A7

abbrev pub l_count : ℕ
l_count = 19

abbrev pub v_count : ℕ
v_count = 21

abbrev pub t_count : ℕ
t_count = 28

abbrev pub s_count : ℕ
s_count = 11172

-- `lo <= ch && ch < lo + n`
abbrev pub within : ℕ → ℕ → ℕ → Bool
within lo n ch = leb lo ch && ltb ch (lo + n)

-- The bits CompSingleMask and CompSecondMask.
abbrev pub is_single : ℤ → Bool
is_single info = not (is_minus_one info) && has_bit 16 info

abbrev pub is_second : ℤ → Bool
is_second info = has_bit 17 info

module _ (t : Tables) where
  -- The part of `compose` behind the Hangul syllables.
  unfoldable pub compose_by_table : ℕ → ℕ → ℕ
  compose_by_table ch1 ch2 =
      let info1 = get_uni_char_comp_info t ch1 in
      let info2 = get_uni_char_comp_info t ch2 in
      let first = t.comp_first_list (low_16 info1) in
      let second = t.comp_second_list (low_16 info2) in
      if is_single info1
      then (if not (is_second info1) && ch2 == first.0 then first.1 else 0)
      else (if is_single info2
          then (if is_second info2 && ch1 == second.0 then second.1 else 0)
          else (if (not (is_minus_one info1) && not (is_minus_one info2))
                && (not (is_second info1) && is_second info2)
              then t.comp_both_list info1 (low_16 info2)
              else 0))

  -- 0 if the two do not compose.
  unfoldable pub compose : ℕ → ℕ → ℕ
  compose ch1 ch2 =
      if within l_base l_count ch1 && within v_base v_count ch2
      then s_base + ((ch1 - l_base) * v_count + (ch2 - v_base)) * t_count
      else (if (within s_base s_count ch1 && (ch1 - s_base) % t_count == 0)
            && within t_base t_count ch2
          then ch1 + ch2 - t_base
          else compose_by_table ch1 ch2)

  unfoldable pub compose_loop : List ℕ → ℕ → List ℕ → ℕ → List ℕ → List ℕ
  compose_loop done ch1 behind cclass_prev [] = done ++ ch1 ∷ behind
  compose_loop done ch1 behind cclass_prev (ch2 ∷ rest) =
      let cclass2 = get_uni_char_cclass t ch2 in
      let ruc = compose ch1 ch2 in
      let joined = compose_loop done ruc behind cclass_prev rest in
      let started = compose_loop (done ++ ch1 ∷ behind) ch2 [] 0 rest in
      let marked = compose_loop done ch1 (behind ++ ch2 ∷ []) cclass2 rest in
      if (cclass_prev == 0 || ltb cclass_prev cclass2) && not (ruc == 0)
      then joined
      else (if cclass2 == 0 then started else marked)

  -- `str32[0]` is read whatever the length is; the driver calls this on no empty string.
  unfoldable pub compose_all : List ℕ → List ℕ
  compose_all [] = []
  compose_all (ch ∷ rest) = compose_loop [] ch [] (get_uni_char_cclass t ch) rest
