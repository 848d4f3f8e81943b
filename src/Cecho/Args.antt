-- ===== src/Cecho/Args.antt =====
-- How lib/cecho-0.0.3/c_src/cecho.c reads its arguments and encodes its answers.
use hz_platform.Prelude.{
  ℕ, zero, suc, ◌+◌, Bool, List, [], ◌∷◌, Option, none, some, ℤ, pos, is_zero, leb, ltb, length,
  if◌then◌else◌,
}
use hz_platform.Run.{Run, ok, fault, out_of_bounds, uninitialized, ◌>>=◌}
use hz_platform.Ei.{Buff, tuple_header, atom, long}
use hz_platform.Text.{codes, up_to_nul}

-- ei_decode_long into a local variable that is used later, `n` times.
unfoldable pub longs : ℕ → Buff → Run (List ℤ × Buff)
longs zero buf = ok ([], buf)
longs (suc n) (long z ∷ buf) = longs n buf >>= λ r. ok (z ∷ r.0, r.1)
longs (suc n) _ = fault uninitialized

abbrev pub nth : ℕ → List ℤ → ℤ
nth n [] = pos 0
nth zero (z ∷ zs) = z
nth (suc n) (z ∷ zs) = nth n zs

abbrev pub drop_first : List ℤ → List ℤ
drop_first [] = []
drop_first (z ∷ zs) = zs

-- A string of the given length: ei_decode_string writes its bytes and a 0 into `char str[strlen]`;
-- what is read of it then ends at a 0.
unfoldable pub decode_text : ℤ → Option (List ℕ × Buff) → Run (List ℕ)
decode_text (pos strlen) (some (s, buf)) =
    if leb (length s + 1) strlen then ok (up_to_nul s) else fault out_of_bounds
decode_text _ _ = fault uninitialized

-- ei_decode_char, into a variable that is 0 before.
abbrev pub decode_char : Buff → ℕ
decode_char (long (pos n) ∷ buf) = if ltb n 256 then n else 0
decode_char _ = 0

abbrev pub as_flag : Option Bool → Run Bool
as_flag none = fault uninitialized
as_flag (some b) = ok b

-- OK is 0.
abbrev pub encode_ok_reply : ℤ → Buff
encode_ok_reply code =
    if is_zero code
    then atom (codes "ok") ∷ []
    else tuple_header 2 ∷ atom (codes "error") ∷ long code ∷ []

abbrev pub boolean : Bool → Buff
boolean b = atom (codes (if b then "true" else "false")) ∷ []
