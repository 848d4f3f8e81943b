-- ===== src/Ei/Input.antt =====
-- Reading an input: the decoding calls of ei, with the items behind what they decode, and
-- exmpp_skip_version of exmpp_driver.c. A call that fails moves nothing.
use hz_platform.Prelude.{
  ℕ, Bool, true, false, List, [], ◌∷◌, Option, none, some, ℤ, pos, negsuc, ltb, ◌^◌, if◌then◌else◌,
}
use hz_platform.Run.{Run, ok, fault, out_of_bounds}
use hz_platform.Ei.{Buff, version, tuple_header, list_header, empty_list, atom, string, long, ulong}
use hz_platform.Text.{codes, str_eq}

abbrev pub decode_atom : Buff → Option (List ℕ × Buff)
decode_atom (atom s ∷ buf) = some (s, buf)
decode_atom _ = none

-- A string as term_to_binary encodes one of up to 65535 bytes. The reading of a list that is encoded
-- one byte at a time is left out: it is refused.
abbrev pub decode_string : Buff → Option (List ℕ × Buff)
decode_string (string s ∷ buf) = some (s, buf)
decode_string (empty_list ∷ buf) = some ([], buf)
decode_string _ = none

abbrev pub decode_long : Buff → Option ℤ
decode_long (long z ∷ buf) = some z
decode_long _ = none

abbrev pub decode_ulong : Buff → Option ℕ
decode_ulong (long (pos n) ∷ buf) = some n
decode_ulong (ulong n ∷ buf) = some n
decode_ulong _ = none

abbrev pub decode_boolean : Buff → Option Bool
decode_boolean (atom s ∷ buf) =
    if str_eq s (codes "true")
    then some true
    else (if str_eq s (codes "false") then some false else none)
decode_boolean _ = none

abbrev pub decode_list_header : Buff → Option (ℕ × Buff)
decode_list_header (list_header n ∷ buf) = some (n, buf)
decode_list_header (empty_list ∷ buf) = some (0, buf)
decode_list_header _ = none

-- A tuple header is skipped, whatever its arity.
abbrev pub skip_tuple_header : Buff → Buff
skip_tuple_header (tuple_header n ∷ buf) = buf
skip_tuple_header buf = buf

-- What ei_get_type tells of the next term: ERL_SMALL_INTEGER_EXT is the type of an integer that fits an
-- unsigned byte, ERL_INTEGER_EXT that of any other of 32 bits.
pub data Kind : Type 0 where
  small_integer integer an_atom a_string other : Kind

abbrev pub get_type : Buff → Kind
get_type (long (pos n) ∷ buf) =
    if ltb n 256 then small_integer else (if ltb n (2 ^ 31) then integer else other)
get_type (long (negsuc n) ∷ buf) = if ltb n (2 ^ 31) then integer else other
get_type (atom s ∷ buf) = an_atom
get_type (string s ∷ buf) = a_string
get_type _ = other

-- exmpp_skip_version answers -1 if there is no version: what is decoded next lies in front of the
-- input.
unfoldable pub exmpp_skip_version : Buff → Run Buff
exmpp_skip_version (version ∷ buf) = ok buf
exmpp_skip_version _ = fault out_of_bounds
