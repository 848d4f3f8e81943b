-- ===== src/Xml/Encode.antt =====
-- encode_ns, encode_elem, encode_attr, is_known_ns and is_known_elem of exmpp_xml.c.
use hz_platform.Prelude.{
  ℕ, ◌≤◌, ◌≡◌, Bool, true, false, List, [], ◌∷◌, Option, none, some, leb, ◌&&◌, length,
  if◌then◌else◌, not,
}
use hz_platform.Ei.{Buff, atom, string, binary}
use hz_platform.Xml.Context.{Ctx, Handle}
use hz_platform.Text.{codes, Text}

-- What is asked of ei, which is not part of the repository: MAXATOMLEN of ei.h, and the name of the atom
-- that ei_x_encode_atom encodes for a text that ends with a 0. ei documents that it encodes up to
-- MAXATOMLEN bytes of a name; what becomes of a longer one is left open.
pub record EiAtoms : Type 0 where
  pub max_atom_len : ℕ
  pub cut : List ℕ → List ℕ
  pub whole : (s : List ℕ) → length s ≤ max_atom_len → cut s ≡ s

-- ei, and exmpp_ht_exists on the known list behind a handle.
pub record Env : Type 0 where
  pub ei : EiAtoms
  pub exists : Handle → Text → Bool

-- `len <= MAXATOMLEN`, `len` being -1 for a text that ends with a 0, of whatever length.
abbrev pub fits_atom : Env → Text → Bool
fits_atom env s = if s.terminated then true else leb (length s.bytes) env.ei.max_atom_len

-- ei_x_encode_atom, or ei_x_encode_atom_len, which is called for short names alone.
abbrev pub encode_atom : Env → Text → Buff
encode_atom env s = if s.terminated then atom (env.ei.cut s.bytes) ∷ [] else atom s.bytes ∷ []

abbrev pub known_in : Env → Option Handle → Text → Bool
known_in env none s = false
known_in env (some kl) s = env.exists kl s

abbrev pub is_known_ns : Env → Ctx → Text → Bool
is_known_ns env ctx ns = if not ctx.check_nss then true else known_in env ctx.known_nss ns

abbrev pub is_known_elem : Env → Ctx → Text → Bool
is_known_elem env ctx elem = if not ctx.check_elems then true else known_in env ctx.known_elems elem

-- The items that each function encodes into its buffer.
unfoldable pub encode_ns : Env → Ctx → Option Text → Buff
encode_ns env ctx none = atom (codes "undefined") ∷ []
encode_ns env ctx (some ns) =
    if fits_atom env ns && ctx.names_as_atom
    then (if is_known_ns env ctx ns then encode_atom env ns else string ns.bytes ∷ [])
    else string ns.bytes ∷ []

unfoldable pub encode_elem : Env → Ctx → Text → Buff
encode_elem env ctx elem =
    if fits_atom env elem && ctx.names_as_atom
    then (if is_known_elem env ctx elem then encode_atom env elem else string elem.bytes ∷ [])
    else string elem.bytes ∷ []

unfoldable pub encode_attr : Text → Buff
encode_attr attr = binary attr.bytes ∷ []
