-- ===== src/Tls/Hostname.antt =====
-- exmpp_tls.c: the comparison of a name in a certificate with the name that is expected. A
-- text is what a C string holds in front of its final 0.
pub mod Wildcard
use hz_platform.Prelude.{
  ℕ, ◌+◌, ◌≤◌, ◌≡◌, ◌≢◌, refl, sym, ap, ◌∙◌, Bool, true, false, ◌&&◌, ◌||◌, List, [], ◌∷◌, ◌++◌,
  map, Option, none, some, leb, ◌==◌, if◌then◌else◌, arith, ◌↔◌, Bool-cases, inl, inr,
}
use mathlib.Core.Path.{subst}

-- `tolower` in the C locale, for `strcasecmp`.
abbrev pub to_lower : ℕ → ℕ
to_lower c = if leb 65 c && leb c 90 then c + 32 else c

-- `strcasecmp(a, b) == 0`
unfoldable pub same_caseless : List ℕ → List ℕ → Bool
same_caseless [] [] = true
same_caseless (a ∷ as') (b ∷ bs) = to_lower a == to_lower b && same_caseless as' bs
same_caseless _ _ = false

-- `strchr(id, '.')`: what starts with the first dot.
unfoldable pub first_dot : List ℕ → Option (List ℕ)
first_dot [] = none
first_dot (c ∷ cs) = if c == 46 then some (c ∷ cs) else first_dot cs

-- `cert_id_len > 2 && cert_id[0] == '*' && cert_id[1] == '.'`
abbrev pub is_pattern : List ℕ → Bool
is_pattern (a ∷ b ∷ c ∷ rest) = a == 42 && b == 46
is_pattern _ = false

abbrev pub tail : List ℕ → List ℕ
tail [] = []
tail (c ∷ cs) = cs

abbrev pub matches_suffix : List ℕ → Option (List ℕ) → Bool
matches_suffix suffix none = false
matches_suffix suffix (some id) = same_caseless suffix id

unfoldable pub match_hostname : List ℕ → List ℕ → Bool
match_hostname cert_id expected_id =
    if is_pattern cert_id
    then matches_suffix (tail cert_id) (first_dot expected_id)
    else same_caseless cert_id expected_id
