-- ===== src/Tls/Hostname/Wildcard.antt =====
-- What match_hostname accepts.
use hz_platform.Prelude.{
  ℕ, ◌≡◌, ◌≢◌, refl, sym, ap, ◌∙◌, Bool, true, false, List, [], ◌∷◌, ◌++◌, map, Option, none, some,
  ◌==◌, ==_iff, if◌then◌else◌, ◌↔◌, ◌⊎◌, Bool-cases, inl, inr,
}
use mathlib.Core.Path.{subst}
use mathlib.Core.Bool.{true≢false, and-eq-true_iff}
use hz_platform.Tls.Hostname.{
  to_lower, same_caseless, first_dot, is_pattern, tail, matches_suffix, match_hostname,
}

abbrev pub SameName : List ℕ → List ℕ → Type 0
SameName a b = map to_lower a ≡ map to_lower b

-- A text without a dot.
abbrev pub IsLabel : List ℕ → Type 0
IsLabel [] = Unit
IsLabel (c ∷ cs) = ((c == 46) ≡ false) × IsLabel cs

-- A pattern `*.base` stands for all names of one label in front of `.base`, any other name for itself.
abbrev pub Certifies : List ℕ → List ℕ → Type 0
Certifies cert_id host =
    ((base label rest : List ℕ) × (cert_id ≡ 42 ∷ 46 ∷ base)
      × (base ≢ [])
      × IsLabel label
      × (host ≡ label ++ 46 ∷ rest)
      × SameName base rest)
    ⊎ ((is_pattern cert_id ≡ false) × SameName cert_id host)

same_caseless_lem : (a b : List ℕ) → same_caseless a b ≡ true → SameName a b
unfolding same_caseless
same_caseless_lem [] [] h = refl
same_caseless_lem [] (b ∷ bs) h = absurd (true≢false (sym h))
same_caseless_lem (a ∷ as') [] h = absurd (true≢false (sym h))
same_caseless_lem (a ∷ as') (b ∷ bs) h =
    let (e, more) = (and-eq-true_iff (to_lower a == to_lower b) (same_caseless as' bs)).0 h in
    let rest = same_caseless_lem as' bs more in
    let first = (==_iff (to_lower a) (to_lower b)).0 e in cc

SameName-same_caseless : (a b : List ℕ) → SameName a b → same_caseless a b ≡ true
unfolding same_caseless
SameName-same_caseless [] [] h = refl
SameName-same_caseless [] (b ∷ bs) h = cc
SameName-same_caseless (a ∷ as') [] h = cc
SameName-same_caseless (a ∷ as') (b ∷ bs) h =
    let first : to_lower a ≡ to_lower b = cc in
    let rest : SameName as' bs = cc in
    (and-eq-true_iff (to_lower a == to_lower b) (same_caseless as' bs)).1
      ((==_iff (to_lower a) (to_lower b)).1 first, SameName-same_caseless as' bs rest)

-- `strchr` finds the end of the first label.
first_dot_lem :
    (host id : List ℕ)
    → first_dot host ≡ some id
    → (label rest : List ℕ) × IsLabel label × (host ≡ label ++ 46 ∷ rest) × (id ≡ 46 ∷ rest)
unfolding first_dot
first_dot_lem [] id h = absurd cc
first_dot_lem (c ∷ cs) id h = elim (Bool-cases (c == 46)) [
  | inl e ↦
      let dot = (==_iff c 46).0 e in
      let found = subst (λ t. (if t then some (c ∷ cs) else first_dot cs) ≡ some id) e h in
      ([], cs, tt, cc, cc)
  | inr e ↦
      let (label, rest, l, split, found) =
        first_dot_lem cs id
          (subst (λ t. (if t then some (c ∷ cs) else first_dot cs) ≡ some id) e h) in
      (c ∷ label, rest, (e, l), ap (λ t. c ∷ t) split, found)
]

first_dot-label :
    (label rest : List ℕ) → IsLabel label → first_dot (label ++ 46 ∷ rest) ≡ some (46 ∷ rest)
unfolding first_dot
first_dot-label [] rest l = refl
first_dot-label (c ∷ cs) rest (e, l) = rw e (first_dot-label cs rest l)

-- The three bytes that make a pattern.
pattern_lem :
    (cert_id : List ℕ)
    → is_pattern cert_id ≡ true
    → (base : List ℕ) × (cert_id ≡ 42 ∷ 46 ∷ base) × (base ≢ [])
pattern_lem [] h = absurd (true≢false (sym h))
pattern_lem (a ∷ []) h = absurd (true≢false (sym h))
pattern_lem (a ∷ b ∷ []) h = absurd (true≢false (sym h))
pattern_lem (a ∷ b ∷ c ∷ rest) h =
    let (star, dot) = (and-eq-true_iff (a == 42) (b == 46)).0 h in
    let first = (==_iff a 42).0 star in let second = (==_iff b 46).0 dot in (c ∷ rest, cc, λ e. cc)

base-pattern : (base : List ℕ) → base ≢ [] → is_pattern (42 ∷ 46 ∷ base) ≡ true
base-pattern [] h = absurd (h refl)
base-pattern (c ∷ base) h = refl

module _ (cert_id host : List ℕ) where
  -- match_hostname, by whether the name is a pattern.
  abbrev Accepted : Bool → Type 0
  Accepted star =
      (if star then matches_suffix (tail cert_id) (first_dot host) else same_caseless cert_id host)
      ≡ true

  abbrev Wildcard : Type 0
  Wildcard =
      (base label rest : List ℕ) × (cert_id ≡ 42 ∷ 46 ∷ base)
      × (base ≢ [])
      × IsLabel label
      × (host ≡ label ++ 46 ∷ rest)
      × SameName base rest

  suffix_lem :
      (base : List ℕ)
      → cert_id ≡ 42 ∷ 46 ∷ base
      → base ≢ []
      → (found : Option (List ℕ)) → first_dot host ≡ found
      → matches_suffix (tail cert_id) found ≡ true
      → Wildcard
  suffix_lem base pattern some_base none e h = absurd (true≢false (sym h))
  suffix_lem base pattern some_base (some id) e h =
      let (label, rest, l, split, dot) = first_dot_lem host id e in
      let same = same_caseless_lem (tail cert_id) id h in
      let same' : SameName (46 ∷ base) (46 ∷ rest) =
        sym (ap (λ t. map to_lower (tail t)) pattern) ∙ same ∙ ap (map to_lower) dot in
      (base, label, rest, pattern, some_base, l, split, cc)

  wildcard_matches : Wildcard → match_hostname cert_id host ≡ true
  unfolding match_hostname
  wildcard_matches (base, label, rest, pattern, some_base, l, split, same) =
      rw (pattern, base-pattern base some_base, split, first_dot-label label rest l)
        (SameName-same_caseless (46 ∷ base) (46 ∷ rest) (ap (λ t. to_lower 46 ∷ t) same))

-- A name of a certificate is taken for the expected one exactly if it certifies it: `*.base`, with
-- something in `base`, for one label in front of `.base`, and any other name for itself, in either
-- case of the letters.
pub match_hostname-Certifies :
    (cert_id host : List ℕ) → (match_hostname cert_id host ≡ true) ↔ Certifies cert_id host
unfolding match_hostname
match_hostname-Certifies cert_id host = elim (Bool-cases (is_pattern cert_id)) [
  | inl star ↦
      let (base, pattern, some_base) = pattern_lem cert_id star in
      (
        λ h. inl (
            suffix_lem cert_id host base pattern some_base (first_dot host) refl
              (subst (Accepted cert_id host) star h)),
        λ c. elim c [
          | inl w ↦ wildcard_matches cert_id host w
          | inr (no', same) ↦ absurd (true≢false (sym star ∙ no'))
        ],
      )
  | inr plain ↦ (
    λ h. inr (plain, same_caseless_lem cert_id host (subst (Accepted cert_id host) plain h)),
    λ c. elim c [
      | inl w ↦ wildcard_matches cert_id host w
      | inr (no', same) ↦ rw plain (SameName-same_caseless cert_id host same)
    ],
  )
]
