-- ===== src/Tls/Verify/Identity.antt =====
-- Which certificates verify_callback lets pass.
use hz_platform.Prelude.{
  ℕ, ◌<◌, ◌≡◌, refl, sym, ap, ◌∙◌, Bool, true, false, not, ◌&&◌, ◌||◌, List, [], ◌∷◌, Option, none,
  some, ltb, ◌==◌, ==_iff, length, if◌then◌else◌, arith, ◌↔◌, ◌⊎◌, Bool-cases, inl, inr, ltb→lt,
  lt→ltb,
}
use mathlib.Core.Path.{subst}
use mathlib.Core.Bool.{true≢false, and-eq-true_iff}
use hz_platform.Text.{up_to_nul}
use hz_platform.Tls.{Data}
use hz_platform.Tls.Hostname.{match_hostname}
use hz_platform.Tls.Hostname.Wildcard.{Certifies, match_hostname-Certifies}
use hz_platform.Tls.Verify.{
  GeneralName, StoreCtx, is_accepted, is_usable, match_names, match_extension, check_identity,
  verify_callback,
}

-- The name is a dNSName, an IA5String, without a 0, and certifies the host.
abbrev pub Names : List ℕ → GeneralName → Type 0
Names host gen =
    (gen.is_dns ≡ true)
    × (gen.is_ia5 ≡ true)
    × (up_to_nul gen.bytes ≡ gen.bytes)
    × Certifies gen.bytes host

-- One of the names does.
abbrev pub IsNamed : List ℕ → List GeneralName → Type 0
IsNamed host [] = ⊥
IsNamed host (gen ∷ gens) = Names host gen ⊎ IsNamed host gens

abbrev pub IsIdentified : Option (List ℕ) → StoreCtx → Type 0
IsIdentified none x509_ctx = Unit
IsIdentified (some id) x509_ctx =
    (0 < x509_ctx.depth)
    ⊎ ((gens : List GeneralName) × (x509_ctx.alt_names ≡ some gens) × IsNamed (up_to_nul id) gens)

no_nul : (bs : List ℕ) → length bs ≡ length (up_to_nul bs) → up_to_nul bs ≡ bs
no_nul [] h = refl
no_nul (b ∷ bs) h = elim (Bool-cases (b == 0)) [
  | inl e ↦
      absurd (omega (arith, h ∙ ap (λ (u : Bool). length (if u then [] else b ∷ up_to_nul bs)) e))
  | inr e ↦
      let shape = ap (λ (u : Bool). if u then [] else b ∷ up_to_nul bs) e in
      shape ∙ ap (λ t. b ∷ t) (no_nul bs (omega (arith, h ∙ ap (length {A = ℕ}) shape)))
]

usable_lem :
    (gen : GeneralName)
    → is_usable gen ≡ true
    → (gen.is_dns ≡ true) × (gen.is_ia5 ≡ true) × (up_to_nul gen.bytes ≡ gen.bytes)
usable_lem gen h =
    let (h', len) = (and-eq-true_iff (gen.is_dns && gen.is_ia5) _).0 h in
    let (dns, ia5) = (and-eq-true_iff gen.is_dns gen.is_ia5).0 h' in
    (dns, ia5, no_nul gen.bytes ((==_iff (length gen.bytes) (length (up_to_nul gen.bytes))).0 len))

usable_iff :
    (gen : GeneralName)
    → (gen.is_dns ≡ true)
    → (gen.is_ia5 ≡ true)
    → (up_to_nul gen.bytes ≡ gen.bytes)
    → is_usable gen ≡ true
usable_iff gen dns ia5 clean =
    rw (dns, ia5)
      ((==_iff (length gen.bytes) (length (up_to_nul gen.bytes))).1
        (ap (length {A = ℕ}) (sym clean)))

module _ (id : List ℕ) where
  -- One name of the walk.
  abbrev accepts : GeneralName → Bool
  accepts gen = match_hostname (up_to_nul gen.bytes) (up_to_nul id)

  abbrev names : GeneralName → Bool
  names gen = is_usable gen && accepts gen

  names-Names : (gen : GeneralName) → names gen ≡ true → Names (up_to_nul id) gen
  names-Names gen h =
      let (usable, matching) = (and-eq-true_iff (is_usable gen) (accepts gen)).0 h in
      let (dns, ia5, clean) = usable_lem gen usable in
      (
        dns,
        ia5,
        clean,
        subst (λ b. Certifies b (up_to_nul id)) clean
            ((match_hostname-Certifies (up_to_nul gen.bytes) (up_to_nul id)).0 matching),
      )

  Names-names : (gen : GeneralName) → Names (up_to_nul id) gen → names gen ≡ true
  Names-names gen (dns, ia5, clean, c) = (and-eq-true_iff (is_usable gen) (accepts gen)).1 (
    usable_iff gen dns ia5 clean,
    (match_hostname-Certifies (up_to_nul gen.bytes) (up_to_nul id)).1
        (subst (λ b. Certifies b (up_to_nul id)) (sym clean) c),
  )

  match_names_cons :
      (gen : GeneralName) (gens : List GeneralName)
      → match_names id (gen ∷ gens) ≡ (names gen || match_names id gens)
  unfolding match_names
  match_names_cons gen gens = by_tests (is_usable gen) (accepts gen) (match_names id gens)
    where
      by_tests : (u a r : Bool) → (if not u then r else (if a then true else r)) ≡ (u && a || r)
      by_tests true true r = refl
      by_tests true false r = refl
      by_tests false a r = refl

  match_names-IsNamed :
      (gens : List GeneralName) → (match_names id gens ≡ true) ↔ IsNamed (up_to_nul id) gens
  unfolding match_names
  match_names-IsNamed [] = (λ h. true≢false (sym h), λ h. absurd h)
  match_names-IsNamed (gen ∷ gens) =
      let more = match_names-IsNamed gens in
      let step = match_names_cons gen gens in
      elim (Bool-cases (names gen)) [
        | inl e ↦ (λ h. inl (names-Names gen e), λ h. step ∙ rw e refl)
        | inr e ↦ (
          λ h. inr (more.0 (sym (step ∙ rw e refl) ∙ h)),
          λ n. elim n [
            | inl now ↦ step ∙ rw (Names-names gen now) refl
            | inr later ↦ step ∙ rw (e, more.1 later) refl
          ],
        )
      ]

  match_extension_lem :
      (found : Option (List GeneralName))
      → (match_extension id found ≡ true)
        ↔ ((gens : List GeneralName) × (found ≡ some gens) × IsNamed (up_to_nul id) gens)
  match_extension_lem none = (λ h. absurd (true≢false (sym h)), λ r. absurd cc)
  match_extension_lem (some gens) = (
    λ h. (gens, refl, (match_names-IsNamed gens).0 h),
    λ (gens', e, n). ap (match_extension id) e ∙ (match_names-IsNamed gens').1 n,
  )

check_identity-IsIdentified :
    (expected : Option (List ℕ)) (x509_ctx : StoreCtx)
    → (check_identity expected x509_ctx ≡ true) ↔ IsIdentified expected x509_ctx
check_identity-IsIdentified none x509_ctx = (λ h. tt, λ h. refl)
check_identity-IsIdentified (some id) x509_ctx =
    let names = match_extension_lem id x509_ctx.alt_names in
    elim (Bool-cases (ltb 0 x509_ctx.depth)) [
      | inl above ↦ (λ h. inl (ltb→lt 0 x509_ctx.depth above), λ h. rw above refl)
      | inr peer ↦ (
        λ h. inr (
            names.0
              (sym (ap (λ t. if t then true else match_extension id x509_ctx.alt_names) peer) ∙ h)),
        λ r. elim r [
          | inl above ↦ rw (lt→ltb 0 x509_ctx.depth above) refl
          | inr n ↦ rw (peer, names.1 n) refl
        ],
      )
    ]

gate_iff :
    (pre accepted named : Bool)
    → ((if not pre && not accepted then false else named) ≡ true)
      ↔ (((pre ≡ true) ⊎ (accepted ≡ true)) × (named ≡ true))
gate_iff true accepted named = (λ h. (inl refl, h), λ r. r.1)
gate_iff false true named = (λ h. (inr refl, h), λ r. r.1)
gate_iff false false named = (
  λ h. absurd (true≢false (sym h)),
  λ r. elim r.0 [ inl e ↦ absurd (true≢false (sym e)) | inr e ↦ absurd (true≢false (sym e)) ],
)

module _ {C S : Type 0} where
  -- The callback lets a certificate pass exactly if OpenSSL verified it or its error is one that the
  -- options accept, and one of these holds: no identity is expected, the certificate is not the
  -- peer's own, or one of its alternative names is a dNSName in an IA5String without a 0 that
  -- certifies the expected identity.
  pub verify_callback-IsIdentified :
      (edd : Data C S) (preverify_ok : Bool) (x509_ctx : StoreCtx)
      → (verify_callback edd preverify_ok x509_ctx ≡ true) ↔ (
          ((preverify_ok ≡ true) ⊎ (is_accepted x509_ctx.error edd ≡ true))
          × IsIdentified edd.expected_id x509_ctx)
  unfolding verify_callback
  verify_callback-IsIdentified edd pre x509_ctx =
      let gate =
        gate_iff pre (is_accepted x509_ctx.error edd) (check_identity edd.expected_id x509_ctx) in
      let named = check_identity-IsIdentified edd.expected_id x509_ctx in
      (λ h. let (trusted, n) = gate.0 h in (trusted, named.0 n), λ r. gate.1 (r.0, named.1 r.1))
