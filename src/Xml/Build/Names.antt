-- ===== src/Xml/Build/Names.antt =====
-- How a name is encoded: as the atom or the string of the abstract side.
use hz_platform.Prelude.{
  ◌≡◌, refl, ap, ◌∙◌, ℕ, Bool, true, false, not, ◌&&◌, List, [], ◌∷◌, Option, none, some, leb,
  length, if◌then◌else◌, Bool-cases, inl, inr, arith,
}
use hz_platform.Ei.{Item, Buff, Term, encode}
use hz_platform.Text.{Text}
use hz_platform.Xml.Context.{Ctx, Handle}
use hz_platform.Xml.Encode.{
  Env, fits_atom, encode_atom, known_in, is_known_ns, is_known_elem, encode_ns, encode_elem,
}
use hz_platform.Xml.Build.Tree

chosen :
    (fits wanted known : Bool) (a : Buff) (n s : List ℕ)
    → (fits ≡ true → a ≡ Item.atom n ∷ [])
    → (if fits && wanted then (if known then a else Item.string s ∷ []) else Item.string s ∷ [])
      ≡ encode (if (fits && wanted) && known then Term.atom n else Term.string s)
unfolding encode
chosen true true true a n s h = h refl
chosen true true false a n s h = refl
chosen true false known a n s h = refl
chosen false wanted known a n s h = refl

module _ (env : Env) where
  uncut : (s : List ℕ) → env.ei.cut s ≡ Tree.atom_name env s
  uncut s = elim (Bool-cases (leb (length s) env.ei.max_atom_len)) [
    | inl short ↦ env.ei.whole s (ground arith) ∙ rw short refl
    | inr long ↦ rw long refl
  ]

  encode_atom_lem :
      (s : Text)
      → fits_atom env s ≡ true
      → encode_atom env s ≡ Item.atom (Tree.atom_name env s.bytes) ∷ []
  encode_atom_lem s h = elim (Bool-cases s.terminated) [
    | inl ends ↦ rw ends (ap (λ n. Item.atom n ∷ []) (uncut s.bytes))
    | inr counted ↦
        let short : leb (length s.bytes) env.ei.max_atom_len ≡ true = ground arith in
        rw (counted, short) refl
  ]

  allowed_lem :
      (check : Bool) (kl : Option Handle) (s : Text)
      → (if not check then true else known_in env kl s) ≡ Tree.is_allowed env check kl s
  allowed_lem false kl s = refl
  allowed_lem true none s = refl
  allowed_lem true (some h) s = refl

  pub encode_ns_lem :
      (ctx : Ctx) (ns : Option Text)
      → encode_ns env ctx ns ≡ encode (Tree.ns_term env (Tree.naming ctx) ns)
  unfolding encode_ns encode
  encode_ns_lem ctx none = refl
  encode_ns_lem ctx (some ns) =
      chosen (fits_atom env ns) ctx.names_as_atom (is_known_ns env ctx ns) (encode_atom env ns) _ _
        (encode_atom_lem ns)
      ∙ ap
          (λ b. encode (
            if (fits_atom env ns && ctx.names_as_atom) && b
            then Term.atom (Tree.atom_name env ns.bytes)
            else Term.string ns.bytes))
          (allowed_lem ctx.check_nss ctx.known_nss ns)

  pub encode_elem_lem :
      (ctx : Ctx) (name : Text)
      → encode_elem env ctx name ≡ encode (Tree.elem_term env (Tree.naming ctx) name)
  unfolding encode_elem encode
  encode_elem_lem ctx name =
      chosen (fits_atom env name) ctx.names_as_atom (is_known_elem env ctx name)
        (encode_atom env name) _ _ (encode_atom_lem name)
      ∙ ap
          (λ b. encode (
            if (fits_atom env name && ctx.names_as_atom) && b
            then Term.atom (Tree.atom_name env name.bytes)
            else Term.string name.bytes))
          (allowed_lem ctx.check_elems ctx.known_elems name)
