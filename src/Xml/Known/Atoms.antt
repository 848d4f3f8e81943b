-- ===== src/Xml/Known/Atoms.antt =====
-- A list of namespaces that is added and then selected: which namespaces the driver writes as atoms.
use hz_platform.Prelude.{
  ℕ, ◌<◌, ◌≡◌, refl, ap, ◌∙◌, Bool, true, false, ◌&&◌, ◌||◌, List, [], ◌∷◌, ◌++◌, none, some, pos,
  leb, length, get_elem?, set, if◌then◌else◌,
}
use hz_platform.Run.{◌>>=◌, Returns}
use hz_platform.Ei.{Buff, tuple_header, list_header, atom, string}
use hz_platform.Text.{codes, counted, str_eq}
use hz_platform.HashTable.{Table}
use hz_platform.HashTable.Lookup.{NulFree, str_eq_self}
use hz_platform.HashTable.Map.{Models, lookup}
use hz_platform.Xml.Context.{Ctx, Handle}
use hz_platform.Xml.Encode.{EiAtoms, encode_ns}
use hz_platform.Xml.Known.{
  Known, Memory, env_of, xml_namespace, lookup_known_nss, update_known, get_known_list_name,
  add_nss, is_named, select_nss,
}
use hz_platform.Xml.Known.Listed.{has, AllFree, atoms, update_list-Holds}
use hz_platform.Xml.Known.Selects.{
  lookup_new, updated, selected, encoded, get_elem?-append, set-append,
}

-- The names of the list, and the XML namespace.
abbrev pub is_listed : List (List ℕ) → List ℕ → Bool
is_listed names q = has q names || (str_eq xml_namespace q || false)

-- The input of the command: {Name, Names}.
abbrev pub named_list : List ℕ → List (List ℕ) → Buff → Buff
named_list name names rest =
    tuple_header 2 ∷ atom name ∷ list_header (length names) ∷ (atoms names ++ rest)

-- What the index is to be before: a map without the new name, with room for one more.
pub record IsNew (name : List ℕ) (known : Known) : Type 0 where
  pub index : Table Handle
  pub lists : List (List ℕ × Handle)
  pub indexed : known.nss_index ≡ some index
  pub models : Models lists index
  pub missing : lookup name lists ≡ none
  pub room : index.entries_count < index.load_limit

-- The name has no 0 in it and selects a list: it is none of the two words.
abbrev pub IsName : List ℕ → Type 0
IsName name =
    NulFree name × (is_named name (codes "false") ≡ false) × (is_named name (codes "true") ≡ false)

module _ (memory : Memory) where
  looked_up :
      (known : Known) (name : List ℕ) (buf : Buff)
      → add_nss memory (tuple_header 2 ∷ atom name ∷ buf) known
        ≡ lookup_known_nss memory name known >>= λ found. update_known memory found buf
  unfolding add_nss get_known_list_name
  looked_up known name buf = refl

  -- Let the index of lists be a valid table that holds a map from names to lists, with fewer entries than
  -- its load limit, and let a name be no key of that map, without a 0 in it, and neither `true` nor
  -- `false`. If a list of fewer than 253 namespaces, none with a 0 in it, is added under that name and
  -- selected by it, then both succeed, and a namespace without a 0 in it that comes with its length is
  -- written as an atom exactly if it is short enough, atoms are wanted and it is in the list or the XML
  -- namespace; else as a string.
  pub select_nss-add_nss :
      (ei : EiAtoms) (known : Known) (name : List ℕ) (names : List (List ℕ)) (rest : Buff)
      → IsName name
      → AllFree names
      → length names < 253
      → IsNew name known
      → Returns (add_nss memory (named_list name names rest) known) (λ r.
        (r.1 ≡ pos 0)
        × ((ctx : Ctx)
            → (h : Handle) × (select_nss r.0 name ctx
                ≡ (record ctx { known_nss = some h; check_nss = true }, pos 0))
              × ((q : List ℕ)
                  → NulFree q
                  → encode_ns (env_of ei r.0) (select_nss r.0 name ctx).0 (some (counted q)) ≡ (
                      if (leb (length q) ei.max_atom_len && ctx.names_as_atom) && is_listed names q
                      then atom q ∷ []
                      else string q ∷ []))))
  select_nss-add_nss ei known name names rest (clean, not_off, not_on) free few new =
      let h = length known.lists in
      let (index, kl, run, models, holds) =
        lookup_new memory known new.index new.lists name (length names) new.indexed new.models
          new.missing clean new.room few in
      let (kl', update, holds') = update_list-Holds memory _ names rest kl holds free in
      let known1 = record known { nss_index = some index; lists = known.lists ++ kl ∷ [] } in
      let known2 = record known1 { lists = set known1.lists h kl' } in
      let fetched =
        models.reads name clean
        ∙ ap (λ b. if b then some h else lookup name new.lists) (str_eq_self name) in
      let listed =
        ap (λ l. get_elem? l h) (set-append known.lists kl kl')
        ∙ get_elem?-append known.lists kl' in
      let chosen = λ (ctx : Ctx). selected known2 index name ctx h refl fetched not_off not_on in
      (
        (known2, pos 0),
        looked_up known name _
            ∙ ap
                (λ r. r >>= λ found.
                  update_known memory found (list_header (length names) ∷ (atoms names ++ rest)))
                run
            ∙ updated memory known1 h kl kl' _ (get_elem?-append known.lists kl) update,
        (
          refl,
          λ ctx. (
            h,
            chosen ctx,
            λ q qf.
                ap (λ c. encode_ns (env_of ei known2) c.0 (some (counted q))) (chosen ctx)
                ∙ encoded ei known2 ctx q _ 0 kl' h listed holds' qf,
          ),
        ),
      )
