-- ===== src/Xml/Known/Selects.antt =====
-- From the commands that add and select a list of namespaces to the names that are written as atoms.
use hz_platform.Prelude.{
  ℕ, ◌<◌, ◌≡◌, refl, sym, ap, ◌∙◌, Bool, true, false, ◌&&◌, List, [], ◌∷◌, ◌++◌, Option, none, some,
  ℤ, pos, ltb, leb, is_zero, length, replicate, get_elem?, set, if◌then◌else◌, arith,
}
use mathlib.Core.Path.{subst}
use mathlib.Core.Bool.{and-eq-true_iff}
use hz_platform.Run.{Run, ok, ◌>>=◌}
use hz_platform.Ei.{Buff, atom, string}
use hz_platform.Text.{codes, counted, str_eq}
use hz_platform.HashTable.{Table, exmpp_ht_create, exmpp_ht_fetch, exmpp_ht_exists}
use hz_platform.HashTable.Primes.{first_prime, scan_primes, load_limit_of, to_float, excess}
use hz_platform.HashTable.Lookup.{NulFree}
use hz_platform.HashTable.Map.{Models, lookup, store-Models, create-Models}
use hz_platform.Xml.Context.{Ctx, Handle}
use hz_platform.Xml.Encode.{EiAtoms, encode_ns}
use hz_platform.Xml.Known.{
  Known, Mark, dummy, Memory, env_of, xml_namespace, store_item, new_nss, add_list,
  lookup_known_nss, update_list, update_known, is_named, select_nss,
}
use hz_platform.Xml.Known.Listed.{is_some-if, Holds, with_name, exists_lem}

abbrev no_zero : List ℕ → Bool
no_zero [] = true
no_zero (b ∷ bs) = ltb 0 b && no_zero bs

positive : (b : ℕ) → ltb 0 b ≡ true → 0 < b
positive b h = ground arith

pub no_zero-NulFree : (bs : List ℕ) → no_zero bs ≡ true → NulFree bs
no_zero-NulFree [] h = tt
no_zero-NulFree (b ∷ bs) h =
    let (first, rest) = (and-eq-true_iff (ltb 0 b) (no_zero bs)).0 h in
    (positive b first, no_zero-NulFree bs rest)

pub get_elem?-append :
    {A : Type 0} (l : List A) (a : A) → get_elem? (l ++ a ∷ []) (length l) ≡ some a
get_elem?-append [] a = refl
get_elem?-append (x ∷ l) a = get_elem?-append l a

pub set-append : {A : Type 0} (l : List A) (a b : A) → set (l ++ a ∷ []) (length l) b ≡ l ++ b ∷ []
set-append [] a b = refl
set-append (x ∷ l) a b = ap (λ t. x ∷ t) (set-append l a b)

-- The table for a list of namespaces before anything is in it.
abbrev table_of_200 : Table Mark
table_of_200 = record {
  entries = replicate 389 [];
  entries_count = 0;
  load_limit = load_limit_of 389;
  prime_index = 3;
}

created_200 : exmpp_ht_create {V = Mark} 200 true true ≡ some table_of_200
unfolding exmpp_ht_create first_prime scan_primes
created_200 = refl

limit_of_389 : load_limit_of 389 ≡ 253
unfolding load_limit_of to_float excess
limit_of_389 = refl

pub same_some : {A : Type 0} (a b : A) → ◌≡◌ {A = Option A} (some a) (some b) → a ≡ b
same_some a b e = cc

table_of_200-Models : Models {V = Mark} [] table_of_200
table_of_200-Models =
    let (t, made, (models, _, _, _)) = create-Models {V = Mark} 200 (omega arith) in
    subst (Models []) (same_some t table_of_200 (sym made ∙ created_200)) models

module _ (memory : Memory) where
  -- new_nss behind the creation.
  abbrev filled : Option (Table Mark) → Run (Option (Table Mark))
  filled none = ok none
  filled (some kl) =
      store_item memory kl xml_namespace >>= λ r. ok (if is_zero r.1 then some r.0 else none)

  new_nss-filled : new_nss memory ≡ filled (exmpp_ht_create 200 true true)
  unfolding new_nss
  new_nss-filled = cases (exmpp_ht_create 200 true true)
    where
      cases :
          (made : Option (Table Mark))
          → elim made [
            | none ↦ ok none
            | some kl ↦ store_item memory kl xml_namespace >>= λ r.
                ok (if is_zero r.1 then some r.0 else none)
          ]
            ≡ filled made
      cases none = refl
      cases (some kl) = refl

  new_nss-Holds :
      (n : ℕ)
      → n < 253
      → (kl : Table Mark) × (new_nss memory ≡ ok (some kl))
        × Holds (with_name xml_namespace (λ q. false)) n kl
  new_nss-Holds n few =
      let limit = limit_of_389 in
      let (t, run, models, count, same_limit) =
        store-Models memory.fresh_list [] table_of_200 xml_namespace dummy table_of_200-Models
          (no_zero-NulFree xml_namespace refl) (omega (arith, limit)) in
      (
        t,
        new_nss-filled
            ∙ ap filled created_200
            ∙ ap (λ r. r >>= λ x. ok (if is_zero x.1 then some x.0 else none)) run,
        record {
          keys = (xml_namespace, dummy) ∷ [];
          models = models;
          same = λ q free. is_some-if (str_eq xml_namespace q) none;
          room = omega (arith, limit, count, same_limit);
        },
      )

  -- What lookup_known_nss does with a name that its index does not have.
  pub lookup_new :
      (known : Known) (index : Table Handle) (m : List (List ℕ × Handle)) (name : List ℕ) (n : ℕ)
      → known.nss_index ≡ some index
      → Models m index
      → lookup name m ≡ none
      → NulFree name
      → index.entries_count < index.load_limit
      → n < 253
      → (index' : Table Handle) × (kl : Table Mark) × (lookup_known_nss memory name known
          ≡ ok (
            record known { nss_index = some index'; lists = known.lists ++ kl ∷ [] },
            some (length known.lists),
          ))
        × Models ((name, length known.lists) ∷ m) index'
        × Holds (with_name xml_namespace (λ q. false)) n kl
  unfolding lookup_known_nss add_list
  lookup_new known index m name n indexed models missing clean room few =
      let (kl, made, holds) = new_nss-Holds n few in
      let (index', stored, models', _, _) =
        store-Models memory.fresh_index m index name (length known.lists) models clean room in
      let unknown = models.reads name clean ∙ missing in
      (
        index',
        kl,
        rw (lookup_known_nss, indexed, unknown, made, add_list)
            (ap
              (λ (r : Run (Table Handle × ℤ)).
                (r >>= λ s. ok (s.0, known.lists ++ kl ∷ [], some (length known.lists)))
                >>= λ (x : Table Handle × List (Table Mark) × Option Handle).
                    ok (record known { nss_index = some x.0; lists = x.1 }, x.2))
              stored),
        models',
        holds,
      )

  pub updated :
      (known : Known) (h : Handle) (kl kl' : Table Mark) (buf : Buff)
      → get_elem? known.lists h ≡ some kl
      → update_list memory kl buf ≡ ok (kl', pos 0)
      → update_known memory (known, some h) buf
        ≡ ok (record known { lists = set known.lists h kl' }, pos 0)
  unfolding update_known
  updated known h kl kl' buf found run = rw (update_known, found, run) refl

pub selected :
    (known : Known) (index : Table Handle) (name : List ℕ) (ctx : Ctx) (h : Handle)
    → known.nss_index ≡ some index
    → exmpp_ht_fetch (some index) (counted name) ≡ some h
    → is_named name (codes "false") ≡ false
    → is_named name (codes "true") ≡ false
    → select_nss known name ctx ≡ (record ctx { known_nss = some h; check_nss = true }, pos 0)
unfolding select_nss
selected known index name ctx h indexed found not_off not_on =
    rw (select_nss, not_off, not_on, indexed, found) refl

by_tests :
    {A : Type 0} (fits wanted known : Bool) (a b : A)
    → (if fits && wanted then (if known then a else b) else b)
      ≡ (if (fits && wanted) && known then a else b)
by_tests true true known a b = refl
by_tests true false known a b = refl
by_tests false wanted known a b = refl

pub encoded :
    (ei : EiAtoms) (known : Known) (ctx : Ctx) (q : List ℕ) (f : List ℕ → Bool) (n : ℕ)
    (kl : Table Mark) (h : Handle)
    → get_elem? known.lists h ≡ some kl
    → Holds f n kl
    → NulFree q
    → encode_ns
        (env_of ei known)
        (record ctx { known_nss = some h; check_nss = true })
        (some (counted q))
      ≡ (if (leb (length q) ei.max_atom_len && ctx.names_as_atom) && f q
          then atom q ∷ []
          else string q ∷ [])
unfolding encode_ns
encoded ei known ctx q f n kl h found holds free =
    by_tests (leb (length q) ei.max_atom_len) ctx.names_as_atom
      (exmpp_ht_exists (get_elem? known.lists h) (counted q)) (atom q ∷ []) (string q ∷ [])
    ∙ ap
        (λ b.
          if (leb (length q) ei.max_atom_len && ctx.names_as_atom) && b
          then atom q ∷ []
          else string q ∷ [])
        (ap (λ t. exmpp_ht_exists t (counted q)) found ∙ exists_lem f n kl q holds free)
