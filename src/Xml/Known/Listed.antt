-- ===== src/Xml/Known/Listed.antt =====
-- What a known list holds, as a Boolean function of the names, and how update_list extends it.
use hz_platform.Prelude.{
  ℕ, suc, ◌+◌, ◌≤◌, ◌≡◌, refl, sym, ap, ◌∙◌, Bool, true, false, ◌||◌, List, [], ◌∷◌, ◌++◌, map,
  Option, none, some, pos, length, if◌then◌else◌, arith, Bool-cases, inl, inr,
}
use hz_platform.Run.{ok, ◌>>=◌, Returns}
use hz_platform.Ei.{Buff, Item, list_header}
use hz_platform.Text.{counted, str_eq}
use hz_platform.HashTable.{Table, exmpp_ht_exists}
use hz_platform.HashTable.Lookup.{NulFree, str_eq_iff-fwd}
use hz_platform.HashTable.Map.{Models, lookup, store-Models}
use hz_platform.Xml.Known.{Mark, dummy, Memory, add_item, add_items, update_list}

abbrev pub has : List ℕ → List (List ℕ) → Bool
has q [] = false
has q (n ∷ ns) = str_eq n q || has q ns

abbrev pub AllFree : List (List ℕ) → Type 0
AllFree [] = Unit
AllFree (n ∷ ns) = NulFree n × AllFree ns

abbrev pub is_some {ℓ} : {A : Type ℓ} → Option A → Bool
is_some none = false
is_some (some a) = true

-- The list is a map whose keys are those names, and has room for `n` more of them.
pub record Holds (f : List ℕ → Bool) (n : ℕ) (t : Table Mark) : Type 0 where
  pub keys : List (List ℕ × Mark)
  pub models : Models keys t
  pub same : (q : List ℕ) → NulFree q → is_some (lookup q keys) ≡ f q
  pub room : t.entries_count + n ≤ t.load_limit

abbrev pub with_name : List ℕ → (List ℕ → Bool) → List ℕ → Bool
with_name item f q = str_eq item q || f q

pub exists_lem :
    (f : List ℕ → Bool) (n : ℕ) (t : Table Mark) (q : List ℕ)
    → Holds f n t
    → NulFree q
    → exmpp_ht_exists (some t) (counted q) ≡ f q
unfolding exmpp_ht_exists
exists_lem f n t q h free = ap (is_some {A = Mark}) (h.models.reads q free) ∙ h.same q free

pub is_some-if :
    (b : Bool) (o : Option Mark) → is_some (if b then some dummy else o) ≡ (b || is_some o)
is_some-if true o = refl
is_some-if false o = refl

absorbed : (item q : List ℕ) (f : List ℕ → Bool) → f item ≡ true → f q ≡ with_name item f q
absorbed item q f h = elim (Bool-cases (str_eq item q)) [
  | inl e ↦ sym (ap f (str_eq_iff-fwd item q e)) ∙ h ∙ rw e refl
  | inr e ↦ rw e refl
]

-- The names behind a list's header.
abbrev pub atoms : List (List ℕ) → Buff
atoms ns = map Item.atom ns

abbrev pub with_names : List (List ℕ) → (List ℕ → Bool) → List ℕ → Bool
with_names ns f q = has q ns || f q

reordered : (a b c : Bool) → (b || (a || c)) ≡ (a || b || c)
reordered true true c = refl
reordered true false c = refl
reordered false b c = refl

module _ (memory : Memory) where
  add_item-Holds :
      (f : List ℕ → Bool) (n : ℕ) (t : Table Mark) (item : List ℕ)
      → Holds f (suc n) t
      → NulFree item
      → Returns (add_item memory t item) (Holds (with_name item f) n)
  add_item-Holds f n t item h free = elim (Bool-cases (exmpp_ht_exists (some t) (counted item))) [
    | inl there ↦ (
      t,
      rw there refl,
      record {
        keys = h.keys;
        models = h.models;
        same = λ q qf.
            h.same q qf ∙ absorbed item q f (sym (exists_lem f (suc n) t item h free) ∙ there);
        room = omega (arith, h.room);
      },
    )
    | inr missing ↦
        let (t', run, models, count, limit) =
          store-Models memory.fresh_list h.keys t item dummy h.models free
            (omega (arith, h.room)) in
        (
          t',
          rw missing (ap (λ r. r >>= λ x. ok x.0) run),
          record {
            keys = (item, dummy) ∷ h.keys;
            models = models;
            same = λ q qf.
                is_some-if (str_eq item q) (lookup q h.keys)
                ∙ ap (λ b. str_eq item q || b) (h.same q qf);
            room = omega (arith, h.room, count, limit);
          },
        )
  ]

  add_items-Holds :
      (f : List ℕ → Bool) (ns : List (List ℕ)) (rest : Buff) (t : Table Mark)
      → Holds f (length ns) t
      → AllFree ns
      → (t' : Table Mark) × (add_items memory (length ns) t (atoms ns ++ rest) ≡ ok (t', pos 0))
        × Holds (with_names ns f) 0 t'
  unfolding add_items
  add_items-Holds f [] rest t h free = (t, refl, h)
  add_items-Holds f (n ∷ ns) rest t h (clean, free) =
      let (t1, run, holds) = add_item-Holds f (length ns) t n h clean in
      let (t2, run', holds') = add_items-Holds (with_name n f) ns rest t1 holds free in
      (
        t2,
        ap (λ r. r >>= λ kl'. add_items memory (length ns) kl' (atoms ns ++ rest)) run ∙ run',
        record {
          keys = holds'.keys;
          models = holds'.models;
          same = λ q qf. holds'.same q qf ∙ reordered (str_eq n q) (has q ns) (f q);
          room = holds'.room;
        },
      )

  -- update_list adds exactly the names of the list that it is given, if there is room for them.
  pub update_list-Holds :
      (f : List ℕ → Bool) (ns : List (List ℕ)) (rest : Buff) (t : Table Mark)
      → Holds f (length ns) t
      → AllFree ns
      → (t' : Table Mark) × (update_list memory t (list_header (length ns) ∷ (atoms ns ++ rest))
          ≡ ok (t', pos 0))
        × Holds (with_names ns f) 0 t'
  unfolding update_list
  update_list-Holds f ns rest t h free = add_items-Holds f ns rest t h free
