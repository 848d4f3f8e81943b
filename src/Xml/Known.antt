-- ===== src/Xml/Known.antt =====
-- The known lists of exmpp_xml.c, and its function `control`. Memory is available; what a new array
-- of the hash table holds is an argument. An input is the items that ei decodes from it.
pub mod Listed
pub mod Selects
pub mod Atoms
use hz_platform.Prelude.{
  ℕ, zero, suc, Bool, true, false, List, [], ◌∷◌, ◌++◌, Option, none, some, ℤ, pos, negsuc, is_zero,
  ◌==◌, if◌then◌else◌, get_elem?, set, length,
}
use hz_platform.Run.{Run, ok, fault, out_of_bounds, ◌>>=◌}
use hz_platform.Ei.{Buff, tuple_header}
use hz_platform.Ei.Input.{decode_atom, decode_list_header}
use hz_platform.Text.{codes, counted, str_eq, up_to_nul}
use hz_platform.HashTable.{
  Entry, Table, exmpp_ht_create, exmpp_ht_fetch, exmpp_ht_exists, exmpp_ht_store, exmpp_ht_destroy,
}
use hz_platform.Xml.Context.{Ctx, Handle}
use hz_platform.Xml.Encode.{Env, EiAtoms}

-- `&DUMMY`, the value of every known name.
pub data Mark : Type 0 where
  dummy : Mark

-- The global indexes of the lists by name, and the lists, which a handle numbers.
pub record Known : Type 0 where
  pub nss_index : Option (Table Handle)
  pub elems_index : Option (Table Handle)
  pub lists : List (Table Mark)

-- What `driver_alloc` leaves in a new array of heads.
pub record Memory : Type 0 where
  pub fresh_index : ℕ → Option (List (List (Entry Handle)))
  pub fresh_list : ℕ → Option (List (List (Entry Mark)))

pub data Command : Type 0 where
  add_known_nss add_known_elems set_names_as_atom set_check_nss set_check_elems : Command
  set_root_depth set_emit_endtag set_max_size : Command
  unknown_command : ℕ → Command

-- The lists in use, for the encoding functions.
abbrev pub env_of : EiAtoms → Known → Env
env_of ei known = record { ei = ei; exists = λ h s. exmpp_ht_exists (get_elem? known.lists h) s }

unfoldable pub init_known_lists : Option Known
init_known_lists = elim (exmpp_ht_create {V = Handle} 4 true true) [
  | none ↦ none
  | some nss ↦ elim (exmpp_ht_create {V = Handle} 4 true true) [
    | none ↦ none
    | some elems ↦ some (record { nss_index = some nss; elems_index = some elems; lists = [] })
  ]
]

-- The names and the lists that an index gives free.
abbrev freed_by : Option (Table Handle) → List (List ℕ × Handle)
freed_by none = []
freed_by (some index) = exmpp_ht_destroy index.entries

-- The lists of namespaces, and then those of elements.
unfoldable pub free_known_lists : Known → Known × List (List ℕ × Handle)
free_known_lists known = (
  record { nss_index = none; elems_index = none; lists = [] },
  freed_by known.nss_index ++ freed_by known.elems_index,
)

unfoldable pub get_known_list_name : Buff → Option (List ℕ × Buff)
get_known_list_name (tuple_header arity ∷ buf) = if arity == 2 then decode_atom buf else none
get_known_list_name _ = none

abbrev pub xml_namespace : List ℕ
xml_namespace = codes "http://www.w3.org/XML/1998/namespace"

module _ (memory : Memory) where
  -- `exmpp_ht_store(kl, item, item_len, &DUMMY)`
  abbrev pub store_item : Table Mark → List ℕ → Run (Table Mark × ℤ)
  store_item kl item = exmpp_ht_store true true memory.fresh_list kl (counted item) dummy

  abbrev pub store_list : Table Handle → List ℕ → Handle → Run (Table Handle × ℤ)
  store_list index name kl = exmpp_ht_store true true memory.fresh_index index (counted name) kl

  -- The new list of namespaces, with the XML namespace.
  unfoldable pub new_nss : Run (Option (Table Mark))
  new_nss = elim (exmpp_ht_create {V = Mark} 200 true true) [
    | none ↦ ok none
    | some kl ↦ store_item kl xml_namespace >>= λ r. ok (if is_zero r.1 then some r.0 else none)
  ]

  unfoldable pub new_elems : Run (Option (Table Mark))
  new_elems = ok (exmpp_ht_create 1100 true true)

  -- A list of that name, which is created where there is none: the index, the lists and the list.
  unfoldable pub add_list :
      Table Handle
      → List (Table Mark)
      → List ℕ
      → Option (Table Mark)
      → Run (Table Handle × List (Table Mark) × Option Handle)
  add_list index lists name none = ok (index, lists, none)
  add_list index lists name (some kl) = do
    stored ← store_list index name (length lists)
    ok (stored.0, lists ++ kl ∷ [], some (length lists))

  unfoldable pub lookup_known_nss : List ℕ → Known → Run (Known × Option Handle)
  lookup_known_nss name known = elim known.nss_index [
    | none ↦ ok (known, none)
    | some index ↦ elim (exmpp_ht_fetch (some index) (counted name)) [
      | some kl ↦ ok (known, some kl)
      | none ↦ do
        created ← new_nss
        r ← add_list index known.lists name created
        ok (record known { nss_index = some r.0; lists = r.1 }, r.2)
    ]
  ]

  unfoldable pub lookup_known_elems : List ℕ → Known → Run (Known × Option Handle)
  lookup_known_elems name known = elim known.elems_index [
    | none ↦ ok (known, none)
    | some index ↦ elim (exmpp_ht_fetch (some index) (counted name)) [
      | some kl ↦ ok (known, some kl)
      | none ↦ do
        created ← new_elems
        r ← add_list index known.lists name created
        ok (record known { elems_index = some r.0; lists = r.1 }, r.2)
    ]
  ]

  abbrev pub add_item : Table Mark → List ℕ → Run (Table Mark)
  add_item kl item =
      if exmpp_ht_exists (some kl) (counted item)
      then ok kl
      else (store_item kl item >>= λ r. ok r.0)

  -- The loop of update_list over `n` items.
  unfoldable pub add_items : ℕ → Table Mark → Buff → Run (Table Mark × ℤ)
  add_items zero kl buf = ok (kl, pos 0)
  add_items (suc n) kl buf = elim (decode_atom buf) [
    | none ↦ ok (kl, negsuc 0)
    | some (item, buf') ↦ add_item kl item >>= λ kl'. add_items n kl' buf'
  ]

  unfoldable pub update_list : Table Mark → Buff → Run (Table Mark × ℤ)
  update_list kl buf = elim (decode_list_header buf) [
    | none ↦ ok (kl, negsuc 0)
    | some (n, buf') ↦ add_items n kl buf'
  ]

  -- add_known_nss and add_known_elems behind the lookup.
  unfoldable pub update_known : Known × Option Handle → Buff → Run (Known × ℤ)
  update_known (known, none) buf = ok (known, pos 1)
  update_known (known, some h) buf = elim (get_elem? known.lists h) [
    | none ↦ fault out_of_bounds
    | some kl ↦ do
      r ← update_list kl buf
      ok (record known { lists = set known.lists h r.0 }, if is_zero r.1 then pos 0 else pos 1)
  ]

  unfoldable pub add_nss : Buff → Known → Run (Known × ℤ)
  add_nss buf known = elim (get_known_list_name buf) [
    | none ↦ ok (known, pos 1)
    | some (name, buf') ↦ lookup_known_nss name known >>= λ found. update_known found buf'
  ]

  unfoldable pub add_elems : Buff → Known → Run (Known × ℤ)
  add_elems buf known = elim (get_known_list_name buf) [
    | none ↦ ok (known, pos 1)
    | some (name, buf') ↦ lookup_known_elems name known >>= λ found. update_known found buf'
  ]

-- `strcmp(list_name, s) == 0`
abbrev pub is_named : List ℕ → List ℕ → Bool
is_named name s = str_eq (up_to_nul name) s

unfoldable pub select_nss : Known → List ℕ → Ctx → Ctx × ℤ
select_nss known name ctx =
    if is_named name (codes "false")
    then (record ctx { check_nss = false }, pos 0)
    else (if is_named name (codes "true")
        then (elim ctx.known_nss [
          | none ↦ (ctx, negsuc 0)
          | some kl ↦ (record ctx { check_nss = true }, pos 0)
        ])
        else (elim (exmpp_ht_fetch known.nss_index (counted name)) [
          | none ↦ (ctx, negsuc 0)
          | some kl ↦ (record ctx { known_nss = some kl; check_nss = true }, pos 0)
        ]))

unfoldable pub select_elems : Known → List ℕ → Ctx → Ctx × ℤ
select_elems known name ctx =
    if is_named name (codes "false")
    then (record ctx { check_elems = false }, pos 0)
    else (if is_named name (codes "true")
        then (elim ctx.known_elems [
          | none ↦ (ctx, negsuc 0)
          | some kl ↦ (record ctx { check_elems = true }, pos 0)
        ])
        else (elim (exmpp_ht_fetch known.elems_index (counted name)) [
          | none ↦ (ctx, negsuc 0)
          | some kl ↦ (record ctx { known_elems = some kl; check_elems = true }, pos 0)
        ]))

-- The name that select_known_nss and select_known_elems decode.
unfoldable pub select_known : (List ℕ → Ctx → Ctx × ℤ) → Buff → Ctx → Ctx × ℤ
select_known select buf ctx = elim (decode_atom buf) [
  | none ↦ (ctx, negsuc 0)
  | some (name, buf') ↦ select name ctx
]
