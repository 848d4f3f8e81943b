-- ===== src/Xml/Tests/OnLists.antt =====
-- A list of namespaces that is added and selected.
use hz_platform.Prelude.{
  sym, ◌∙◌, ◌&&◌, leb, length, replicate, if◌then◌else◌, arith, ℕ, ◌≡◌, refl, true, List, [], ◌∷◌,
  none, some, pos,
}
use hz_platform.Run.{Returns}
use hz_platform.Ei.{atom, string}
use hz_platform.Text.{codes, counted}
use hz_platform.Xml.Context.{Ctx, Handle}
use hz_platform.Xml.Encode.{encode_ns}
use hz_platform.Xml.Known.{Known, Memory, env_of}
use hz_platform.Xml.Known
use mathlib.Core.Path.{subst}
use hz_platform.HashTable.{Table, exmpp_ht_create}
use hz_platform.HashTable.Primes.{load_limit_of, first_prime, scan_primes, to_float, excess}
use hz_platform.HashTable.Lookup.{NulFree}
use hz_platform.HashTable.Map.{Models, create-Models}
use hz_platform.Xml.Known.Selects.{no_zero-NulFree, same_some}
use hz_platform.Xml.Known.Atoms.{IsNew, named_list, is_listed, select_nss-add_nss}
use hz_platform.Xml.Tests.{ei_255, no_memory}

-- The index that init_known_lists creates.
abbrev empty_index : Table Handle
empty_index = record {
  entries = replicate 53 [];
  entries_count = 0;
  load_limit = load_limit_of 53;
  prime_index = 0;
}

created_4 : exmpp_ht_create {V = Handle} 4 true true ≡ some empty_index
unfolding exmpp_ht_create first_prime scan_primes
created_4 = refl

limit_of_53 : load_limit_of 53 ≡ 35
unfolding load_limit_of to_float excess
limit_of_53 = refl

empty_index-Models : Models {V = Handle} [] empty_index
empty_index-Models =
    let (t, made, (models, _, _, _)) = create-Models {V = Handle} 4 (omega arith) in
    subst (Models []) (same_some t empty_index (sym made ∙ created_4)) models

abbrev initial : Known
initial = record { nss_index = some empty_index; elems_index = none; lists = [] }

initial_lem : Known.init_known_lists ≡ some (record initial { elems_index = some empty_index })
unfolding Known.init_known_lists exmpp_ht_create first_prime scan_primes
initial_lem = refl

initial-IsNew : IsNew (codes "xmpp") initial
initial-IsNew = record {
  index = empty_index;
  lists = [];
  indexed = refl;
  models = empty_index-Models;
  missing = refl;
  room = omega (arith, limit_of_53);
}

select_nss-add_nss_example :
    Returns
      (Known.add_nss no_memory (named_list (codes "xmpp") (codes "jabber:client" ∷ []) []) initial)
      (λ r.
        (r.1 ≡ pos 0)
        × ((ctx : Ctx)
            → (h : Handle) × (Known.select_nss r.0 (codes "xmpp") ctx
                ≡ (record ctx { known_nss = some h; check_nss = true }, pos 0))
              × ((q : List ℕ)
                  → NulFree q
                  → encode_ns
                      (env_of ei_255 r.0)
                      (Known.select_nss r.0 (codes "xmpp") ctx).0
                      (some (counted q))
                    ≡ (if (leb (length q) 255 && ctx.names_as_atom)
                          && is_listed (codes "jabber:client" ∷ []) q
                        then atom q ∷ []
                        else string q ∷ []))))
select_nss-add_nss_example =
    select_nss-add_nss no_memory ei_255 initial (codes "xmpp") (codes "jabber:client" ∷ []) []
      (no_zero-NulFree (codes "xmpp") refl, refl, refl)
      (no_zero-NulFree (codes "jabber:client") refl, tt) (omega arith) initial-IsNew
