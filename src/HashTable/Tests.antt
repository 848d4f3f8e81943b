-- ===== src/HashTable/Tests.antt =====
-- Runs of the hash table.
use hz_platform.Prelude.{
  ℕ, ◌%◌, ◌≡◌, refl, true, List, [], ◌∷◌, Option, none, some, pos, ap, arith, replicate,
  if◌then◌else◌,
}
use hz_platform.Run.{Returns, ok, fault, heap_overflow}
use hz_platform.Text.{codes, counted}
use hz_platform.HashTable.Primes.{prime}
use hz_platform.HashTable.Lookup.{fetch_in, fetch-wire, matches-new_entry}
use hz_platform.HashTable.Expand.{IsValid, Stored, fetch-store, store_in_limit, store_overflows}
use hz_platform.HashTable.Map.{Created, Models, get_or-replicate, create-Models, store-Models}
use mathlib.Core.List.{Perm}
use hz_platform.HashTable.Release.{exmpp_ht_destroy-exmpp_ht_store}
use hz_platform.HashTable.{
  exmpp_ht_destroy, exmpp_ht_dump_keys, Entry, Table, find, exmpp_ht_fetch, matches, wire,
  new_entry, ht_hash, exmpp_ht_create, exmpp_ht_store,
}

abbrev no_memory : ℕ → Option (List (List (Entry ℕ)))
no_memory n = none

abbrev some_memory : ℕ → Option (List (List (Entry ℕ)))
some_memory n = some (replicate n [])

abbrev table : ℕ → Table ℕ
table count = record {
  entries = [] ∷ [] ∷ [] ∷ [];
  entries_count = count;
  load_limit = 2;
  prime_index = 0;
}

table-IsValid : (count : ℕ) → IsValid (table count)
unfolding prime
table-IsValid count = record { roomy = omega arith; sized = omega arith; indexed = omega arith }

abbrev one : Entry ℕ
one = record { key = codes "a"; key_len = pos 1; value = 1; hash = ht_hash (codes "a") }

fetch_wired : fetch_in (wire one (table 0).entries) (counted (codes "b")) ≡ (
    if matches one (counted (codes "b")) (ht_hash (codes "b"))
    then some 1
    else fetch_in (table 0).entries (counted (codes "b")))
fetch_wired = fetch-wire one (table 0).entries (counted (codes "b")) (omega arith)

matched_entry :
    matches {V = ℕ}
      (new_entry (counted (codes "iq")) 1)
      (counted (codes "iq"))
      (ht_hash (codes "iq"))
    ≡ true
matched_entry =
    matches-new_entry (codes "iq") (codes "iq") 1 (omega arith, (omega arith, tt))
      (omega arith, (omega arith, tt))

fetch-store_example : Stored no_memory true (table 1) (counted (codes "iq")) 7 (
  record (table 1) {
    entries_count = 2;
    entries = wire (new_entry (counted (codes "iq")) 7) (table 1).entries;
  },
  pos 0,
)
fetch-store_example =
    fetch-store no_memory true true (table 1) _ (counted (codes "iq")) 7 (pos 0) (table-IsValid 1)
      (store_in_limit no_memory (table 1) (counted (codes "iq")) 7 (omega arith))

store_overflows_example :
    exmpp_ht_store true true some_memory (table 2) (counted (codes "iq")) 7 ≡ fault heap_overflow
store_overflows_example =
    store_overflows some_memory (table 2) (counted (codes "iq")) 7 (replicate (prime 1) [])
      (table-IsValid 2) (omega arith) (omega arith) refl

created : (t : Table ℕ) × (exmpp_ht_create 200 true true ≡ some t) × Created 200 t
created = create-Models 200 (omega arith)

empty-Models : Models [] (table 0)
unfolding exmpp_ht_fetch find
empty-Models = record {
  valid = table-IsValid 0;
  reads = λ q _. ap (λ b. find b (counted q) (ht_hash q)) (get_or-replicate 3 (ht_hash q % 3) []);
}

store-Models_example :
    (t' : Table ℕ) × (exmpp_ht_store true true no_memory (table 0) (counted (codes "iq")) 7
      ≡ ok (t', pos 0))
    × Models ((codes "iq", 7) ∷ []) t'
    × (t'.entries_count ≡ 1)
    × (t'.load_limit ≡ 2)
store-Models_example =
    store-Models no_memory [] (table 0) (codes "iq") 7 empty-Models (omega arith, (omega arith, tt))
      (omega arith)

exmpp_ht_destroy-exmpp_ht_store_example :
    Returns (exmpp_ht_store true true no_memory (table 2) (counted (codes "iq")) 7) (λ r.
      Perm (exmpp_ht_destroy r.0.entries) ((codes "iq", 7) ∷ exmpp_ht_destroy (table 2).entries))
exmpp_ht_destroy-exmpp_ht_store_example =
    exmpp_ht_destroy-exmpp_ht_store no_memory true true (table 2) (counted (codes "iq")) 7
      (table-IsValid 2) (λ full n. refl)

dumped :
    exmpp_ht_dump_keys 0 ([] ∷ (one ∷ one ∷ []) ∷ []) ≡ (some 1, codes "a") ∷ (none, codes "a") ∷ []
unfolding exmpp_ht_dump_keys
dumped = refl
