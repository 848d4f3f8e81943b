-- ===== src/HashTable.antt =====
-- The hash table of lib/exmpp-0.9.8-05-g6987a0a/c_src/exmpp_driver.c, built without USE_RWLOCK.
-- A value is never NULL, so a lookup returns an Option. Whether an allocation succeeds is an
-- argument, a Boolean for each call of driver_alloc in its order.
pub mod Primes
pub mod Lookup
pub mod Expand
pub mod Map
pub mod Release
mod Tests
use Prim.Native.Nat.{bit_xor}
use hz_platform.Prelude.{
  ℕ, zero, suc, ◌+◌, ◌-◌, ◌*◌, ◌/◌, ◌%◌, ◌^◌, Bool, true, false, ◌&&◌, ◌||◌, List, [], ◌∷◌, Option,
  none, some, ltb, leb, ◌==◌, if◌then◌else◌, length, get_or, set, drop, replicate, ℤ, pos, negsuc,
  ◌++◌,
}
use hz_platform.Run.{Run, ok, fault, heap_overflow, ◌>>=◌}
use hz_platform.Text.{Text, str_eq, up_to_nul}
use hz_platform.HashTable.Primes.{prime, prime_table_length, load_limit_of, first_prime}

pub record Entry {ℓ} (V : Type ℓ) : Type ℓ where
  pub key : List ℕ
  pub key_len : ℤ
  pub value : V
  pub hash : ℕ

-- `length` is the number of buckets.
pub record Table {ℓ} (V : Type ℓ) : Type ℓ where
  pub entries : List (List (Entry V))
  pub entries_count : ℕ
  pub load_limit : ℕ
  pub prime_index : ℕ

-- A `char` is signed: it is widened to 32 bits.
abbrev pub widen : ℕ → ℕ
widen c = if ltb c 128 then c else 2 ^ 32 - 256 + c

-- `hash = ((hash << 5) + hash) ^ c`, on unsigned int.
unfoldable pub hash_bytes : ℕ → List ℕ → ℕ
hash_bytes hash [] = hash
hash_bytes hash (c ∷ cs) =
    hash_bytes (bit_xor ((hash * 2 ^ 5 % 2 ^ 32 + hash) % 2 ^ 32) (widen c)) cs

-- ht_hash and ht_hash_len, which agree on the bytes that they read.
abbrev pub ht_hash : List ℕ → ℕ
ht_hash key = hash_bytes 5381 key

abbrev pub key_len_of : Text → ℤ
key_len_of key = if key.terminated then negsuc 0 else pos (length key.bytes)

abbrev pub same_len : ℤ → ℤ → Bool
same_len (pos m) (pos n) = m == n
same_len (negsuc m) (negsuc n) = m == n
same_len _ _ = false

-- `strcmp(entry->key, key) == 0`, and `strncmp` with the keys' common length.
abbrev pub strcmp_eq : List ℕ → List ℕ → Bool
strcmp_eq a b = str_eq (up_to_nul a) (up_to_nul b)

module _ {ℓ} {V : Type ℓ} where
  -- The test of the loop of exmpp_ht_fetch.
  unfoldable pub matches : Entry V → Text → ℕ → Bool
  matches entry key hash =
      entry.hash == hash
      && (key.terminated && strcmp_eq entry.key key.bytes
          || same_len entry.key_len (key_len_of key) && strcmp_eq entry.key key.bytes)

  unfoldable pub find : List (Entry V) → Text → ℕ → Option V
  find [] key hash = none
  find (entry ∷ next) key hash =
      let rest = find next key hash in if matches entry key hash then some entry.value else rest

  unfoldable pub exmpp_ht_create : ℕ → (ht entries : Bool) → Option (Table V)
  exmpp_ht_create min_length ht entries =
      if ltb (2 ^ 30) min_length
      then none
      else (let (pindex, len) = first_prime min_length in
          if ht && entries
          then some (record {
            entries = replicate len [];
            entries_count = 0;
            load_limit = load_limit_of len;
            prime_index = pindex;
          })
          else none)

  -- A NULL table has no entries.
  unfoldable pub exmpp_ht_fetch : Option (Table V) → Text → Option V
  exmpp_ht_fetch none key = none
  exmpp_ht_fetch (some ht) key =
      let hash = ht_hash key.bytes in
      find (get_or ht.entries (hash % length ht.entries) []) key hash

  unfoldable pub exmpp_ht_exists : Option (Table V) → Text → Bool
  exmpp_ht_exists ht key = elim (exmpp_ht_fetch ht key) [ none ↦ false | some v ↦ true ]

  unfoldable pub new_entry : Text → V → Entry V
  new_entry key value = record {
    key = key.bytes;
    key_len = key_len_of key;
    value = value;
    hash = ht_hash key.bytes;
  }

  -- `entry->next = heads[index]; heads[index] = entry`
  unfoldable pub wire : Entry V → List (List (Entry V)) → List (List (Entry V))
  wire entry heads =
      let index = entry.hash % length heads in set heads index (entry ∷ get_or heads index [])

  -- The loops of ht_expand, over one bucket and over all.
  unfoldable pub move_bucket : List (Entry V) → List (List (Entry V)) → List (List (Entry V))
  move_bucket [] heads = heads
  move_bucket (entry ∷ next) heads = move_bucket next (wire entry heads)

  unfoldable pub move_all : List (List (Entry V)) → List (List (Entry V)) → List (List (Entry V))
  move_all [] heads = heads
  move_all (bucket ∷ buckets) heads = move_all buckets (move_bucket bucket heads)

  -- `memset(heads, 0, n * sizeof(*heads))`: past the end of the array it overruns the heap.
  unfoldable pub clear_heads : ℕ → List (List (Entry V)) → Run (List (List (Entry V)))
  clear_heads n heads =
      if ltb (length heads) n then fault heap_overflow else ok (replicate n [] ++ drop n heads)

  -- `fresh n` is what `driver_alloc` leaves in a new array of n heads, if it succeeds: ht_expand
  -- clears the old array, not that one.
  unfoldable pub ht_expand : (ℕ → Option (List (List (Entry V)))) → Table V → Run (Table V × ℤ)
  ht_expand fresh ht =
      if ht.prime_index == prime_table_length - 1
      then ok (ht, pos 0)
      else (let next = record ht { prime_index = ht.prime_index + 1 } in
          let new_length = prime next.prime_index in
          elim (fresh new_length) [
            | none ↦ ok (next, negsuc 0)
            | some new_entries ↦ do
              cleared ← clear_heads new_length next.entries
              ok (
                record next {
                  entries = move_all cleared new_entries;
                  load_limit = load_limit_of new_length;
                },
                pos 0,
              )
          ])

  -- `entry` and `key` say whether the two allocations for the new entry succeed.
  unfoldable pub exmpp_ht_store :
      (entry key : Bool) (fresh : ℕ → Option (List (List (Entry V))))
      → Table V
      → Text
      → V
      → Run (Table V × ℤ)
  exmpp_ht_store entry key_copied fresh ht key value =
      if entry && key_copied
      then (let counted_up = record ht { entries_count = ht.entries_count + 1 } in
          let expanded =
            (if ltb ht.load_limit counted_up.entries_count
              then ht_expand fresh counted_up
              else ok (counted_up, pos 0)) in
          expanded >>= λ r.
          ok (record r.0 { entries = wire (new_entry key value) r.0.entries }, pos 0))
      else ok (ht, negsuc 0)

  -- The keys and values that exmpp_ht_destroy frees, in its order (the values, if there is a
  -- `free_value`): the entries of one bucket, and of all.
  unfoldable pub destroy_bucket : List (Entry V) → List (List ℕ × V)
  destroy_bucket [] = []
  destroy_bucket (entry ∷ next) = (entry.key, entry.value) ∷ destroy_bucket next

  unfoldable pub exmpp_ht_destroy : List (List (Entry V)) → List (List ℕ × V)
  exmpp_ht_destroy [] = []
  exmpp_ht_destroy (bucket ∷ buckets) = destroy_bucket bucket ++ exmpp_ht_destroy buckets

  -- What exmpp_ht_dump_keys prints: a line for each entry, with the number of the bucket in front of
  -- its first key. `%s` prints up to a NUL.
  abbrev pub dump_next : List (Entry V) → List (Option ℕ × List ℕ)
  dump_next [] = []
  dump_next (entry ∷ next) = (none, up_to_nul entry.key) ∷ dump_next next

  abbrev pub dump_bucket : ℕ → List (Entry V) → List (Option ℕ × List ℕ)
  dump_bucket i [] = []
  dump_bucket i (entry ∷ next) = (some i, up_to_nul entry.key) ∷ dump_next next

  unfoldable pub exmpp_ht_dump_keys : ℕ → List (List (Entry V)) → List (Option ℕ × List ℕ)
  exmpp_ht_dump_keys i [] = []
  exmpp_ht_dump_keys i (bucket ∷ buckets) =
      dump_bucket i bucket ++ exmpp_ht_dump_keys (suc i) buckets
