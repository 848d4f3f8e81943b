-- ===== src/HashTable/Map.antt =====
-- The table as a map: what exmpp_ht_create returns, and the refinement of an association list.
use hz_platform.Prelude.{
  ℕ, zero, suc, ◌+◌, ◌^◌, ◌<◌, ◌≤◌, ◌≡◌, refl, sym, ap, ◌∙◌, true, List, [], ◌∷◌, Option, none,
  some, ltb, if◌then◌else◌, length, pos, arith, get_or, length-replicate, replicate, lt→ltb, ltb→lt,
  on_both,
}
use native.Mathlib.Nat.{le_of_eq}
use hz_platform.Run.{ok}
use hz_platform.Text.{counted, str_eq}
use hz_platform.HashTable.Primes.{primes, prime, first_prime, scan_primes, load_limit_of}
use hz_platform.HashTable.Lookup.{NulFree, matches-new_entry}
use hz_platform.HashTable.Expand.{IsValid, fetch-store, store_in_limit, le→not_ltb}
use hz_platform.HashTable.{Entry, Table, find, exmpp_ht_create, exmpp_ht_store, exmpp_ht_fetch}

abbrev Found : ℕ → List ℕ → ℕ → ℕ × ℕ → Type 0
Found m ps i r = (k : ℕ) × (r.0 ≡ i + k) × (k < length ps) × (get_or ps k 0 ≡ r.1) × (m < r.1)

later : (m p : ℕ) (ps : List ℕ) (i : ℕ) (r : ℕ × ℕ) → Found m ps (i + 1) r → Found m (p ∷ ps) i r
later m p ps i r (k, a, b, c, d) = (suc k, omega arith, omega arith, c, d)

-- If some size is above the minimum, the scan finds a size, its index and no smaller minimum.
scan_primes-Found :
    (ps : List ℕ) (i m n : ℕ) → m < get_or ps n 0 → Found m ps i (scan_primes ps i m)
unfolding scan_primes
scan_primes-Found [] i m n h = absurd (omega arith)
scan_primes-Found (p ∷ ps) i m zero h = rw (lt→ltb m p h) (0, omega arith, omega arith, refl, h)
scan_primes-Found (p ∷ ps) i m (suc n) h =
    on_both (Found m (p ∷ ps) i) (ltb m p) (λ b. (0, omega arith, omega arith, refl, ltb→lt m p b))
      (λ _. later m p ps i _ (scan_primes-Found ps (i + 1) m n h))

first_prime-Found : (m : ℕ) → m ≤ 2 ^ 30 → Found m primes 0 (first_prime m)
unfolding first_prime
first_prime-Found m h = scan_primes-Found primes 0 m 25 (omega arith)

pub get_or-replicate {ℓ} : {A : Type ℓ} (n i : ℕ) (a : A) → get_or (replicate n a) i a ≡ a
get_or-replicate zero i a = refl
get_or-replicate (suc n) zero a = refl
get_or-replicate (suc n) (suc i) a = get_or-replicate n i a

module _ {ℓ} {V : Type ℓ} where
  -- The abstract view: keys with their values, the last stored first.
  abbrev pub lookup : List ℕ → List (List ℕ × V) → Option V
  lookup q [] = none
  lookup q ((k, v) ∷ m) = if str_eq k q then some v else lookup q m

  pub record Models (m : List (List ℕ × V)) (t : Table V) : Type ℓ where
    pub valid : IsValid t
    pub reads : (q : List ℕ) → NulFree q → exmpp_ht_fetch (some t) (counted q) ≡ lookup q m

  abbrev pub Created : ℕ → Table V → Type ℓ
  Created m t =
      Models [] t
      × (m < length t.entries)
      × (t.entries_count ≡ 0)
      × (t.load_limit ≡ load_limit_of (length t.entries))

  empty-Created :
      (m : ℕ) (r : ℕ × ℕ)
      → Found m primes 0 r
      → Created m (record {
        entries = replicate r.1 [];
        entries_count = 0;
        load_limit = load_limit_of r.1;
        prime_index = r.0;
      })
  unfolding exmpp_ht_fetch find prime
  empty-Created m (i, len) (k, a, b, c, d) =
      let width = length-replicate {A = List (Entry V)} len [] in
      let index : i ≡ k = omega arith in
      (
        record {
          valid = record {
            roomy = rw width (omega arith);
            sized = rw width (le_of_eq (sym (ap (λ j. get_or primes j 0) index ∙ c)));
            indexed = rw index (omega arith);
          };
          reads = λ q _. rw get_or-replicate;
        },
        rw width d,
        refl,
        rw width,
      )

  -- A table that is created has more buckets than were asked for, its size's load limit, and is the
  -- empty map; it is created whenever there is memory and the minimum is at most 2 ^ 30.
  pub create-Models :
      (m : ℕ) → m ≤ 2 ^ 30 → (t : Table V) × (exmpp_ht_create m true true ≡ some t) × Created m t
  unfolding exmpp_ht_create
  create-Models m h =
      let r = first_prime m in
      (
        record {
          entries = replicate r.1 [];
          entries_count = 0;
          load_limit = load_limit_of r.1;
          prime_index = r.0;
        },
        rw (le→not_ltb m (2 ^ 30) h),
        empty-Created m r (first_prime-Found m h),
      )

  -- If a table models a map, the key has no 0 in it, the count is below the load limit and there is
  -- memory for the entry, then a store succeeds, counts it, and the table models the map with the new
  -- pair, which hides an older one of that key.
  pub store-Models :
      (fresh : ℕ → Option (List (List (Entry V)))) (m : List (List ℕ × V)) (t : Table V)
      (key : List ℕ) (value : V)
      → Models m t
      → NulFree key
      → t.entries_count < t.load_limit
      → (t' : Table V) × (exmpp_ht_store true true fresh t (counted key) value ≡ ok (t', pos 0))
        × Models ((key, value) ∷ m) t'
        × (t'.entries_count ≡ t.entries_count + 1)
        × (t'.load_limit ≡ t.load_limit)
  store-Models fresh m t key value old clean room =
      let run = store_in_limit fresh t (counted key) value room in
      let (valid, reads) =
        fetch-store fresh true true t _ (counted key) value (pos 0) old.valid run in
      (
        _,
        run,
        record {
          valid = valid;
          reads = λ q free.
              reads (counted q) ∙ rw (matches-new_entry key q value clean free, old.reads q free);
        },
        refl,
        refl,
      )
