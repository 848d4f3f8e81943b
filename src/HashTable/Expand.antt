-- ===== src/HashTable/Expand.antt =====
-- Storing: when it succeeds, what it leaves, and when the expansion overruns the heap.
use hz_platform.Prelude.{
  ℕ, zero, suc, ◌+◌, ◌<◌, ◌≤◌, ◌≡◌, refl, ap, ◌∙◌, Bool, true, false, ◌&&◌, List, [], ◌∷◌, Option,
  some, ltb, ◌==◌, if◌then◌else◌, length, ℤ, pos, arith, Option-cases, inl, inr, length-set, lt→ltb,
  get_or, on_both,
}
use mathlib.Core.Path.{subst}
use native.Mathlib.Numerals.{add-one}
use hz_platform.Run.{ok, fault, heap_overflow, Post, Post-bind}
use hz_platform.Text.{Text}
use hz_platform.HashTable.Primes.{primes, prime}
use hz_platform.HashTable.Lookup.{fetch_in, fetch-wire}
use hz_platform.HashTable.{
  Entry, Table, matches, wire, new_entry, ht_hash, ht_expand, exmpp_ht_store, exmpp_ht_fetch,
  clear_heads,
}

abbrev Grows : List ℕ → Type 0
Grows [] = Unit
Grows (x ∷ []) = Unit
Grows (x ∷ y ∷ l) = (x < y) × Grows (y ∷ l)

get_or-Grows : (l : List ℕ) (i : ℕ) → Grows l → suc i < length l → get_or l i 0 < get_or l (suc i) 0
get_or-Grows [] i g h = absurd (omega arith)
get_or-Grows (x ∷ []) i g h = absurd (omega arith)
get_or-Grows (x ∷ y ∷ l) zero g h = g.0
get_or-Grows (x ∷ y ∷ l) (suc i) g h = get_or-Grows (y ∷ l) i g.1 (omega arith)

-- The sizes of the table grow.
primes_grow : (i : ℕ) → i < 25 → prime i < prime (i + 1)
unfolding prime
primes_grow i h = rw add-one (get_or-Grows primes i (omega arith) (omega arith))

-- At least one bucket, no more than the size that the index names, which is in the table.
pub record IsValid {ℓ} {V : Type ℓ} (t : Table V) : Type 0 where
  pub roomy : 0 < length t.entries
  pub sized : length t.entries ≤ prime t.prime_index
  pub indexed : t.prime_index < 26

pub le→not_ltb : (a b : ℕ) → a ≤ b → ltb b a ≡ false
le→not_ltb a b h = ground arith

lt→not_eqb : (a b : ℕ) → a < b → a == b ≡ false
lt→not_eqb a b h = ground arith

abbrev pub counted_up {ℓ} : {V : Type ℓ} → Table V → Table V
counted_up t = record t { entries_count = t.entries_count + 1 }

pub counted_up-IsValid {ℓ} : {V : Type ℓ} (t : Table V) → IsValid t → IsValid (counted_up t)
counted_up-IsValid t v = record { roomy = v.roomy; sized = v.sized; indexed = v.indexed }

pub length-wire {ℓ} :
    {V : Type ℓ} (e : Entry V) (heads : List (List (Entry V)))
    → length (wire e heads) ≡ length heads
unfolding wire
length-wire e heads = length-set heads _ _

module _ {ℓ} {V : Type ℓ} (fresh : ℕ → Option (List (List (Entry V)))) where
  abbrev pub Unmoved : Table V → Table V × ℤ → Type ℓ
  Unmoved t r = (r.0.entries ≡ t.entries) × IsValid r.0

  -- If the expansion returns, it has changed no bucket.
  pub expand_returns : (t : Table V) → IsValid t → Post (Unmoved t) (ht_expand fresh t)
  unfolding ht_expand clear_heads
  expand_returns t v =
      on_both (Post (Unmoved t)) (t.prime_index == 25) (λ _. (refl, v))
        λ small. elim (Option-cases (fresh (prime (t.prime_index + 1)))) [
          | inl out ↦
              let grown = primes_grow t.prime_index (ground (arith, v.indexed)) in
              rw out (
                refl,
                record {
                  roomy = v.roomy;
                  sized = omega (arith, v.sized);
                  indexed = ground (arith, v.indexed);
                },
              )
          | inr (heads, got) ↦
              let grown = primes_grow t.prime_index (ground (arith, v.indexed)) in
              rw got (
                rw (lt→ltb (length t.entries) (prime (t.prime_index + 1)) (omega (arith, v.sized)))
                  tt)
        ]

  -- What a store leaves: a valid table, in which just the keys that match the new entry are found
  -- at the new value. Without memory for the entry nothing changes.
  abbrev pub Stored : Bool → Table V → Text → V → Table V × ℤ → Type ℓ
  Stored done t key value r =
      IsValid r.0
      × ((q : Text)
          → exmpp_ht_fetch (some r.0) q ≡ (
              if done && matches (new_entry key value) q (ht_hash q.bytes)
              then some value
              else exmpp_ht_fetch (some t) q))

  wired :
      (t u : Table V) (key : Text) (value : V)
      → (u.entries ≡ t.entries) × IsValid u
      → Stored true t key value (record u { entries = wire (new_entry key value) u.entries }, pos 0)
  unfolding exmpp_ht_fetch new_entry
  wired t u key value (same, v) = (
    record { roomy = rw length-wire v.roomy; sized = rw length-wire v.sized; indexed = v.indexed },
    λ q.
        fetch-wire (new_entry key value) u.entries q v.roomy
        ∙ ap
            (λ e.
              if matches (new_entry key value) q (ht_hash q.bytes)
              then some value
              else fetch_in e q)
            same,
  )

  store-Stored :
      (a b : Bool) (t : Table V) (key : Text) (value : V)
      → IsValid t
      → Post (Stored (a && b) t key value) (exmpp_ht_store a b fresh t key value)
  unfolding exmpp_ht_store
  store-Stored a b t key value v =
      on_both (Post (Stored (a && b) t key value)) (a && b)
        (λ done. rw done (
          Post-bind (Unmoved t) (Stored true t key value) _ _
            (on_both (Post (Unmoved t)) (ltb t.load_limit (t.entries_count + 1))
              (λ _. expand_returns (counted_up t) (counted_up-IsValid t v))
              (λ _. (refl, counted_up-IsValid t v)))
            (λ r u. wired t r.0 key value u)))
        (λ failed. rw failed (v, λ q. refl))

  -- Whatever the allocations do, a store into a valid table that returns leaves a valid table. If the
  -- entry could be allocated, then from now on just the keys that match it are found at its value, and
  -- all others as before; if not, all keys are.
  pub fetch-store :
      (a b : Bool) (t t' : Table V) (key : Text) (value : V) (c : ℤ)
      → IsValid t
      → exmpp_ht_store a b fresh t key value ≡ ok (t', c)
      → Stored (a && b) t key value (t', c)
  fetch-store a b t t' key value c v run =
      subst (Post (Stored (a && b) t key value)) run (store-Stored a b t key value v)

  -- Up to the load limit a store returns, and counts the entry.
  pub store_in_limit :
      (t : Table V) (key : Text) (value : V)
      → t.entries_count < t.load_limit
      → exmpp_ht_store true true fresh t key value
        ≡ ok (
          record t {
            entries_count = t.entries_count + 1;
            entries = wire (new_entry key value) t.entries;
          },
          pos 0,
        )
  unfolding exmpp_ht_store
  store_in_limit t key value h = rw (le→not_ltb (t.entries_count + 1) t.load_limit (omega arith))

  -- Once a valid table has reached its load limit and is not of the largest size, a store for which
  -- all allocations succeed writes behind the end of the old array.
  pub store_overflows :
      (t : Table V) (key : Text) (value : V) (heads : List (List (Entry V)))
      → IsValid t
      → t.load_limit ≤ t.entries_count
      → t.prime_index < 25
      → fresh (prime (t.prime_index + 1)) ≡ some heads
      → exmpp_ht_store true true fresh t key value ≡ fault heap_overflow
  unfolding exmpp_ht_store ht_expand clear_heads
  store_overflows t key value heads v full below got =
      let grown = primes_grow t.prime_index below in
      rw (
        lt→ltb t.load_limit (t.entries_count + 1) (omega arith),
        lt→not_eqb t.prime_index 25 below,
        got,
        lt→ltb (length t.entries) (prime (t.prime_index + 1)) (omega (arith, v.sized)),
      )
