-- ===== src/HashTable/Release.antt =====
-- What exmpp_ht_destroy frees, after a store into the hash table.
use hz_platform.Prelude.{
  ℕ, zero, suc, ◌<◌, ◌≤◌, ◌≡◌, ◌==◌, none, Bool, true, false, ◌&&◌, List, [], ◌∷◌, ◌++◌, Option,
  ltb, length, set, get_or, arith, ◌+◌, on_both, refl, ℤ, pos,
}
use mathlib.Core.Path.{subst}
use mathlib.Core.List.{Perm, perm_middle}
use mathlib.Core.List.Perm
use hz_platform.Run.{Run, ok, Post, Post-bind, Returns, ◌>>=◌}
use hz_platform.Text.{Text}
use hz_platform.HashTable.Primes.{prime}
use hz_platform.HashTable.Expand.{IsValid, Unmoved, expand_returns, counted_up, counted_up-IsValid}
use hz_platform.HashTable.{
  Entry, Table, wire, new_entry, exmpp_ht_store, exmpp_ht_destroy, ht_expand, destroy_bucket,
}

module _ {ℓ} {V : Type ℓ} where
  destroy_set :
      (heads : List (List (Entry V))) (i : ℕ) (e : Entry V)
      → i < length heads
      → Perm
          (exmpp_ht_destroy (set heads i (e ∷ get_or heads i [])))
          ((e.key, e.value) ∷ exmpp_ht_destroy heads)
  unfolding exmpp_ht_destroy destroy_bucket
  destroy_set [] i e h = absurd (omega arith)
  destroy_set (b ∷ bs) zero e h = Perm.refl _
  destroy_set (b ∷ bs) (suc i) e h =
      Perm.trans (Perm.append_left (destroy_bucket b) (destroy_set bs i e (omega arith)))
        (perm_middle (destroy_bucket b) (exmpp_ht_destroy bs))

  destroy-wire :
      (heads : List (List (Entry V))) (e : Entry V)
      → 0 < length heads
      → Perm (exmpp_ht_destroy (wire e heads)) ((e.key, e.value) ∷ exmpp_ht_destroy heads)
  unfolding wire
  destroy-wire heads e h = destroy_set heads _ e (omega arith)

  -- The key and the value that a store hands to the table.
  abbrev pub handed : Bool → Text → V → List (List ℕ × V)
  handed false key value = []
  handed true key value = (key.bytes, value) ∷ []

  abbrev Owned : Bool → Table V → Text → V → Table V × ℤ → Type ℓ
  Owned done t key value r =
      Perm (exmpp_ht_destroy r.0.entries) (handed done key value ++ exmpp_ht_destroy t.entries)

  wired :
      (t u : Table V) (key : Text) (value : V)
      → (u.entries ≡ t.entries) × IsValid u
      → Owned true t key value (record u { entries = wire (new_entry key value) u.entries }, pos 0)
  unfolding new_entry
  wired t u key value (same, v) =
      subst
        (λ l.
          Perm (exmpp_ht_destroy (wire (new_entry key value) u.entries))
            ((key.bytes, value) ∷ exmpp_ht_destroy l))
        same (destroy-wire u.entries (new_entry key value) v.roomy)

  module _ (fresh : ℕ → Option (List (List (Entry V)))) where
    store-Owned :
        (a b : Bool) (t : Table V) (key : Text) (value : V)
        → IsValid t
        → Post (Owned (a && b) t key value) (exmpp_ht_store a b fresh t key value)
    unfolding exmpp_ht_store
    store-Owned a b t key value v =
        on_both (Post (Owned (a && b) t key value)) (a && b)
          (λ done. rw done (
            Post-bind (Unmoved fresh t) (Owned true t key value) _ _
              (on_both (Post (Unmoved fresh t)) (ltb t.load_limit (t.entries_count + 1))
                (λ _. expand_returns fresh (counted_up t) (counted_up-IsValid t v))
                (λ _. (refl, counted_up-IsValid t v)))
              (λ r u. wired t r.0 key value u)))
          (λ failed. rw failed (Perm.refl _))

    abbrev Ends : Run (Table V × ℤ) → Type ℓ
    Ends run = (r : Table V × ℤ) × (run ≡ ok r)

    then-Ends :
        (run : Run (Table V × ℤ)) (next : Table V × ℤ → Table V × ℤ)
        → Ends run
        → Ends (run >>= λ r. ok (next r))
    then-Ends run next (r, ends) = rw ends (_, refl)

    expand-Ends : (t : Table V) → ((n : ℕ) → fresh n ≡ none) → Ends (ht_expand fresh t)
    unfolding ht_expand
    expand-Ends t out =
        on_both Ends (t.prime_index == 25) (λ _. (_, refl))
          (λ _. rw (out (prime (t.prime_index + 1))) (_, refl))

    store-Ends :
        (a b : Bool) (t : Table V) (key : Text) (value : V)
        → (t.load_limit ≤ t.entries_count → (n : ℕ) → fresh n ≡ none)
        → Ends (exmpp_ht_store a b fresh t key value)
    unfolding exmpp_ht_store
    store-Ends a b t key value out =
        on_both Ends (a && b)
          (λ _. then-Ends _ _ (
            on_both Ends (ltb t.load_limit (t.entries_count + 1))
              (λ full. expand-Ends (counted_up t) (out (ground (arith, full)))) (λ _. (_, refl))))
          (λ _. (_, refl))

    -- Whatever the allocations for the entry do, a store into a valid table that has not reached its
    -- load limit, or has no memory for a larger one, returns; and exmpp_ht_destroy on the table that
    -- it leaves frees, up to the order, what it would have freed before, and once more the new key and
    -- value if the entry could be allocated.
    pub exmpp_ht_destroy-exmpp_ht_store :
        (a b : Bool) (t : Table V) (key : Text) (value : V)
        → IsValid t
        → (t.load_limit ≤ t.entries_count → (n : ℕ) → fresh n ≡ none)
        → Returns (exmpp_ht_store a b fresh t key value) (λ r.
          Perm
            (exmpp_ht_destroy r.0.entries)
            (handed (a && b) key value ++ exmpp_ht_destroy t.entries))
    exmpp_ht_destroy-exmpp_ht_store a b t key value v out =
        let (r, run) = store-Ends a b t key value out in
        (r, run, subst (Post (Owned (a && b) t key value)) run (store-Owned a b t key value v))
