-- ===== src/HashTable/Lookup.antt =====
-- Lookups after a store: the table is a map from keys to the value that was stored last.
use hz_platform.Prelude.{
  ℕ, zero, suc, ◌%◌, ◌<◌, ◌≡◌, refl, sym, ap, ◌∙◌, true, List, [], ◌∷◌, Option, some, ◌==◌,
  if◌then◌else◌, length, get_or, set, arith, Bool-cases, inl, inr, ==_iff, length-set,
}
use mathlib.Core.Bool.{false≢true}
use hz_platform.Text.{Text, counted, str_eq, up_to_nul}
use hz_platform.HashTable.{Entry, matches, find, wire, new_entry, ht_hash}

get_or-set {ℓ} :
    {A : Type ℓ} (xs : List A) (i j : ℕ) (v d : A)
    → i < length xs
    → get_or (set xs i v) j d ≡ (if i == j then v else get_or xs j d)
get_or-set [] i j v d h = absurd (omega arith)
get_or-set (x ∷ xs) zero zero v d h = ground arith
get_or-set (x ∷ xs) zero (suc j) v d h = ground arith
get_or-set (x ∷ xs) (suc i) zero v d h = ground arith
get_or-set (x ∷ xs) (suc i) (suc j) v d h = ground (arith, get_or-set xs i j v d)

module _ {ℓ} {V : Type ℓ} where
  abbrev pub fetch_in : List (List (Entry V)) → Text → Option V
  fetch_in heads key =
      find (get_or heads (ht_hash key.bytes % length heads) []) key (ht_hash key.bytes)

  matches-hash : (e : Entry V) (q : Text) (hash : ℕ) → matches e q hash ≡ true → e.hash ≡ hash
  unfolding matches
  matches-hash e q hash h = ground arith

  -- In an array of at least one bucket, wiring an entry changes the lookup of exactly the keys that
  -- match it, to its value.
  pub fetch-wire :
      (e : Entry V) (heads : List (List (Entry V))) (q : Text)
      → 0 < length heads
      → fetch_in (wire e heads) q
        ≡ (if matches e q (ht_hash q.bytes) then some e.value else fetch_in heads q)
  unfolding wire find
  fetch-wire e heads q wide =
      let i = e.hash % length heads in
      let j = ht_hash q.bytes % length heads in
      rw (length-set heads i _, get_or-set heads i j _ [] (omega arith))
        (elim (Bool-cases (i == j)) [
          | inl same ↦ rw same (rw ((==_iff i j).0 same))
          | inr other ↦ rw other (elim (Bool-cases (matches e q (ht_hash q.bytes))) [
            | inl hit ↦
                let same = (==_iff i j).1 (ap (λ h. h % length heads) (matches-hash e q _ hit)) in
                absurd (false≢true (sym other ∙ same))
            | inr miss ↦ rw miss
          ])
        ])

pub str_eq_iff-fwd : (a b : List ℕ) → str_eq a b ≡ true → a ≡ b
str_eq_iff-fwd [] [] h = refl
str_eq_iff-fwd [] (y ∷ b) h = cc
str_eq_iff-fwd (x ∷ a) [] h = cc
str_eq_iff-fwd (x ∷ a) (y ∷ b) h = ground (arith, str_eq_iff-fwd a b)

pub str_eq_self : (a : List ℕ) → str_eq a a ≡ true
str_eq_self [] = refl
str_eq_self (x ∷ a) = ground (arith, str_eq_self a)

-- A key without a 0 in it.
abbrev pub NulFree : List ℕ → Type 0
NulFree [] = Unit
NulFree (b ∷ bs) = (0 < b) × NulFree bs

up_to_nul_lem : (a : List ℕ) → NulFree a → up_to_nul a ≡ a
up_to_nul_lem [] h = refl
up_to_nul_lem (x ∷ a) h = ground (arith, up_to_nul_lem a h.1)

-- For keys without a 0 in them, an entry that is stored with its length is matched by the same bytes
-- with their length, and by no others: the hash is only a short cut.
pub matches-new_entry {ℓ} :
    {V : Type ℓ} (key q : List ℕ) (v : V)
    → NulFree key
    → NulFree q
    → matches (new_entry (counted key) v) (counted q) (ht_hash q) ≡ str_eq key q
unfolding matches new_entry
matches-new_entry key q v hk hq =
    rw (up_to_nul_lem key hk, up_to_nul_lem q hq)
      (elim (Bool-cases (str_eq key q)) [
        | inl same ↦
            rw same (let e = str_eq_iff-fwd key q same in ground (arith, ap ht_hash e, ap length e))
        | inr other ↦ rw other (ground arith)
      ])
