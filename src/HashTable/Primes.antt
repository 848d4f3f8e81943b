-- ===== src/HashTable/Primes.antt =====
-- The table sizes of exmpp_driver.c and the load limit of a size.
use hz_platform.Prelude.{
  ℕ, zero, suc, ◌+◌, ◌-◌, ◌*◌, ◌/◌, ◌%◌, ◌^◌, ◌≡◌, refl, ◌&&◌, ◌||◌, List, [], ◌∷◌, ltb, ◌==◌,
  if◌then◌else◌, get_or,
}

abbrev pub primes : List ℕ
primes =
    53 ∷ 97 ∷ 193 ∷ 389 ∷ 769 ∷ 1543 ∷ 3079 ∷ 6151 ∷ 12289 ∷ 24593 ∷ 49157 ∷ 98317 ∷ 196613 ∷ 393241
    ∷ 786433 ∷ 1572869 ∷ 3145739 ∷ 6291469 ∷ 12582917 ∷ 25165843 ∷ 50331653 ∷ 100663319 ∷ 201326611
    ∷ 402653189 ∷ 805306457 ∷ 1610612741 ∷ []

abbrev pub prime_table_length : ℕ
prime_table_length = 26

unfoldable pub prime : ℕ → ℕ
prime i = get_or primes i 0

-- The loop of exmpp_ht_create: the first size above the minimum, and its index.
unfoldable pub scan_primes : List ℕ → ℕ → ℕ → ℕ × ℕ
scan_primes [] i min_length = (i, 53)
scan_primes (p ∷ ps) i min_length =
    let rest = scan_primes ps (i + 1) min_length in if ltb min_length p then (i, p) else rest

unfoldable pub first_prime : ℕ → ℕ × ℕ
first_prime min_length = scan_primes primes 0 min_length

-- How often a number has to be halved to have 24 significant bits.
unfoldable pub excess : ℕ → ℕ → ℕ
excess zero n = 0
excess (suc fuel) n = let more = suc (excess fuel (n / 2)) in if ltb n (2 ^ 24) then 0 else more

-- Rounding to a single-precision float, ties to even; `n` may be scaled by a power of two.
unfoldable pub to_float : ℕ → ℕ
to_float n =
    let unit = 2 ^ excess 64 n in
    let q = n / unit in
    let r = n % unit in
    if ltb unit (2 * r) || (2 * r == unit && q % 2 == 1) then (q + 1) * unit else q * unit

-- `(unsigned int)ceil(length * 0.65f)`, the product being a float: 0.65f is 10905190 / 2^24.
unfoldable pub load_limit_of : ℕ → ℕ
load_limit_of len = (to_float (to_float len * 10905190) + (2 ^ 24 - 1)) / 2 ^ 24

limits :
    ◌≡◌ {A = List ℕ}
      (load_limit_of 53 ∷ load_limit_of 389 ∷ load_limit_of 1543 ∷ load_limit_of 1610612741 ∷ [])
      (35 ∷ 253 ∷ 1003 ∷ 1046898240 ∷ [])
unfolding load_limit_of to_float excess
limits = refl
