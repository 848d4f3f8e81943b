-- ===== src/Stringprep/Unicode/Cells.antt =====
-- Reading an array at an index inside it, and checks of all its cells or of a window of them.
use hz_platform.Prelude.{
  ℕ, zero, suc, ◌+◌, ◌<◌, ◌≡◌, refl, Bool, true, ◌&&◌, List, [], ◌∷◌, length, arith,
}
use hz_platform.Stringprep.Unicode.{element}

module _ {A : Type 0} where
  -- What lies behind the array is not read.
  pub element-inside :
      (xs : List A) (out out' : ℕ → A) (i : ℕ)
      → i < length xs
      → element xs out i ≡ element xs out' i
  unfolding element
  element-inside [] out out' i h = absurd (omega arith)
  element-inside (x ∷ xs) out out' zero h = refl
  element-inside (x ∷ xs) out out' (suc i) h = element-inside xs out out' i (omega arith)

  -- The cells of an array, from the one with number `k` on.
  unfoldable pub each : (ℕ → A → Bool) → ℕ → List A → Bool
  each p k [] = true
  each p k (x ∷ xs) = p k x && each p (suc k) xs

  pub each-element :
      (p : ℕ → A → Bool) (k : ℕ) (xs : List A) (out : ℕ → A) (i : ℕ)
      → each p k xs ≡ true
      → i < length xs
      → p (k + i) (element xs out i) ≡ true
  unfolding each element
  each-element p k [] out i h lt = absurd (omega arith)
  each-element p k (x ∷ xs) out zero h lt = ground (arith)
  each-element p k (x ∷ xs) out (suc i) h lt =
      let rest : each p (suc k) xs ≡ true = ground arith in
      let moved : k + suc i ≡ suc k + i = omega arith in
      rw moved (each-element p (suc k) xs out i rest (omega arith))

  -- `n` cells from number `m` on, which `p` counts from `k`.
  unfoldable pub window : (ℕ → A → Bool) → ℕ → ℕ → ℕ → List A → Bool
  window p m n k [] = true
  window p (suc m) n k (x ∷ xs) = window p m n k xs
  window p zero zero k (x ∷ xs) = true
  window p zero (suc n) k (x ∷ xs) = p k x && window p zero n (suc k) xs

  pub window-element :
      (p : ℕ → A → Bool) (m n k : ℕ) (xs : List A) (out : ℕ → A) (i : ℕ)
      → window p m n k xs ≡ true
      → i < n
      → m + i < length xs
      → p (k + i) (element xs out (m + i)) ≡ true
  unfolding window element
  window-element p m n k [] out i h lt inside = absurd (omega arith)
  window-element p (suc m) n k (x ∷ xs) out i h lt inside =
      let moved : suc m + i ≡ suc (m + i) = omega arith in
      rw moved (window-element p m n k xs out i h lt (omega arith))
  window-element p zero zero k (x ∷ xs) out i h lt inside = absurd (omega arith)
  window-element p zero (suc n) k (x ∷ xs) out zero h lt inside = ground arith
  window-element p zero (suc n) k (x ∷ xs) out (suc i) h lt inside =
      let rest : window p zero n (suc k) xs ≡ true = ground arith in
      let moved : k + suc i ≡ suc k + i = omega arith in
      let here : 0 + suc i ≡ suc (0 + i) = omega arith in
      rw (moved, here) (window-element p zero n (suc k) xs out i rest (omega arith) (omega arith))
