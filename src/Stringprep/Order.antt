-- ===== src/Stringprep/Order.antt =====
-- canonical_ordering of exmpp_stringprep.c. The array is cut behind `i`: the part up to `i` is kept
-- from `str[i]` back to `str[0]`. `cclass` is GetUniCharCClass.
pub mod Sorted
pub mod Stable
use hz_platform.Prelude.{
  ℕ, Bool, true, false, ◌&&◌, List, [], ◌∷◌, leb, ltb, ◌==◌, if◌then◌else◌, not,
}
use mathlib.Core.List.{reverse}

module _ (cclass : ℕ → ℕ) where
  -- The inner loop: `x` is swapped down to the first character whose class is not greater.
  unfoldable pub sink : ℕ → List ℕ → List ℕ
  sink x [] = x ∷ []
  sink x (y ∷ ys) = if leb (cclass y) (cclass x) then x ∷ y ∷ ys else y ∷ sink x ys

  unfoldable pub order_loop : List ℕ → ℕ → List ℕ → List ℕ
  order_loop done last [] = done
  order_loop done last (x ∷ xs) =
      let next = cclass x in
      let out_of_order = not (next == 0) && ltb next last in
      order_loop (if out_of_order then sink x done else x ∷ done)
        (if out_of_order then last else next) xs

  -- `str[0]` is read whatever the length is, so the driver never calls it on an empty string.
  unfoldable pub canonical_ordering : List ℕ → List ℕ
  canonical_ordering [] = []
  canonical_ordering (x ∷ xs) = reverse (order_loop (x ∷ []) (cclass x) xs)
