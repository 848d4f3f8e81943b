-- ===== src/Stringprep/Order/Sorted.antt =====
-- The result is in canonical order.
use hz_platform.Prelude.{
  ℕ, ◌<◌, ◌≤◌, ◌≡◌, ◌≢◌, refl, append_assoc, ◌&&◌, List, [], ◌∷◌, ◌++◌, ltb, ◌==◌, not, arith, ◌⊎◌,
  inl, inr, Bool-cases,
}
use mathlib.Core.List.{reverse, reverse-append}
use hz_platform.Stringprep.Order.{sink, order_loop, canonical_ordering}

module _ (cclass : ℕ → ℕ) where
  -- `b` may stand behind `a`.
  abbrev pub Follows : ℕ → ℕ → Type 0
  Follows a b = (cclass b ≡ 0) ⊎ (cclass a ≤ cclass b)

  -- Neighbours in the canonical order, from left to right.
  abbrev pub IsOrdered : List ℕ → Type 0
  IsOrdered [] = Unit
  IsOrdered (a ∷ []) = Unit
  IsOrdered (a ∷ b ∷ l) = Follows a b × IsOrdered (b ∷ l)

  -- The same read from right to left.
  abbrev IsOrderedBack : List ℕ → Type 0
  IsOrderedBack [] = Unit
  IsOrderedBack (b ∷ []) = Unit
  IsOrderedBack (b ∷ a ∷ l) = Follows a b × IsOrderedBack (a ∷ l)

  abbrev Top : ℕ → List ℕ → Type 0
  Top last [] = ⊥
  Top last (y ∷ ys) = cclass y ≡ last

  sink-ordered :
      (x : ℕ) (ys : List ℕ) → IsOrderedBack ys → cclass x ≢ 0 → IsOrderedBack (sink cclass x ys)
  unfolding sink
  sink-ordered x [] h nz = tt
  sink-ordered x (y ∷ []) h nz = ground arith
  sink-ordered x (y ∷ z ∷ zs) h nz = ground (arith, sink-ordered x (z ∷ zs) h.1 nz)

  sink-Top :
      (x last : ℕ) (ys : List ℕ) → Top last ys → cclass x < last → Top last (sink cclass x ys)
  unfolding sink
  sink-Top x last [] h lt = absurd h
  sink-Top x last (y ∷ ys) h lt = ground arith

  push-ordered :
      (x last : ℕ) (done : List ℕ)
      → IsOrderedBack done
      → Top last done
      → (cclass x ≡ 0) ⊎ (last ≤ cclass x)
      → IsOrderedBack (x ∷ done)
  push-ordered x last [] h top f = tt
  push-ordered x last (y ∷ ys) h top f = (rw top f, h)

  order_loop-ordered :
      (done : List ℕ) (last : ℕ) (xs : List ℕ)
      → IsOrderedBack done
      → Top last done
      → IsOrderedBack (order_loop cclass done last xs)
  unfolding order_loop
  order_loop-ordered done last [] h top = h
  order_loop-ordered done last (x ∷ xs) h top =
      elim (Bool-cases (not (cclass x == 0) && ltb (cclass x) last)) [
        | inl out ↦ rw out (
            order_loop-ordered (sink cclass x done) last xs (sink-ordered x done h (ground arith))
              (sink-Top x last done top (ground arith)))
        | inr fine ↦ rw fine (
            order_loop-ordered (x ∷ done) (cclass x) xs
              (push-ordered x last done h top (ground arith)) refl)
      ]

  IsOrdered-snoc :
      (l : List ℕ) (a b : ℕ) → IsOrdered (l ++ a ∷ []) → Follows a b → IsOrdered (l ++ a ∷ b ∷ [])
  IsOrdered-snoc [] a b h f = (f, tt)
  IsOrdered-snoc (x ∷ []) a b h f = (h.0, (f, tt))
  IsOrdered-snoc (x ∷ y ∷ l) a b h f = (h.0, IsOrdered-snoc (y ∷ l) a b h.1 f)

  IsOrdered-reverse : (l : List ℕ) → IsOrderedBack l → IsOrdered (reverse l)
  IsOrdered-reverse [] h = tt
  IsOrdered-reverse (b ∷ []) h = tt
  IsOrdered-reverse (b ∷ a ∷ l) h =
      rw (reverse-append (b ∷ []) (a ∷ l), reverse-append (a ∷ []) l, append_assoc)
        (IsOrdered-snoc (reverse l) a b
          (rw (← reverse-append (a ∷ []) l) (IsOrdered-reverse (a ∷ l) h.1)) h.0)

  -- In what canonical_ordering makes of a string, no character of a class other than 0 stands directly
  -- behind one of a greater class.
  pub canonical_ordering-IsOrdered : (l : List ℕ) → IsOrdered (canonical_ordering cclass l)
  unfolding canonical_ordering
  canonical_ordering-IsOrdered [] = tt
  canonical_ordering-IsOrdered (x ∷ xs) =
      IsOrdered-reverse _ (order_loop-ordered (x ∷ []) (cclass x) xs tt refl)
