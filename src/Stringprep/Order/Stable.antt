-- ===== src/Stringprep/Order/Stable.antt =====
-- The ordering only exchanges characters of different classes, none of them 0.
use hz_platform.Prelude.{
  ℕ, ◌≡◌, ◌≢◌, refl, sym, ap, ◌∙◌, append_assoc, append-nil, on_both, ◌&&◌, ◌||◌, List, [], ◌∷◌,
  ◌++◌, leb, ltb, ◌==◌, if◌then◌else◌, not, arith, inl, inr, Bool-cases,
}
use mathlib.Core.List.{reverse, reverse-append, Perm, perm_middle, reverse_perm}
use mathlib.Core.List.Perm
use hz_platform.Stringprep.Order.{sink, order_loop, canonical_ordering}

moved : (x : ℕ) (done xs : List ℕ) → reverse (x ∷ done) ++ xs ≡ reverse done ++ x ∷ xs
moved x done xs =
    ap (λ l. l ++ xs) (reverse-append (x ∷ []) done) ∙ append_assoc (reverse done) (x ∷ []) xs

module _ (cclass : ℕ → ℕ) where
  -- The characters of one class and the starters, which have class 0, in their order.
  unfoldable pub of_class : ℕ → List ℕ → List ℕ
  of_class c [] = []
  of_class c (x ∷ xs) =
      let rest = of_class c xs in if cclass x == 0 || cclass x == c then x ∷ rest else rest

  of_class-append :
      (c : ℕ) (xs ys : List ℕ) → of_class c (xs ++ ys) ≡ of_class c xs ++ of_class c ys
  unfolding of_class
  of_class-append c [] ys = refl
  of_class-append c (x ∷ xs) ys = ground (arith, of_class-append c xs ys)

  snoc_one :
      (c x : ℕ) (l : List ℕ)
      → reverse l ++ of_class c (x ∷ [])
        ≡ reverse (if cclass x == 0 || cclass x == c then x ∷ l else l)
  unfolding of_class
  snoc_one c x l = elim (Bool-cases (cclass x == 0 || cclass x == c)) [
    | inl mine ↦ rw mine (sym (reverse-append (x ∷ []) l))
    | inr other ↦ rw other (append-nil (reverse l))
  ]

  -- On the reversed list a sunk character keeps its place among its class and the starters.
  of_class-sink :
      (c x : ℕ) (ys : List ℕ) → cclass x ≢ 0 → of_class c (sink cclass x ys) ≡ of_class c (x ∷ ys)
  unfolding of_class sink
  of_class-sink c x [] nz = refl
  of_class-sink c x (y ∷ ys) nz = ground (arith, of_class-sink c x ys nz)

  of_class-reverse : (c : ℕ) (l : List ℕ) → of_class c (reverse l) ≡ reverse (of_class c l)
  unfolding of_class
  of_class-reverse c [] = refl
  of_class-reverse c (x ∷ xs) =
      ap (of_class c) (reverse-append (x ∷ []) xs)
      ∙ of_class-append c (reverse xs) (x ∷ [])
      ∙ ap (λ l. l ++ of_class c (x ∷ [])) (of_class-reverse c xs)
      ∙ snoc_one c x (of_class c xs)

  same_front :
      (c : ℕ) (d e xs : List ℕ)
      → of_class c d ≡ of_class c e
      → of_class c (reverse d ++ xs) ≡ of_class c (reverse e ++ xs)
  same_front c d e xs h =
      simp (of_class-append, of_class-reverse) (ap (λ l. reverse l ++ of_class c xs) h)

  of_class-order_loop :
      (c : ℕ) (done : List ℕ) (last : ℕ) (xs : List ℕ)
      → of_class c (reverse (order_loop cclass done last xs)) ≡ of_class c (reverse done ++ xs)
  unfolding order_loop
  of_class-order_loop c done last [] = simp append-nil
  of_class-order_loop c done last (x ∷ xs) =
      (elim (Bool-cases (not (cclass x == 0) && ltb (cclass x) last)) [
        | inl out ↦ rw out (
            of_class-order_loop c (sink cclass x done) last xs
            ∙ same_front c (sink cclass x done) (x ∷ done) xs
                (of_class-sink c x done (ground arith))
            ∙ ap (of_class c) (moved x done xs))
        | inr fine ↦
            rw fine
              (of_class-order_loop c (x ∷ done) (cclass x) xs ∙ ap (of_class c) (moved x done xs))
      ])

  -- In canonical_ordering the characters of each class and the starters keep their order: nothing moves
  -- across a starter, and characters of one class are not exchanged.
  pub canonical_ordering-stable :
      (c : ℕ) (l : List ℕ) → of_class c (canonical_ordering cclass l) ≡ of_class c l
  unfolding canonical_ordering
  canonical_ordering-stable c [] = refl
  canonical_ordering-stable c (x ∷ xs) = of_class-order_loop c (x ∷ []) (cclass x) xs

  sink-Perm : (x : ℕ) (ys : List ℕ) → Perm (sink cclass x ys) (x ∷ ys)
  unfolding sink
  sink-Perm x [] = Perm.refl _
  sink-Perm x (y ∷ ys) =
      on_both (λ l. Perm l (x ∷ y ∷ ys)) (leb (cclass y) (cclass x)) (λ _. Perm.refl _)
        (λ _. Perm.trans (Perm.cons y (sink-Perm x ys)) (Perm.swap _ _ _))

  order_loop-Perm :
      (done : List ℕ) (last : ℕ) (xs : List ℕ) → Perm (order_loop cclass done last xs) (done ++ xs)
  unfolding order_loop
  order_loop-Perm done last [] = rw append-nil (Perm.refl done)
  order_loop-Perm done last (x ∷ xs) =
      elim (Bool-cases (not (cclass x == 0) && ltb (cclass x) last)) [
        | inl out ↦ rw out (
            Perm.trans (order_loop-Perm (sink cclass x done) last xs) (
              Perm.trans (Perm.append_right xs (sink-Perm x done))
                (Perm.symm (perm_middle done xs))))
        | inr fine ↦ rw fine (
            Perm.trans (order_loop-Perm (x ∷ done) (cclass x) xs) (Perm.symm (perm_middle done xs)))
      ]

  -- What canonical_ordering makes of a string has its characters, each as often as it.
  pub canonical_ordering-Perm : (l : List ℕ) → Perm (canonical_ordering cclass l) l
  unfolding canonical_ordering
  canonical_ordering-Perm [] = Perm.refl _
  canonical_ordering-Perm (x ∷ xs) =
      Perm.trans (reverse_perm _) (order_loop-Perm (x ∷ []) (cclass x) xs)
