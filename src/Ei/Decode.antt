-- ===== src/Ei/Decode.antt =====
-- Reading a term back from its items.
use hz_platform.Prelude.{
  ℕ, zero, suc, ◌+◌, ◌<◌, ◌≡◌, refl, [], ◌∷◌, ◌++◌, Option, none, some, arith, append_assoc,
}
use hz_platform.Ei.{
  Item, Buff, Term, Terms, tuple, nil, cons, end, more, tuple_header, list_header, empty_list,
  arity, encode, encode_all,
}

infixl 5 ◌>>=◌
abbrev ◌>>=◌ : {A B : Type 0} → Option A → (A → Option B) → Option B
none >>= f = none
some a >>= f = f a

-- A reader of one term, given one for the elements of a tuple or a cell. The fuel is the depth.
reads_list : (Buff → Option (Term × Buff)) → ℕ → Buff → Option (Term × Buff)
reads_list read zero b = read b
reads_list read (suc n) b = do (h, b₁) ← read b; (t, b₂) ← reads_list read n b₁; some (cons h t, b₂)

reads_tuple : (Buff → Option (Term × Buff)) → ℕ → Buff → Option (Terms × Buff)
reads_tuple read zero b = some (end, b)
reads_tuple read (suc n) b = do
  (h, b₁) ← read b
  (t, b₂) ← reads_tuple read n b₁
  some (more h t, b₂)

pub decode : ℕ → Buff → Option (Term × Buff)
unfolding reads_list reads_tuple
decode zero b = none
decode (suc fuel) [] = none
decode (suc fuel) (Item.atom s ∷ b) = some (Term.atom s, b)
decode (suc fuel) (Item.string s ∷ b) = some (Term.string s, b)
decode (suc fuel) (Item.binary s ∷ b) = some (Term.binary s, b)
decode (suc fuel) (tuple_header n ∷ b) = do
  (ts, b') ← reads_tuple (decode fuel) n b
  some (tuple ts, b')
decode (suc fuel) (list_header n ∷ b) = reads_list (decode fuel) n b
decode (suc fuel) (empty_list ∷ b) = some (nil, b)
decode (suc fuel) (_ ∷ b) = none

-- The nesting of a term.
mutual
  pub depth : Term → ℕ
  depth (tuple ts) = suc (depth_all ts)
  depth (cons h t) = suc (depth h + depth t)
  depth _ = 1

  pub depth_all : Terms → ℕ
  depth_all end = 0
  depth_all (more t ts) = depth t + depth_all ts

depth-pos : (t : Term) → 0 < depth t
unfolding depth
depth-pos (Term.atom s) = omega arith
depth-pos (tuple ts) = omega arith
depth-pos (cons h t) = omega arith
depth-pos _ = omega arith

mutual
  unfolding decode encode depth

  -- A term is read back from its items, and what follows them is left.
  decode-encode :
      (t : Term) (fuel : ℕ) (rest : Buff)
      → depth t < fuel + 1
      → decode fuel (encode t ++ rest) ≡ some (t, rest)
  decode-encode t zero rest h = absurd (omega (arith, depth-pos t))
  decode-encode (Term.atom s) (suc fuel) rest h = refl
  decode-encode (Term.string s) (suc fuel) rest h = refl
  decode-encode (Term.binary s) (suc fuel) rest h = refl
  decode-encode (tuple ts) (suc fuel) rest h = rw (decode-encode_all ts fuel rest (omega arith))
  decode-encode nil (suc fuel) rest h = refl
  decode-encode (cons a b) (suc fuel) rest h = rw (
    append_assoc,
    decode-encode a fuel (encode b ++ rest) (omega arith),
    decode-encode b fuel rest (omega arith),
  )

  decode-encode_all :
      (ts : Terms) (fuel : ℕ) (rest : Buff)
      → depth_all ts < fuel + 1
      → reads_tuple (decode fuel) (arity ts) (encode_all ts ++ rest) ≡ some (ts, rest)
  decode-encode_all end fuel rest h = refl
  decode-encode_all (more t ts) fuel rest h = rw (
    append_assoc,
    decode-encode t fuel (encode_all ts ++ rest) (omega arith),
    decode-encode_all ts fuel rest (omega arith),
  )

-- A term is read back from its items, whatever follows them, with the term's nesting as fuel.
pub decode-encode_lem :
    (t : Term) (rest : Buff) → decode (depth t) (encode t ++ rest) ≡ some (t, rest)
decode-encode_lem t rest = decode-encode t (depth t) rest (omega arith)
