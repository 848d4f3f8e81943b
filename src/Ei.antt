-- ===== src/Ei.antt =====
-- The buffers of Erlang's `ei` library (ei_x_buff), which is not part of the repository: a buffer is
-- the sequence of the items that the drivers have encoded into it, each with its argument.
-- `ei_x_append` joins two buffers, and `index = 0` empties one. An `_encode_atom` or
-- `_encode_string` and its `_len` version are one item, over the bytes of the text; the one place where
-- a text may be too long for an atom is in Xml/Encode.
pub mod Decode
pub mod Input
use hz_platform.Prelude.{ℕ, List, [], ◌∷◌, ◌++◌, ℤ}

pub data Item : Type 0 where
  version : Item
  tuple_header : ℕ → Item
  list_header : ℕ → Item
  empty_list : Item
  atom : List ℕ → Item
  string : List ℕ → Item
  binary : List ℕ → Item
  long : ℤ → Item
  ulong : ℕ → Item

abbrev pub Buff : Type 0
Buff = List Item

-- Erlang terms, with lists as cons cells.
mutual
  pub data Term : Type 0 where
    atom : List ℕ → Term
    string : List ℕ → Term
    binary : List ℕ → Term
    tuple : Terms → Term
    nil : Term
    cons : Term → Term → Term

  pub data Terms : Type 0 where
    end : Terms
    more : Term → Terms → Terms

abbrev pub arity : Terms → ℕ
arity end = 0
arity (more t ts) = ℕ.suc (arity ts)

-- The items that stand for a term: the external format, in which a list may be written one
-- element at a time.
unfoldable mutual
  pub encode : Term → Buff
  encode (Term.atom s) = Item.atom s ∷ []
  encode (Term.string s) = Item.string s ∷ []
  encode (Term.binary s) = Item.binary s ∷ []
  encode (tuple ts) = tuple_header (arity ts) ∷ encode_all ts
  encode nil = empty_list ∷ []
  encode (cons h t) = list_header 1 ∷ (encode h ++ encode t)

  pub encode_all : Terms → Buff
  encode_all end = []
  encode_all (more t ts) = encode t ++ encode_all ts
