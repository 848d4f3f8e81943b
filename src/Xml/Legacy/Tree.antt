-- ===== src/Xml/Legacy/Tree.antt =====
-- The abstract side of the legacy driver: XML trees with plain names, the callbacks that Expat reports
-- for them, and the #xmlelement terms that the driver should build.
use hz_platform.Prelude.{ℕ, ◌≡◌, refl, List, [], ◌∷◌, ◌++◌, map, append_assoc}
use hz_platform.Ei.{Buff, Term, tuple, nil, cons, end, more, encode, list_header, empty_list}
use hz_platform.Text.{codes, counted}
use hz_platform.Xml.Encode.{Env}
use hz_platform.Xml.Build.Tree.{Naming, list_of, three, elem_term, xmlcdata}
use hz_platform.Xml.Legacy.{Callback, start_element, end_element, character_data}

mutual
  pub data Node : Type 0 where
    elem : List ℕ → List (List ℕ × List ℕ) → Nodes → Node
    text : List ℕ → Node

  pub data Nodes : Type 0 where
    leaf : Nodes
    also : Node → Nodes → Nodes

unfoldable mutual
  pub callbacks : Node → List Callback
  callbacks (elem name attrs kids) =
      start_element name attrs ∷ (callbacks_all kids ++ end_element name ∷ [])
  callbacks (text s) = character_data s ∷ []

  pub callbacks_all : Nodes → List Callback
  callbacks_all leaf = []
  callbacks_all (also n ns) = callbacks n ++ callbacks_all ns

-- {Name, Value}
abbrev pub attribute_term : List ℕ × List ℕ → Term
attribute_term (attr, value) = tuple (more (Term.binary attr) (more (Term.string value) end))

-- {xmlelement, Name, Attributes, Children}
unfoldable mutual
  pub to_term : Env → Naming → Node → Term
  to_term env o (elem name attrs kids) = tuple (
      more (Term.atom (codes "xmlelement")) (
        three (elem_term env o (counted name)) (list_of (map attribute_term attrs))
          (to_list env o kids)))
  to_term env o (text s) = xmlcdata s

  pub to_list : Env → Naming → Nodes → Term
  to_list env o leaf = nil
  to_list env o (also n ns) = cons (to_term env o n) (to_list env o ns)

-- The items of the children, without the end of the list.
unfoldable pub kid_items : Env → Naming → Nodes → Buff
kid_items env o leaf = []
kid_items env o (also n ns) = list_header 1 ∷ (encode (to_term env o n) ++ kid_items env o ns)

pub encode-to_list :
    (env : Env) (o : Naming) (ns : Nodes)
    → encode (to_list env o ns) ≡ kid_items env o ns ++ empty_list ∷ []
unfolding encode to_list kid_items
encode-to_list env o leaf = refl
encode-to_list env o (also n ns) = rw (encode-to_list env o ns, append_assoc)
