-- ===== src/Xml/Build/Subtree.antt =====
-- What the handlers append below the root depth: the children of a tree in construction.
use hz_platform.Prelude.{
  ℕ, ◌+◌, ◌≡◌, refl, sym, ap, ◌∙◌, false, List, [], ◌∷◌, ◌++◌, Option, none, some, append_assoc,
  append-nil, arith, map, ℤ, pos, negsuc, ◌||◌, is_minus_one, le_ℤ, lt_ℤ, eq_ℤ, lt→ltb,
}
use hz_platform.Ei.{Buff, Term, encode, list_header, empty_list, tuple_header, atom}
use mathlib.Core.Bool.{and-false}
use hz_platform.Text.{codes, Text}
use hz_platform.Xml.Context.{Ctx}
use hz_platform.Xml.Encode.{Env, encode_attr}
use hz_platform.Xml.Build.{
  Step, ◌>>=◌, success, put, enter_element, exit_element, add_character_data, make_attribute,
  make_declared_ns_in_buf, at_or_above, deeper, shallower, add_declared, add_attributes, start_node,
  ship_open, close_children, leave_element,
}
use hz_platform.Xml.Build.Tree
use hz_platform.Xml.Build.Names.{encode_ns_lem, encode_elem_lem}

pub put-put : (a b : Buff) (ctx : Ctx) → put b (put a ctx) ≡ put (a ++ b) ctx
put-put a b ctx = ap (λ t. record ctx { current_tree = t }) (append_assoc ctx.current_tree a b)

-- The items of a list's elements, without the end of the list.
abbrev pub cells : List Term → Buff
cells [] = []
cells (t ∷ ts) = list_header 1 ∷ (encode t ++ cells ts)

pub encode-list_of : (ts : List Term) → encode (Tree.list_of ts) ≡ cells ts ++ empty_list ∷ []
unfolding encode
encode-list_of [] = refl
encode-list_of (t ∷ ts) =
    ap (λ b. list_header 1 ∷ b)
      (ap (λ b. encode t ++ b) (encode-list_of ts) ∙ sym (append_assoc (encode t) (cells ts) _))

-- The tests at a depth below the root depth.
pub record BelowTests (d : ℕ) (r : ℤ) : Type 0 where
  pub not_above : (is_minus_one r || lt_ℤ d r) ≡ false
  pub has_root : is_minus_one r ≡ false
  pub not_less : lt_ℤ d r ≡ false
  pub not_equal : eq_ℤ d r ≡ false

pub below_tests : (d : ℕ) (r : ℤ) → (is_minus_one r || le_ℤ d r) ≡ false → BelowTests d r
below_tests d (pos r) h = ground arith
below_tests d (negsuc r) h = ground arith

pub below_suc :
    (d : ℕ) (r : ℤ)
    → (is_minus_one r || le_ℤ d r) ≡ false
    → (is_minus_one r || le_ℤ (d + 1) r) ≡ false
below_suc d (pos r) h = ground arith
below_suc d (negsuc r) h = ground arith

pub shallower-deeper : (ctx : Ctx) → shallower (deeper ctx) ≡ ctx
unfolding shallower deeper
shallower-deeper ctx =
    rw (lt→ltb 0 (ctx.depth + 1) (omega arith)) (ap (λ d. record ctx { depth = d }) (omega arith))

module _ (env : Env) where
  make_attribute_lem :
      (ctx : Ctx) (a : Tree.Attribute)
      → make_attribute env a.ns a.name a.value ctx
        ≡ success (put (cells (Tree.attribute_term env (Tree.naming ctx) a ∷ [])) ctx)
  unfolding make_attribute encode_attr encode
  make_attribute_lem ctx a = simp (encode_ns_lem, append_assoc, append-nil)

  walk_lem :
      (as' : List Tree.Attribute) (ctx : Ctx)
      → Tree.walk env as' ctx
        ≡ success (put (cells (map (Tree.attribute_term env (Tree.naming ctx)) as')) ctx)
  unfolding Tree.walk
  walk_lem [] ctx = simp append-nil
  walk_lem (a ∷ as') ctx =
      rw make_attribute_lem (rw (walk_lem as') (simp (append_assoc, append-nil)))

  make_declared_ns_in_buf_lem :
      (ctx : Ctx) (ns prefix : Option Text) (buf : Buff)
      → make_declared_ns_in_buf env ctx ns prefix buf
        ≡ buf
          ++ cells (
              Tree.declaration_term env (Tree.naming ctx) (record { ns = ns; prefix = prefix })
              ∷ [])
  unfolding make_declared_ns_in_buf encode
  make_declared_ns_in_buf_lem ctx ns none buf = simp (encode_ns_lem, append_assoc, append-nil)
  make_declared_ns_in_buf_lem ctx ns (some p) buf = simp (encode_ns_lem, append_assoc, append-nil)

  declare_lem :
      (ctx : Ctx) (ds : List Tree.Declaration) (buf : Buff)
      → Tree.declare env ctx ds buf
        ≡ buf ++ cells (map (Tree.declaration_term env (Tree.naming ctx)) ds)
  unfolding Tree.declare
  declare_lem ctx [] buf = simp append-nil
  declare_lem ctx (d ∷ ds) buf =
      rw (declare_lem ctx ds, make_declared_ns_in_buf_lem) (simp (append_assoc, append-nil))

  open_after :
      (s : Step) (c : Ctx)
      → s ≡ success c
      → (s >>= λ listed. success (deeper (ship_open (put (empty_list ∷ []) listed)))).0
        ≡ deeper (ship_open (put (empty_list ∷ []) c))
  open_after s c e =
      ap (λ r. (r >>= λ listed. success (deeper (ship_open (put (empty_list ∷ []) listed)))).0) e

  -- The items of an #xmlel record up to its children.
  abbrev pub head_items : Ctx → Tree.Tag → Buff
  head_items ctx tag =
      tuple_header 6
      ∷ atom (codes "xmlel")
      ∷ (encode (Tree.ns_term env (Tree.naming ctx) tag.ns)
          ++ (encode (Tree.list_of (map (Tree.declaration_term env (Tree.naming ctx)) tag.declared))
              ++ (encode (Tree.elem_term env (Tree.naming ctx) tag.name)
                  ++ encode (
                      Tree.list_of
                        (map (Tree.attribute_term env (Tree.naming ctx)) tag.attributes)))))

  -- Whatever the depth, the element's head goes behind what `start_node` leaves.
  pub opens_from :
      (tag : Tree.Tag) (b : Buff) (ctx : Ctx)
      → start_node ctx ≡ put b ctx
      → Tree.handle env (Tree.opens tag) ctx
        ≡ deeper (ship_open (put (b ++ head_items ctx tag) ctx))
  unfolding Tree.handle enter_element add_declared add_attributes
  opens_from tag b ctx h =
      open_after _ _ (walk_lem tag.attributes _)
      ∙ simp (h, encode_ns_lem, encode_elem_lem, declare_lem, encode-list_of, append_assoc)

  -- Below the root depth.
  abbrev pub IsBelow : Ctx → Type 0
  IsBelow ctx = at_or_above ctx ≡ false

  module _ (ctx : Ctx) (h : IsBelow ctx) where
    opens_below :
        (tag : Tree.Tag)
        → Tree.handle env (Tree.opens tag) ctx
          ≡ deeper (put (list_header 1 ∷ head_items ctx tag) ctx)
    unfolding start_node ship_open
    opens_below tag =
        opens_from tag (list_header 1 ∷ []) ctx (rw h)
        ∙ rw (below_tests ctx.depth ctx.root_depth h).not_above

    leaves_below :
        (tag : Tree.Tag) (items : Buff)
        → leave_element env tag.ns tag.name (put items ctx)
          ≡ success (put (items ++ empty_list ∷ []) ctx)
    unfolding leave_element close_children
    leaves_below tag items =
        let tests = below_tests ctx.depth ctx.root_depth h in
        rw (tests.not_above, tests.has_root, tests.not_less, tests.not_equal)
          (simp (and-false, append_assoc))

    closes_below :
        (tag : Tree.Tag) (items : Buff)
        → Tree.handle env (Tree.closes tag) (put items (deeper ctx))
          ≡ put (items ++ empty_list ∷ []) ctx
    unfolding Tree.handle exit_element deeper
    closes_below tag items =
        ap (λ c. (leave_element env tag.ns tag.name c).0) (shallower-deeper (put items ctx))
        ∙ ap (λ s. s.0) (leaves_below tag items)

    characters_below :
        (s : List ℕ)
        → Tree.handle env (Tree.characters s) ctx
          ≡ put (list_header 1 ∷ encode (Tree.xmlcdata s)) ctx
    unfolding Tree.handle add_character_data start_node encode
    characters_below s = rw h (simp (h, append_assoc))

  IsBelow-deeper : (b : Buff) (ctx : Ctx) → IsBelow ctx → IsBelow (deeper (put b ctx))
  unfolding deeper
  IsBelow-deeper b ctx h = below_suc ctx.depth ctx.root_depth h

  pub feed-append :
      (es fs : List Tree.Event) (ctx : Ctx)
      → Tree.feed env (es ++ fs) ctx ≡ Tree.feed env fs (Tree.feed env es ctx)
  unfolding Tree.feed
  feed-append [] fs ctx = refl
  feed-append (e ∷ es) fs ctx = feed-append es fs (Tree.handle env e ctx)

mutual
  unfolding Tree.events Tree.feed Tree.to_term Tree.kid_items encode deeper

  -- Below the root depth the events of a node append one more child to the tree in construction:
  -- the items of its term, and nothing else of the context changes.
  events_below :
      (env : Env) (n : Tree.Node) (ctx : Ctx)
      → IsBelow env ctx
      → Tree.feed env (Tree.events n) ctx
        ≡ put (list_header 1 ∷ encode (Tree.to_term env (Tree.naming ctx) n)) ctx
  events_below env (Tree.text s) ctx h = characters_below env ctx h s
  events_below env (Tree.elem tag kids) ctx h =
      let c = put (list_header 1 ∷ head_items env ctx tag) ctx in
      ap (Tree.feed env (Tree.events_all kids ++ Tree.closes tag ∷ [])) (opens_below env ctx h tag)
      ∙ feed-append env (Tree.events_all kids) (Tree.closes tag ∷ []) (deeper c)
      ∙ ap (Tree.handle env (Tree.closes tag))
          (events_all_below env kids (deeper c) (IsBelow-deeper env [] c h))
      ∙ closes_below env c h tag (Tree.kid_items env (Tree.naming ctx) kids)
      ∙ put-put _ _ ctx
      ∙ simp (Tree.encode-to_list, append_assoc, append-nil)

  pub events_all_below :
      (env : Env) (ns : Tree.Nodes) (ctx : Ctx)
      → IsBelow env ctx
      → Tree.feed env (Tree.events_all ns) ctx ≡ put (Tree.kid_items env (Tree.naming ctx) ns) ctx
  events_all_below env Tree.leaf ctx h = simp append-nil
  events_all_below env (Tree.also n ns) ctx h =
      feed-append env (Tree.events n) (Tree.events_all ns) ctx
      ∙ ap (Tree.feed env (Tree.events_all ns)) (events_below env n ctx h)
      ∙ events_all_below env ns _ h
      ∙ put-put _ _ ctx
