-- ===== src/Xml/Legacy/Stanza.antt =====
-- What the legacy callbacks append below the root depth, and what they ship at it.
use hz_platform.Prelude.{
  ℕ, ◌≡◌, refl, sym, ap, ◌∙◌, true, false, List, [], ◌∷◌, ◌++◌, append_assoc, append-nil, map, eq_ℤ,
}
use hz_platform.Ei.{Buff, encode, list_header, empty_list, tuple_header, atom}
use hz_platform.Text.{codes, counted}
use hz_platform.Xml.Context.{Ctx}
use hz_platform.Xml.Encode.{Env, encode_attr}
use hz_platform.Xml.Build.{
  Step, ◌>>=◌, success, put, enter_element_legacy, exit_element_legacy, leave_element_legacy,
  add_character_data, make_attribute_legacy, at_or_above, deeper, add_attributes, start_node,
  ship_open, close_children,
}
use hz_platform.Xml.Build.Tree.{naming, list_of, elem_term, xmlcdata, handle}
use hz_platform.Xml.Build.Names.{encode_elem_lem}
use hz_platform.Xml.Build.Subtree.{
  put-put, cells, encode-list_of, below_tests, below_suc, shallower-deeper,
}
use hz_platform.Xml.Build.Stanza.{ship, finish_put, put_nothing, root_tests, characters_at}
use hz_platform.Xml.Legacy.{
  Callback, start_element, end_element, character_data, make_attributes, call, run_callbacks,
}
use hz_platform.Xml.Legacy.Tree

attributes_lem :
    (attrs : List (List ℕ × List ℕ)) (ctx : Ctx)
    → make_attributes attrs ctx ≡ success (put (cells (map Tree.attribute_term attrs)) ctx)
unfolding make_attributes make_attribute_legacy encode_attr encode
attributes_lem [] ctx = simp append-nil
attributes_lem ((attr, value) ∷ attrs) ctx =
    attributes_lem attrs (make_attribute_legacy (counted attr) (counted value) ctx).0
    ∙ simp append_assoc

module _ (env : Env) where
  -- The items of a term up to its children.
  abbrev head_items : Ctx → List ℕ → List (List ℕ × List ℕ) → Buff
  head_items ctx name attrs =
      tuple_header 4
      ∷ atom (codes "xmlelement")
      ∷ (encode (elem_term env (naming ctx) (counted name))
          ++ encode (list_of (map Tree.attribute_term attrs)))

  opened :
      (s : Step) (c : Ctx)
      → s ≡ success c
      → (s >>= λ listed. success (deeper (ship_open (put (empty_list ∷ []) listed)))).0
        ≡ deeper (ship_open (put (empty_list ∷ []) c))
  opened s c e =
      ap (λ r. (r >>= λ listed. success (deeper (ship_open (put (empty_list ∷ []) listed)))).0) e

  opens_from :
      (name : List ℕ) (attrs : List (List ℕ × List ℕ)) (b : Buff) (ctx : Ctx)
      → start_node ctx ≡ put b ctx
      → call env (start_element name attrs) ctx
        ≡ deeper (ship_open (put (b ++ head_items ctx name attrs) ctx))
  unfolding call enter_element_legacy add_attributes
  opens_from name attrs b ctx h =
      opened _ _ (attributes_lem attrs _) ∙ simp (h, encode_elem_lem, encode-list_of, append_assoc)

  -- Below the root depth.
  abbrev IsBelow : Ctx → Type 0
  IsBelow ctx = at_or_above ctx ≡ false

  module _ (ctx : Ctx) (h : IsBelow ctx) where
    opens_below :
        (name : List ℕ) (attrs : List (List ℕ × List ℕ))
        → call env (start_element name attrs) ctx
          ≡ deeper (put (list_header 1 ∷ head_items ctx name attrs) ctx)
    unfolding start_node ship_open
    opens_below name attrs =
        opens_from name attrs (list_header 1 ∷ []) ctx (rw h)
        ∙ rw (below_tests ctx.depth ctx.root_depth h).not_above

    closes_below :
        (name : List ℕ) (items : Buff)
        → call env (end_element name) (put items (deeper ctx)) ≡ put (items ++ empty_list ∷ []) ctx
    unfolding call exit_element_legacy leave_element_legacy close_children deeper
    closes_below name items =
        let tests = below_tests ctx.depth ctx.root_depth h in
        ap (λ c. (leave_element_legacy c).0) (shallower-deeper (put items ctx))
        ∙ rw (tests.has_root, tests.not_less, tests.not_equal) (simp append_assoc)

    characters_below :
        (s : List ℕ)
        → call env (character_data s) ctx ≡ put (list_header 1 ∷ encode (xmlcdata s)) ctx
    unfolding call add_character_data start_node encode
    characters_below s = rw h (simp (h, append_assoc))

  IsBelow-deeper : (b : Buff) (ctx : Ctx) → IsBelow ctx → IsBelow (deeper (put b ctx))
  unfolding deeper
  IsBelow-deeper b ctx h = below_suc ctx.depth ctx.root_depth h

  run_callbacks-append :
      (cs ds : List Callback) (ctx : Ctx)
      → run_callbacks env (cs ++ ds) ctx ≡ run_callbacks env ds (run_callbacks env cs ctx)
  unfolding run_callbacks
  run_callbacks-append [] ds ctx = refl
  run_callbacks-append (c ∷ cs) ds ctx = run_callbacks-append cs ds (call env c ctx)

mutual
  unfolding Tree.callbacks run_callbacks Tree.to_term Tree.kid_items encode deeper

  -- Below the root depth the callbacks of a node append one more child to the tree in construction.
  node_below :
      (env : Env) (n : Tree.Node) (ctx : Ctx)
      → IsBelow env ctx
      → run_callbacks env (Tree.callbacks n) ctx
        ≡ put (list_header 1 ∷ encode (Tree.to_term env (naming ctx) n)) ctx
  node_below env (Tree.text s) ctx h = characters_below env ctx h s
  node_below env (Tree.elem name attrs kids) ctx h =
      let c = put (list_header 1 ∷ head_items env ctx name attrs) ctx in
      ap (run_callbacks env (Tree.callbacks_all kids ++ end_element name ∷ []))
        (opens_below env ctx h name attrs)
      ∙ run_callbacks-append env (Tree.callbacks_all kids) (end_element name ∷ []) (deeper c)
      ∙ ap (call env (end_element name))
          (nodes_below env kids (deeper c) (IsBelow-deeper env [] c h))
      ∙ closes_below env c h name (Tree.kid_items env (naming ctx) kids)
      ∙ put-put _ _ ctx
      ∙ simp (Tree.encode-to_list, append_assoc, append-nil)

  nodes_below :
      (env : Env) (ns : Tree.Nodes) (ctx : Ctx)
      → IsBelow env ctx
      → run_callbacks env (Tree.callbacks_all ns) ctx ≡ put (Tree.kid_items env (naming ctx) ns) ctx
  nodes_below env Tree.leaf ctx h = simp append-nil
  nodes_below env (Tree.also n ns) ctx h =
      run_callbacks-append env (Tree.callbacks n) (Tree.callbacks_all ns) ctx
      ∙ ap (run_callbacks env (Tree.callbacks_all ns)) (node_below env n ctx h)
      ∙ nodes_below env ns _ h
      ∙ put-put _ _ ctx

module _ (env : Env) (ctx : Ctx) (empty : ctx.current_tree ≡ []) where
  opens_at :
      (name : List ℕ) (attrs : List (List ℕ × List ℕ))
      → eq_ℤ ctx.depth ctx.root_depth ≡ true
      → call env (start_element name attrs) ctx ≡ deeper (put (head_items env ctx name attrs) ctx)
  unfolding start_node ship_open
  opens_at name attrs h =
      let tests = root_tests ctx.depth ctx.root_depth h in
      opens_from env name attrs [] ctx (rw tests.no_header (sym (put_nothing ctx)))
      ∙ rw tests.not_above

  leaves_at :
      (items : Buff)
      → eq_ℤ ctx.depth ctx.root_depth ≡ true
      → leave_element_legacy (put items ctx) ≡ success (ship (items ++ empty_list ∷ []) ctx)
  unfolding leave_element_legacy close_children
  leaves_at items h =
      let tests = root_tests ctx.depth ctx.root_depth h in
      rw (tests.has_root, tests.not_less, tests.equal)
        (simp append_assoc (ap success (finish_put _ ctx empty)))

  -- At the root depth, with an empty tree in construction, the callbacks of a whole node append its
  -- term to the complete trees and mark them ready.
  pub node_at :
      (n : Tree.Node)
      → eq_ℤ ctx.depth ctx.root_depth ≡ true
      → run_callbacks env (Tree.callbacks n) ctx
        ≡ ship (encode (Tree.to_term env (naming ctx) n)) ctx
  unfolding Tree.callbacks run_callbacks Tree.to_term call exit_element_legacy deeper encode handle
  node_at (Tree.text s) h =
      characters_at env ctx empty s (root_tests ctx.depth ctx.root_depth h).no_header
  node_at (Tree.elem name attrs kids) h =
      let tests = root_tests ctx.depth ctx.root_depth h in
      let c = put (head_items env ctx name attrs) ctx in
      let k = Tree.kid_items env (naming ctx) kids in
      ap (run_callbacks env (Tree.callbacks_all kids ++ end_element name ∷ []))
        (opens_at name attrs h)
      ∙ run_callbacks-append env (Tree.callbacks_all kids) (end_element name ∷ []) (deeper c)
      ∙ ap (call env (end_element name)) (nodes_below env kids (deeper c) tests.kids_below)
      ∙ ap (λ d. (leave_element_legacy d).0) (shallower-deeper (put k c) ∙ put-put _ k ctx)
      ∙ ap (λ s. s.0) (leaves_at (head_items env ctx name attrs ++ k) h)
      ∙ ap (λ b. ship b ctx) (simp (Tree.encode-to_list, append_assoc, append-nil))

-- At the root depth, with an empty tree in construction, the callbacks of one or more nodes leave one
-- term each in the list of complete trees, in their order.
pub nodes_at :
    (env : Env) (n : Tree.Node) (ns : Tree.Nodes) (ctx : Ctx)
    → ctx.current_tree ≡ []
    → eq_ℤ ctx.depth ctx.root_depth ≡ true
    → run_callbacks env (Tree.callbacks_all (Tree.also n ns)) ctx ≡ record ctx {
      current_tree = [];
      complete_trees = ctx.complete_trees ++ Tree.kid_items env (naming ctx) (Tree.also n ns);
      complete_trees_ready = true;
    }
unfolding Tree.callbacks run_callbacks Tree.kid_items
nodes_at env n Tree.leaf ctx empty h =
    run_callbacks-append env (Tree.callbacks n) [] ctx
    ∙ node_at env ctx empty n h
    ∙ ap (λ b. ship b ctx) (simp append-nil)
nodes_at env n (Tree.also n' ns) ctx empty h =
    run_callbacks-append env (Tree.callbacks n) (Tree.callbacks_all (Tree.also n' ns)) ctx
    ∙ ap (run_callbacks env (Tree.callbacks_all (Tree.also n' ns))) (node_at env ctx empty n h)
    ∙ nodes_at env n' ns (ship (encode (Tree.to_term env (naming ctx) n)) ctx) refl h
    ∙ ap (λ t. record ctx { current_tree = []; complete_trees = t; complete_trees_ready = true })
        (append_assoc ctx.complete_trees _ _)
