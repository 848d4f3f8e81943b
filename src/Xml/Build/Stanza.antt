-- ===== src/Xml/Build/Stanza.antt =====
-- What the handlers ship at and above the root depth: whole stanzas, and stand-alone tags.
use hz_platform.Prelude.{
  ℕ, ◌+◌, ◌≡◌, refl, sym, ap, ◌∙◌, Bool, true, false, List, [], ◌∷◌, ◌++◌, append_assoc, append-nil,
  arith, if◌then◌else◌, ℤ, pos, negsuc, ◌&&◌, ◌||◌, is_minus_one, le_ℤ, lt_ℤ, eq_ℤ, not,
}
use mathlib.Core.Bool.{and-false}
use hz_platform.Ei.{Buff, encode, list_header, empty_list}
use hz_platform.Xml.Context.{Ctx, reset_current_tree}
use hz_platform.Xml.Encode.{Env}
use hz_platform.Xml.Build.{
  success, put, exit_element, leave_element, add_character_data, at_or_above, above, deeper,
  start_node, ship_open, close_children, current_tree_finished,
}
use hz_platform.Xml.Build.Tree
use hz_platform.Xml.Build.Names.{encode_ns_lem, encode_elem_lem}
use hz_platform.Xml.Build.Subtree.{
  put-put, head_items, opens_from, events_all_below, shallower-deeper, feed-append,
}

-- One more term in the list for Erlang; the tree in construction is empty.
abbrev pub ship : Buff → Ctx → Ctx
ship items ctx = record ctx {
  current_tree = [];
  complete_trees = ctx.complete_trees ++ list_header 1 ∷ items;
  complete_trees_ready = true;
}

pub finish_put :
    (items : Buff) (ctx : Ctx)
    → ctx.current_tree ≡ []
    → current_tree_finished (put items ctx) ≡ ship items ctx
unfolding current_tree_finished reset_current_tree
finish_put items ctx h =
    ap
      (λ t. record ctx {
        current_tree = [];
        complete_trees = (ctx.complete_trees ++ list_header 1 ∷ []) ++ (t ++ items);
        complete_trees_ready = true;
      })
      h
    ∙ ap (λ t. record ctx { current_tree = []; complete_trees = t; complete_trees_ready = true })
        (append_assoc ctx.complete_trees _ items)

pub put_nothing : (ctx : Ctx) → put [] ctx ≡ ctx
put_nothing ctx = ap (λ t. record ctx { current_tree = t }) (append-nil ctx.current_tree)

-- The tests where the depth is the root depth, and where it is above it.
pub record RootTests (d : ℕ) (r : ℤ) : Type 0 where
  pub no_header : (is_minus_one r || le_ℤ d r) ≡ true
  pub not_above : (is_minus_one r || lt_ℤ d r) ≡ false
  pub has_root : is_minus_one r ≡ false
  pub not_less : lt_ℤ d r ≡ false
  pub equal : eq_ℤ d r ≡ true
  pub kids_below : (is_minus_one r || le_ℤ (d + 1) r) ≡ false

pub root_tests : (d : ℕ) (r : ℤ) → eq_ℤ d r ≡ true → RootTests d r
root_tests d (pos r) h = ground arith
root_tests d (negsuc r) h = ground arith

above_tests :
    (d : ℕ) (r : ℤ) → (is_minus_one r || lt_ℤ d r) ≡ true → (is_minus_one r || le_ℤ d r) ≡ true
above_tests d (pos r) h = ground arith
above_tests d (negsuc r) h = ground arith

above_in_tree :
    (d : ℕ) (r : ℤ)
    → (is_minus_one r || lt_ℤ d r) ≡ true
    → (not (is_minus_one r) && not (lt_ℤ d r)) ≡ false
above_in_tree d (pos r) h = ground arith
above_in_tree d (negsuc r) h = ground arith

choose :
    {A : Type 0} (e a : Bool) {x y x' y' : A}
    → a ≡ true
    → x ≡ x'
    → y ≡ y'
    → (if e && a then x else y) ≡ (if e then x' else y')
choose true a h p q = rw h p
choose false a h p q = q

first_of_either :
    (e : Bool) (c d : Ctx) → (if e then success c else success d).0 ≡ (if e then c else d)
first_of_either true c d = refl
first_of_either false c d = refl

module _ (env : Env) (ctx : Ctx) (empty : ctx.current_tree ≡ []) where
  -- Text at or above the root depth is a term of its own.
  pub characters_at :
      (s : List ℕ)
      → at_or_above ctx ≡ true
      → Tree.handle env (Tree.characters s) ctx ≡ ship (encode (Tree.xmlcdata s)) ctx
  unfolding Tree.handle add_character_data start_node encode
  characters_at s h = rw h (simp h (finish_put (encode (Tree.xmlcdata s)) ctx empty))

  -- Above the root depth, with an empty tree in construction, an opening tag appends a term without
  -- children to the complete trees, and the depth grows by one.
  pub opens-above :
      (tag : Tree.Tag)
      → above ctx ≡ true
      → Tree.handle env (Tree.opens tag) ctx
        ≡ deeper (ship (encode (Tree.open_term env (Tree.naming ctx) tag)) ctx)
  unfolding start_node ship_open Tree.open_term encode
  opens-above tag h =
      opens_from env tag [] ctx
        (rw (above_tests ctx.depth ctx.root_depth h) (sym (put_nothing ctx)))
      ∙ rw h (
          ap deeper (
            ap current_tree_finished (put-put _ _ ctx)
            ∙ finish_put _ ctx empty
            ∙ ap (λ b. ship b ctx) (simp append_assoc)))

  opens_at :
      (tag : Tree.Tag)
      → eq_ℤ ctx.depth ctx.root_depth ≡ true
      → Tree.handle env (Tree.opens tag) ctx ≡ deeper (put (head_items env ctx tag) ctx)
  unfolding start_node ship_open
  opens_at tag h =
      let tests = root_tests ctx.depth ctx.root_depth h in
      opens_from env tag [] ctx (rw tests.no_header (sym (put_nothing ctx))) ∙ rw tests.not_above

  leaves_above :
      (tag : Tree.Tag)
      → above ctx ≡ true
      → leave_element env tag.ns tag.name ctx ≡ (
          if ctx.emit_endtag
          then success (ship (encode (Tree.end_tag env (Tree.naming ctx) tag)) ctx)
          else success ctx)
  unfolding leave_element Tree.end_tag encode
  leaves_above tag h =
      choose ctx.emit_endtag (above ctx) h
        (ap success (
          simp (encode_ns_lem, encode_elem_lem, append_assoc)
            (finish_put _ ctx empty ∙ ap (λ b. ship b ctx) (simp append-nil))))
        (rw (above_in_tree ctx.depth ctx.root_depth h))

  -- One level below a level above the root depth, with an empty tree in construction, a closing tag
  -- gives back the depth; it appends a term of its own exactly if those are wanted.
  pub closes-above :
      (tag : Tree.Tag)
      → above ctx ≡ true
      → Tree.handle env (Tree.closes tag) (deeper ctx) ≡ (
          if ctx.emit_endtag
          then ship (encode (Tree.end_tag env (Tree.naming ctx) tag)) ctx
          else ctx)
  unfolding Tree.handle exit_element
  closes-above tag h =
      ap (λ c. (leave_element env tag.ns tag.name c).0) (shallower-deeper ctx)
      ∙ ap (λ s. s.0) (leaves_above tag h)
      ∙ first_of_either ctx.emit_endtag _ _

  leaves_at :
      (tag : Tree.Tag) (items : Buff)
      → eq_ℤ ctx.depth ctx.root_depth ≡ true
      → leave_element env tag.ns tag.name (put items ctx)
        ≡ success (ship (items ++ empty_list ∷ []) ctx)
  unfolding leave_element close_children
  leaves_at tag items h =
      let tests = root_tests ctx.depth ctx.root_depth h in
      rw (tests.not_above, tests.has_root, tests.not_less, tests.equal)
        (simp (and-false, append_assoc) (ap success (finish_put _ ctx empty)))

  -- At the root depth, with an empty tree in construction, the events of a whole node append its term
  -- to the complete trees, mark them ready, and leave the rest of the context as it was.
  pub stanza :
      (n : Tree.Node)
      → eq_ℤ ctx.depth ctx.root_depth ≡ true
      → Tree.feed env (Tree.events n) ctx ≡ ship (encode (Tree.to_term env (Tree.naming ctx) n)) ctx
  unfolding Tree.events Tree.feed Tree.to_term Tree.handle exit_element deeper encode
  stanza (Tree.text s) h = characters_at s (root_tests ctx.depth ctx.root_depth h).no_header
  stanza (Tree.elem tag kids) h =
      let tests = root_tests ctx.depth ctx.root_depth h in
      let c = put (head_items env ctx tag) ctx in
      let k = Tree.kid_items env (Tree.naming ctx) kids in
      ap (Tree.feed env (Tree.events_all kids ++ Tree.closes tag ∷ [])) (opens_at tag h)
      ∙ feed-append env (Tree.events_all kids) (Tree.closes tag ∷ []) (deeper c)
      ∙ ap (Tree.handle env (Tree.closes tag))
          (events_all_below env kids (deeper c) tests.kids_below)
      ∙ ap (λ d. (leave_element env tag.ns tag.name d).0)
          (shallower-deeper (put k c) ∙ put-put _ k ctx)
      ∙ ap (λ s. s.0) (leaves_at tag (head_items env ctx tag ++ k) h)
      ∙ ap (λ b. ship b ctx) (simp (Tree.encode-to_list, append_assoc, append-nil))
