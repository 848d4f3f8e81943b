-- ===== src/Xml/Build/Graft.antt =====
-- The construction does not depend on the trees that are complete already, nor on the size: what an
-- event adds to a context it adds to the same context with more trees in front.
use hz_platform.Prelude.{
  ℕ, ◌-◌, ◌≡◌, refl, ap, ◌∙◌, Bool, true, false, ◌&&◌, ◌||◌, List, [], ◌∷◌, ◌++◌, append_assoc,
  Option, some, if◌then◌else◌, ltb, eq_ℤ, is_zero,
}
use hz_platform.Ei.{Buff, list_header, empty_list, tuple_header, atom, binary}
use hz_platform.Text.{Text, codes}
use hz_platform.Xml.Context.{Ctx, reset_current_tree}
use hz_platform.Xml.Encode.{Env, encode_ns, encode_elem}
use hz_platform.Xml.Build.{
  Step, ◌>>=◌, success, put, formatted, start_node, ship_open, deeper, shallower,
  current_tree_finished, at_or_above, above, in_tree, close_children, add_declared, add_attributes,
  enter_element, leave_element, exit_element, add_character_data, make_attribute,
  make_declared_ns_in_buf,
}
use hz_platform.Xml.Build.Tree

if_map {ℓ κ} :
    {A : Type ℓ} {B : Type κ} (f : A → B) (b : Bool) (x y : A)
    → (if b then f x else f y) ≡ f (if b then x else y)
if_map f true x y = refl
if_map f false x y = refl

or_true : (b : Bool) → true ≡ (b || true)
or_true true = refl
or_true false = refl

module _ (size : ℕ) (trees : Buff) (ready : Bool) where
  -- The context with `trees` in front of its complete trees.
  abbrev pub graft : Ctx → Ctx
  graft ctx = record ctx {
    cur_size = size;
    complete_trees = trees ++ ctx.complete_trees;
    complete_trees_ready = ready || ctx.complete_trees_ready;
  }

  abbrev graft_step : Step → Step
  graft_step s = (graft s.0, s.1)

  bind-graft :
      (s : Step) (f : Ctx → Step)
      → ((ctx : Ctx) → f (graft ctx) ≡ graft_step (f ctx))
      → (graft_step s >>= f) ≡ graft_step (s >>= f)
  bind-graft (ctx, ret) f same =
      ap (λ t. if is_zero ret then t else (graft ctx, ret)) (same ctx)
      ∙ if_map graft_step (is_zero ret) (f ctx) (ctx, ret)

  finished-graft :
      (ctx : Ctx) → current_tree_finished (graft ctx) ≡ graft (current_tree_finished ctx)
  unfolding current_tree_finished reset_current_tree
  finished-graft ctx =
      let finish = λ (t : Buff) (b : Bool). record ctx {
        cur_size = size;
        current_tree = [];
        complete_trees = t;
        complete_trees_ready = b;
      } in
      ap (λ t. finish t true)
        (ap (λ l. l ++ ctx.current_tree)
            (append_assoc trees ctx.complete_trees (list_header 1 ∷ []))
          ∙ append_assoc trees (ctx.complete_trees ++ list_header 1 ∷ []) ctx.current_tree)
      ∙ ap (finish (trees ++ ((ctx.complete_trees ++ list_header 1 ∷ []) ++ ctx.current_tree)))
          (or_true ready)

  start_node-graft : (ctx : Ctx) → start_node (graft ctx) ≡ graft (start_node ctx)
  unfolding start_node
  start_node-graft ctx = if_map graft (at_or_above ctx) ctx (put (list_header 1 ∷ []) ctx)

  shallower-graft : (ctx : Ctx) → shallower (graft ctx) ≡ graft (shallower ctx)
  unfolding shallower
  shallower-graft ctx = if_map graft (ltb 0 ctx.depth) (record ctx { depth = ctx.depth - 1 }) ctx

  -- A tree that is finished if a test says so.
  finished_if :
      (b : Bool) (done other : Ctx)
      → (if b then current_tree_finished (graft done) else graft other)
        ≡ graft (if b then current_tree_finished done else other)
  finished_if b done other =
      ap (λ t. if b then t else graft other) (finished-graft done)
      ∙ if_map graft b (current_tree_finished done) other

  ship_open-graft : (ctx : Ctx) → ship_open (graft ctx) ≡ graft (ship_open ctx)
  unfolding ship_open
  ship_open-graft ctx = finished_if (above ctx) (put (atom (codes "undefined") ∷ []) ctx) ctx

  close_children-graft : (ctx : Ctx) → close_children (graft ctx) ≡ graft (close_children ctx)
  unfolding close_children
  close_children-graft ctx =
      let closed = put (empty_list ∷ []) ctx in
      finished_if (eq_ℤ ctx.depth ctx.root_depth) closed closed

  module _ (env : Env) where
    character_data-graft :
        (s : List ℕ) (ctx : Ctx)
        → add_character_data env s (graft ctx) ≡ graft_step (add_character_data env s ctx)
    unfolding add_character_data
    character_data-graft s ctx =
        let noted = λ (c : Ctx). put (tuple_header 2 ∷ atom (codes "xmlcdata") ∷ binary s ∷ []) c in
        let now = noted (start_node ctx) in
        ap
          (λ c.
            success (if at_or_above (noted c) then current_tree_finished (noted c) else noted c))
          (start_node-graft ctx)
        ∙ ap success (finished_if (at_or_above now) now now)

    walk-graft :
        (as' : List Tree.Attribute) (ctx : Ctx)
        → Tree.walk env as' (graft ctx) ≡ graft_step (Tree.walk env as' ctx)
    unfolding Tree.walk make_attribute encode_ns
    walk-graft [] ctx = refl
    walk-graft (a ∷ as') ctx = walk-graft as' (make_attribute env a.ns a.name a.value ctx).0

    declare-graft :
        (ctx : Ctx) (ds : List Tree.Declaration) (buf : Buff)
        → Tree.declare env (graft ctx) ds buf ≡ Tree.declare env ctx ds buf
    unfolding Tree.declare make_declared_ns_in_buf encode_ns
    declare-graft ctx [] buf = refl
    declare-graft ctx (d ∷ ds) buf =
        declare-graft ctx ds (make_declared_ns_in_buf env ctx d.ns d.prefix buf)

    -- enter_element behind its first step.
    entered : Option Text → Text → Buff → (Ctx → Step) → Ctx → Step
    unfolding add_declared add_attributes
    entered ns elem nss attributes start = do
      let opened = put (tuple_header 6 ∷ atom (codes "xmlel") ∷ []) start
      let declared = put nss (put (encode_ns env opened ns) opened)
      let ended = put (empty_list ∷ []) declared
      listed ← attributes (put (encode_elem env ended elem) ended)
      success (deeper (ship_open (put (empty_list ∷ []) listed)))

    entered-graft :
        (ns : Option Text) (elem : Text) (nss : Buff) (as' : List Tree.Attribute) (ctx : Ctx)
        → entered ns elem nss (Tree.walk env as') (graft ctx)
          ≡ graft_step (entered ns elem nss (Tree.walk env as') ctx)
    unfolding entered encode_ns encode_elem deeper
    entered-graft ns elem nss as' start =
        let opened = put (tuple_header 6 ∷ atom (codes "xmlel") ∷ []) start in
        let declared = put nss (put (encode_ns env opened ns) opened) in
        let ended = put (empty_list ∷ []) declared in
        let finish = λ (c : Ctx). success (deeper (ship_open (put (empty_list ∷ []) c))) in
        ap (λ s. s >>= finish) (walk-graft as' (put (encode_elem env ended elem) ended))
        ∙ bind-graft (Tree.walk env as' (put (encode_elem env ended elem) ended)) finish
            (λ c. ap (λ d. success (deeper d)) (ship_open-graft (put (empty_list ∷ []) c)))

    enter_element-graft :
        (ns : Option Text) (elem : Text) (nss : Buff) (as' : List Tree.Attribute) (ctx : Ctx)
        → enter_element env ns elem (formatted (some nss)) (some (Tree.walk env as')) (graft ctx)
          ≡ graft_step
              (enter_element env ns elem (formatted (some nss)) (some (Tree.walk env as')) ctx)
    unfolding enter_element add_declared add_attributes entered
    enter_element-graft ns elem nss as' ctx =
        ap (entered ns elem nss (Tree.walk env as')) (start_node-graft ctx)
        ∙ entered-graft ns elem nss as' (start_node ctx)

    leave_element-graft :
        (ns : Option Text) (elem : Text) (ctx : Ctx)
        → leave_element env ns elem (graft ctx) ≡ graft_step (leave_element env ns elem ctx)
    unfolding leave_element encode_ns encode_elem
    leave_element-graft ns elem ctx =
        let ended =
          put (encode_elem env ctx elem) (
            put (encode_ns env ctx ns)
              (put (tuple_header 3 ∷ atom (codes "xmlendtag") ∷ []) ctx)) in
        let closed = if in_tree ctx then success (close_children ctx) else success ctx in
        ap
          (λ t.
            if ctx.emit_endtag && above ctx
            then success t
            else (if in_tree ctx
                then success (close_children (graft ctx))
                else success (graft ctx)))
          (finished-graft ended)
        ∙ ap
            (λ t.
              if ctx.emit_endtag && above ctx
              then success (graft (current_tree_finished ended))
              else (if in_tree ctx then success t else success (graft ctx)))
            (close_children-graft ctx)
        ∙ ap
            (λ t.
              if ctx.emit_endtag && above ctx
              then success (graft (current_tree_finished ended))
              else t)
            (if_map graft_step (in_tree ctx) (success (close_children ctx)) (success ctx))
        ∙ if_map graft_step (ctx.emit_endtag && above ctx) (success (current_tree_finished ended))
            closed

    handle-graft :
        (e : Tree.Event) (ctx : Ctx) → Tree.handle env e (graft ctx) ≡ graft (Tree.handle env e ctx)
    unfolding Tree.handle exit_element
    handle-graft (Tree.opens tag) ctx =
        ap
          (λ nss.
            (enter_element env tag.ns tag.name (formatted (some nss))
              (some (Tree.walk env tag.attributes)) (graft ctx)).0)
          (declare-graft ctx tag.declared [])
        ∙ ap (λ s. s.0)
            (enter_element-graft tag.ns tag.name (Tree.declare env ctx tag.declared [])
              tag.attributes ctx)
    handle-graft (Tree.closes tag) ctx =
        ap (λ c. (leave_element env tag.ns tag.name c).0) (shallower-graft ctx)
        ∙ ap (λ s. s.0) (leave_element-graft tag.ns tag.name (shallower ctx))
    handle-graft (Tree.characters s) ctx = ap (λ s'. s'.0) (character_data-graft s ctx)

    -- The events add the same to a context with more trees in front.
    pub feed-graft :
        (es : List Tree.Event) (ctx : Ctx)
        → Tree.feed env es (graft ctx) ≡ graft (Tree.feed env es ctx)
    unfolding Tree.feed
    feed-graft [] ctx = refl
    feed-graft (e ∷ es) ctx =
        ap (Tree.feed env es) (handle-graft e ctx) ∙ feed-graft es (Tree.handle env e ctx)
