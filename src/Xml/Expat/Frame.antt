-- ===== src/Xml/Expat/Frame.antt =====
-- No callback of the driver on Expat touches the size of the data or its limit.
use hz_platform.Prelude.{
  ℕ, ◌≡◌, refl, sym, ◌∙◌, List, [], ◌∷◌, Option, none, some, ltb, ◌&&◌, eq_ℤ, on_both,
}
use mathlib.Core.Path.{subst}
use hz_platform.Ei.{Buff, empty_list}
use hz_platform.Text.{Text, counted}
use hz_platform.Xml.Context.{Ctx, reset_current_tree}
use hz_platform.Xml.Encode.{Env}
use hz_platform.Xml.Build.{
  Step, ◌>>=◌, success, put, formatted, start_node, ship_open, deeper, shallower,
  current_tree_finished, at_or_above, above, in_tree, close_children, add_declared, add_attributes,
  enter_element, leave_element, exit_element, add_character_data, make_attribute,
}
use hz_platform.Xml.Expat.{
  Data, Callback, start_namespace, start_element, end_element, character_data, ns_of, split_name,
  make_attributes, call, run_callbacks, terminate_trees,
}

abbrev pub Frame : Ctx → Ctx → Type 0
Frame ctx ctx' = (ctx'.cur_size ≡ ctx.cur_size) × (ctx'.max_size ≡ ctx.max_size)

pub Frame-trans : (a b c : Ctx) → Frame a b → Frame b c → Frame a c
Frame-trans a b c (p, q) (r, s) = (r ∙ p, s ∙ q)

start_node-Frame : (ctx : Ctx) → Frame ctx (start_node ctx)
unfolding start_node
start_node-Frame ctx =
    on_both (Frame ctx) (at_or_above ctx) {x = ctx} (λ _. (refl, refl)) (λ _. (refl, refl))

ship_open-Frame : (ctx : Ctx) → Frame ctx (ship_open ctx)
unfolding ship_open current_tree_finished reset_current_tree
ship_open-Frame ctx =
    on_both (Frame ctx) (above ctx) {y = ctx} (λ _. (refl, refl)) (λ _. (refl, refl))

shallower-Frame : (ctx : Ctx) → Frame ctx (shallower ctx)
unfolding shallower
shallower-Frame ctx =
    on_both (Frame ctx) (ltb 0 ctx.depth) {y = ctx} (λ _. (refl, refl)) (λ _. (refl, refl))

close_children-Frame : (ctx : Ctx) → Frame ctx (close_children ctx)
unfolding close_children current_tree_finished reset_current_tree
close_children-Frame ctx =
    on_both (Frame ctx) (eq_ℤ ctx.depth ctx.root_depth) (λ _. (refl, refl)) (λ _. (refl, refl))

abbrev Listed : Ctx → Step → Type 0
Listed ctx run = (ctx' : Ctx) × (run ≡ success ctx') × Frame ctx ctx'

-- The end of enter_element, behind the attributes.
Listed-Frame :
    (ctx : Ctx) (run : Step)
    → Listed ctx run
    → Frame ctx (run >>= λ listed. success (deeper (ship_open (put (empty_list ∷ []) listed)))).0
unfolding deeper
Listed-Frame ctx run (ctx', same, frame) =
    let done = put (empty_list ∷ []) ctx' in
    subst
      (λ r.
        Frame ctx (r >>= λ listed. success (deeper (ship_open (put (empty_list ∷ []) listed)))).0)
      (sym same) (Frame-trans ctx done (deeper (ship_open done)) frame (ship_open-Frame done))

module _ (env : Env) where
  leave_element-Frame :
      (ns : Option Text) (elem : Text) (ctx : Ctx) → Frame ctx (leave_element env ns elem ctx).0
  unfolding leave_element current_tree_finished reset_current_tree
  leave_element-Frame ns elem ctx =
      let InFrame = λ (s : Step). Frame ctx s.0 in
      on_both InFrame (ctx.emit_endtag && above ctx) (λ _. (refl, refl))
        (λ _.
          on_both InFrame (in_tree ctx) {y = success ctx} (λ _. close_children-Frame ctx)
            (λ _. (refl, refl)))

  exit_element-Frame :
      (ns : Option Text) (elem : Text) (ctx : Ctx) → Frame ctx (exit_element env ns elem ctx).0
  unfolding exit_element
  exit_element-Frame ns elem ctx =
      Frame-trans ctx (shallower ctx) (leave_element env ns elem (shallower ctx)).0
        (shallower-Frame ctx) (leave_element-Frame ns elem (shallower ctx))

  character_data-Frame : (s : List ℕ) (ctx : Ctx) → Frame ctx (add_character_data env s ctx).0
  unfolding add_character_data current_tree_finished reset_current_tree
  character_data-Frame s ctx =
      Frame-trans ctx (start_node ctx) (add_character_data env s ctx).0 (start_node-Frame ctx) (
        on_both (Frame (start_node ctx)) (at_or_above (start_node ctx)) (λ _. (refl, refl))
          (λ _. (refl, refl)))

  make_attributes-Frame :
      (attrs : List (List ℕ × List ℕ)) (ctx : Ctx) → Listed ctx (make_attributes env attrs ctx)
  unfolding make_attributes make_attribute
  make_attributes-Frame [] ctx = (ctx, refl, (refl, refl))
  make_attributes-Frame ((attr, value) ∷ attrs) ctx =
      let (ctx', run, same) =
        make_attributes-Frame attrs
          (make_attribute env (ns_of (split_name attr).0) (counted (split_name attr).1)
            (counted value) ctx).0 in
      (ctx', run, same)

  enter_element-Frame :
      (ns : Option Text) (elem : Text) (nss : Buff) (attrs : List (List ℕ × List ℕ)) (ctx : Ctx)
      → Frame ctx
          (enter_element env ns elem
            (formatted (some nss))
            (some (make_attributes env attrs))
            ctx).0
  unfolding enter_element add_declared add_attributes
  enter_element-Frame ns elem nss attrs ctx =
      Frame-trans ctx (start_node ctx)
        (enter_element env ns elem (formatted (some nss)) (some (make_attributes env attrs)) ctx).0
        (start_node-Frame ctx)
        (Listed-Frame (start_node ctx) (make_attributes env attrs _)
          (make_attributes-Frame attrs _))

  module _ {P : Type 0} where
    call-Frame : (c : Callback) (edd : Data P) → Frame edd.ctx (call env c edd).ctx
    unfolding call
    call-Frame (start_namespace prefix none) edd = (refl, refl)
    call-Frame (start_namespace prefix (some uri)) edd = (refl, refl)
    call-Frame (start_element elem attrs) edd =
        enter_element-Frame (ns_of (split_name elem).0) (counted (split_name elem).1)
          edd.declared_nss attrs edd.ctx
    call-Frame (end_element elem) edd =
        exit_element-Frame (ns_of (split_name elem).0) (counted (split_name elem).1) edd.ctx
    call-Frame (character_data s) edd = character_data-Frame s edd.ctx

    pub run_callbacks-Frame :
        (cs : List Callback) (edd : Data P) → Frame edd.ctx (run_callbacks env cs edd).ctx
    unfolding run_callbacks
    run_callbacks-Frame [] edd = (refl, refl)
    run_callbacks-Frame (c ∷ cs) edd =
        Frame-trans edd.ctx (call env c edd).ctx (run_callbacks env (c ∷ cs) edd).ctx
          (call-Frame c edd) (run_callbacks-Frame cs (call env c edd))

pub terminate_trees-Frame : (ctx : Ctx) → Frame ctx (terminate_trees ctx)
unfolding terminate_trees
terminate_trees-Frame ctx =
    on_both (Frame ctx) ctx.complete_trees_ready {y = ctx} (λ _. (refl, refl)) (λ _. (refl, refl))
