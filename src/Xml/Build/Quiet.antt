-- ===== src/Xml/Build/Quiet.antt =====
-- As long as no tree is ready, none has been added to the complete ones.
use hz_platform.Prelude.{
  ℕ, ◌≡◌, refl, ◌∙◌, false, ◌&&◌, List, [], ◌∷◌, Option, some, ltb, eq_ℤ, is_zero, on_both,
}
use mathlib.Core.Bool.{true≢false}
use hz_platform.Ei.{Buff, empty_list}
use hz_platform.Text.{Text}
use hz_platform.Xml.Context.{Ctx, reset_current_tree}
use hz_platform.Xml.Encode.{Env}
use hz_platform.Xml.Build.{
  Step, ◌>>=◌, success, put, formatted, start_node, ship_open, deeper, shallower,
  current_tree_finished, at_or_above, above, in_tree, close_children, add_declared, add_attributes,
  enter_element, leave_element, exit_element, add_character_data, make_attribute,
}
use hz_platform.Xml.Build.Tree

abbrev pub Quiet : Ctx → Ctx → Type 0
Quiet before after =
    after.complete_trees_ready ≡ false
    → (before.complete_trees_ready ≡ false) × (after.complete_trees ≡ before.complete_trees)

Quiet-trans : (a b c : Ctx) → Quiet a b → Quiet b c → Quiet a c
Quiet-trans a b c p q h = let (hb, e) = q h in let (ha, d) = p hb in (ha, e ∙ d)

finished-Quiet : (a ctx : Ctx) → Quiet a (current_tree_finished ctx)
unfolding current_tree_finished reset_current_tree
finished-Quiet a ctx h = absurd (true≢false h)

start_node-Quiet : (ctx : Ctx) → Quiet ctx (start_node ctx)
unfolding start_node
start_node-Quiet ctx =
    on_both (Quiet ctx) (at_or_above ctx) {x = ctx} (λ _ h. (h, refl)) (λ _ h. (h, refl))

ship_open-Quiet : (ctx : Ctx) → Quiet ctx (ship_open ctx)
unfolding ship_open
ship_open-Quiet ctx =
    on_both (Quiet ctx) (above ctx) {y = ctx} (λ _. finished-Quiet ctx _) (λ _ h. (h, refl))

shallower-Quiet : (ctx : Ctx) → Quiet ctx (shallower ctx)
unfolding shallower
shallower-Quiet ctx =
    on_both (Quiet ctx) (ltb 0 ctx.depth) {y = ctx} (λ _ h. (h, refl)) (λ _ h. (h, refl))

close_children-Quiet : (ctx : Ctx) → Quiet ctx (close_children ctx)
unfolding close_children
close_children-Quiet ctx =
    on_both (Quiet ctx) (eq_ℤ ctx.depth ctx.root_depth) (λ _. finished-Quiet ctx _)
      (λ _ h. (h, refl))

bind-Quiet :
    (ctx : Ctx) (s : Step) (f : Ctx → Step)
    → Quiet ctx s.0
    → ((c : Ctx) → Quiet c (f c).0)
    → Quiet ctx (s >>= f).0
bind-Quiet ctx (c, ret) f p q =
    on_both (λ (t : Step). Quiet ctx t.0) (is_zero ret) (λ _. Quiet-trans ctx c (f c).0 p (q c))
      (λ _. p)

module _ (env : Env) where
  walk-Quiet : (as' : List Tree.Attribute) (ctx : Ctx) → Quiet ctx (Tree.walk env as' ctx).0
  unfolding Tree.walk make_attribute
  walk-Quiet [] ctx h = (h, refl)
  walk-Quiet (a ∷ as') ctx h = walk-Quiet as' (make_attribute env a.ns a.name a.value ctx).0 h

  enter_element-Quiet :
      (ns : Option Text) (elem : Text) (nss : Buff) (as' : List Tree.Attribute) (ctx : Ctx)
      → Quiet ctx
          (enter_element env ns elem (formatted (some nss)) (some (Tree.walk env as')) ctx).0
  unfolding enter_element add_declared add_attributes deeper
  enter_element-Quiet ns elem nss as' ctx =
      Quiet-trans ctx (start_node ctx)
        (enter_element env ns elem (formatted (some nss)) (some (Tree.walk env as')) ctx).0
        (start_node-Quiet ctx)
        (bind-Quiet (start_node ctx) (Tree.walk env as' _)
          (λ c. success (deeper (ship_open (put (empty_list ∷ []) c)))) (walk-Quiet as' _)
          (λ c. ship_open-Quiet (put (empty_list ∷ []) c)))

  leave_element-Quiet :
      (ns : Option Text) (elem : Text) (ctx : Ctx) → Quiet ctx (leave_element env ns elem ctx).0
  unfolding leave_element
  leave_element-Quiet ns elem ctx =
      let IsQuiet = λ (s : Step). Quiet ctx s.0 in
      on_both IsQuiet (ctx.emit_endtag && above ctx) (λ _. finished-Quiet ctx _)
        (λ _.
          on_both IsQuiet (in_tree ctx) {y = success ctx} (λ _. close_children-Quiet ctx)
            (λ _ h. (h, refl)))

  character_data-Quiet : (s : List ℕ) (ctx : Ctx) → Quiet ctx (add_character_data env s ctx).0
  unfolding add_character_data
  character_data-Quiet s ctx =
      Quiet-trans ctx (start_node ctx) (add_character_data env s ctx).0 (start_node-Quiet ctx) (
        on_both (Quiet (start_node ctx)) (at_or_above (start_node ctx))
          (λ _. finished-Quiet (start_node ctx) _) (λ _ h. (h, refl)))

  handle-Quiet : (e : Tree.Event) (ctx : Ctx) → Quiet ctx (Tree.handle env e ctx)
  unfolding Tree.handle exit_element
  handle-Quiet (Tree.opens tag) ctx =
      enter_element-Quiet tag.ns tag.name (Tree.declare env ctx tag.declared []) tag.attributes ctx
  handle-Quiet (Tree.closes tag) ctx =
      Quiet-trans ctx (shallower ctx) (leave_element env tag.ns tag.name (shallower ctx)).0
        (shallower-Quiet ctx) (leave_element-Quiet tag.ns tag.name (shallower ctx))
  handle-Quiet (Tree.characters s) ctx = character_data-Quiet s ctx

  -- If no tree is ready behind some events, none was in front of them, and they have added none.
  pub feed-Quiet : (es : List Tree.Event) (ctx : Ctx) → Quiet ctx (Tree.feed env es ctx)
  unfolding Tree.feed
  feed-Quiet [] ctx = λ h. (h, refl)
  feed-Quiet (e ∷ es) ctx =
      Quiet-trans ctx (Tree.handle env e ctx) (Tree.feed env (e ∷ es) ctx) (handle-Quiet e ctx)
        (feed-Quiet es (Tree.handle env e ctx))
