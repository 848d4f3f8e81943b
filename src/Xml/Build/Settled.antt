-- ===== src/Xml/Build/Settled.antt =====
-- Between events, the tree in construction is empty wherever a new term is about to start.
use hz_platform.Prelude.{
  ℕ, ◌+◌, ◌-◌, ◌≡◌, refl, sym, ◌∙◌, true, false, List, [], ◌∷◌, arith, ℤ, pos, negsuc, ◌||◌, ◌&&◌,
  not, is_minus_one, le_ℤ, lt_ℤ, eq_ℤ, Bool-cases, inl, inr, ltb, on_both,
}
use mathlib.Core.Bool.{false≢true}
use mathlib.Core.Path.{subst}
use hz_platform.Ei.{list_header, tuple_header, atom, binary}
use hz_platform.Text.{codes}
use hz_platform.Xml.Context.{Ctx, reset_current_tree}
use hz_platform.Xml.Encode.{Env}
use hz_platform.Xml.Build.{
  Step, put, at_or_above, above, in_tree, deeper, shallower, start_node, ship_open, close_children,
  current_tree_finished, leave_element, exit_element, add_character_data,
}
use hz_platform.Xml.Build.Tree
use hz_platform.Xml.Build.Subtree.{opens_from}
use hz_platform.Xml.Build.Stanza.{put_nothing}

abbrev pub IsSettled : Ctx → Type 0
IsSettled ctx = at_or_above ctx ≡ true → ctx.current_tree ≡ []

deeper_tests :
    (d : ℕ) (r : ℤ)
    → (is_minus_one r || lt_ℤ d r) ≡ false
    → (is_minus_one r || le_ℤ (d + 1) r) ≡ true
    → ⊥
deeper_tests d (pos r) h k = ground arith
deeper_tests d (negsuc r) h k = ground arith

ship_open-IsSettled : (ctx : Ctx) → IsSettled (deeper (ship_open ctx))
unfolding ship_open deeper current_tree_finished reset_current_tree
ship_open-IsSettled ctx = elim (Bool-cases (above ctx)) [
  | inl up ↦ rw up (λ _. refl)
  | inr down ↦ rw down (λ k. absurd (deeper_tests ctx.depth ctx.root_depth down k))
]

before_shallower :
    (d : ℕ) (r : ℤ)
    → (is_minus_one r || lt_ℤ (d - 1) r) ≡ true
    → ltb 0 d ≡ true
    → (is_minus_one r || le_ℤ d r) ≡ true
before_shallower d (pos r) h k = ground arith
before_shallower d (negsuc r) h k = ground arith

above_at :
    (d : ℕ) (r : ℤ) → (is_minus_one r || lt_ℤ d r) ≡ true → (is_minus_one r || le_ℤ d r) ≡ true
above_at d (pos r) h = ground arith
above_at d (negsuc r) h = ground arith

-- Above the root depth nothing was in construction when the depth was taken back.
shallower_empty :
    (ctx : Ctx) → IsSettled ctx → above (shallower ctx) ≡ true → (shallower ctx).current_tree ≡ []
unfolding shallower
shallower_empty ctx s =
    on_both (λ c. above c ≡ true → c.current_tree ≡ []) (ltb 0 ctx.depth)
      (λ k h. s (before_shallower ctx.depth ctx.root_depth h k))
      (λ k h. s (above_at ctx.depth ctx.root_depth h))

inner_tests :
    (d : ℕ) (r : ℤ)
    → (not (is_minus_one r) && not (lt_ℤ d r)) ≡ true
    → eq_ℤ d r ≡ false
    → (is_minus_one r || le_ℤ d r) ≡ true
    → ⊥
inner_tests d (pos r) h k l = ground arith
inner_tests d (negsuc r) h k l = ground arith

outer_tests :
    (d : ℕ) (r : ℤ)
    → (not (is_minus_one r) && not (lt_ℤ d r)) ≡ false
    → (is_minus_one r || le_ℤ d r) ≡ true
    → (is_minus_one r || lt_ℤ d r) ≡ true
outer_tests d (pos r) h k = ground arith
outer_tests d (negsuc r) h k = ground arith

module _ (env : Env) where
  leave-IsSettled :
      (tag : Tree.Tag) (ctx : Ctx)
      → (above ctx ≡ true → ctx.current_tree ≡ [])
      → IsSettled (leave_element env tag.ns tag.name ctx).0
  unfolding leave_element close_children current_tree_finished reset_current_tree
  leave-IsSettled tag ctx empty =
      on_both {A = Step} (λ s. IsSettled s.0) (ctx.emit_endtag && above ctx) (λ _ _. refl)
        (λ _.
          on_both {A = Step} (λ s. IsSettled s.0) (in_tree ctx)
            (λ inner.
              on_both IsSettled (eq_ℤ ctx.depth ctx.root_depth) (λ _ _. refl)
                (λ off k. absurd (inner_tests ctx.depth ctx.root_depth inner off k)))
            (λ outer k. empty (outer_tests ctx.depth ctx.root_depth outer k)))

  opens-IsSettled : (tag : Tree.Tag) (ctx : Ctx) → IsSettled (Tree.handle env (Tree.opens tag) ctx)
  unfolding start_node
  opens-IsSettled tag ctx = elim (Bool-cases (at_or_above ctx)) [
    | inl up ↦
        subst IsSettled (sym (opens_from env tag [] ctx (rw up (sym (put_nothing ctx)))))
          (ship_open-IsSettled _)
    | inr down ↦
        subst IsSettled (sym (opens_from env tag (list_header 1 ∷ []) ctx (rw down)))
          (ship_open-IsSettled _)
  ]

  characters-IsSettled :
      (s : List ℕ) (ctx : Ctx) → IsSettled (Tree.handle env (Tree.characters s) ctx)
  unfolding Tree.handle add_character_data current_tree_finished reset_current_tree
  characters-IsSettled s ctx =
      let noted = put (tuple_header 2 ∷ atom (codes "xmlcdata") ∷ binary s ∷ []) (start_node ctx) in
      on_both IsSettled (at_or_above noted) {x = current_tree_finished noted} {y = noted}
        (λ _ _. refl) (λ down up. absurd (false≢true (sym down ∙ up)))

  -- If the tree in construction is empty whenever the depth is at or above the root depth, then it is
  -- so again behind any event, a closing tag without its opening tag and a split level of -1 included.
  pub handle-IsSettled :
      (e : Tree.Event) (ctx : Ctx) → IsSettled ctx → IsSettled (Tree.handle env e ctx)
  unfolding Tree.handle exit_element
  handle-IsSettled (Tree.opens tag) ctx s = opens-IsSettled tag ctx
  handle-IsSettled (Tree.closes tag) ctx s =
      leave-IsSettled tag (shallower ctx) (shallower_empty ctx s)
  handle-IsSettled (Tree.characters t) ctx s = characters-IsSettled t ctx

  pub feed-IsSettled :
      (es : List Tree.Event) (ctx : Ctx) → IsSettled ctx → IsSettled (Tree.feed env es ctx)
  unfolding Tree.feed
  feed-IsSettled [] ctx s = s
  feed-IsSettled (e ∷ es) ctx s =
      feed-IsSettled es (Tree.handle env e ctx) (handle-IsSettled e ctx s)
