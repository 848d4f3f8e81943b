-- ===== src/Xml/Build/Stream.antt =====
-- A whole stream: opening tags down to the root depth, then stanzas, as in XMPP.
use hz_platform.Prelude.{
  ℕ, suc, ◌+◌, ◌≡◌, refl, ap, ◌∙◌, Bool, true, false, List, [], ◌∷◌, ◌++◌, append_assoc, append-nil,
  arith, ℤ, pos, negsuc, ◌||◌, is_minus_one, lt_ℤ, eq_ℤ, length,
}
use hz_platform.Ei.{Term, cons, encode, empty_list}
use hz_platform.Xml.Context.{Ctx}
use hz_platform.Xml.Encode.{Env}
use hz_platform.Xml.Build.{deeper}
use hz_platform.Xml.Build.Tree
use hz_platform.Xml.Build.Subtree.{feed-append}
use hz_platform.Xml.Build.Stanza.{ship, stanza, opens-above}

abbrev pub some_nodes : Tree.Nodes → Bool
some_nodes Tree.leaf = false
some_nodes (Tree.also n ns) = true

ready_once : (b c : Bool) → (b || true) ≡ (true || c)
ready_once true c = refl
ready_once false c = refl

-- With an empty tree in construction, at the root depth, the events of any sequence of nodes leave one term each in the list of complete
-- trees, in their order, and nothing in the tree in construction.
pub stanzas :
    (env : Env) (ns : Tree.Nodes) (ctx : Ctx)
    → ctx.current_tree ≡ []
    → eq_ℤ ctx.depth ctx.root_depth ≡ true
    → Tree.feed env (Tree.events_all ns) ctx ≡ record ctx {
      current_tree = [];
      complete_trees = ctx.complete_trees ++ Tree.kid_items env (Tree.naming ctx) ns;
      complete_trees_ready = some_nodes ns || ctx.complete_trees_ready;
    }
unfolding Tree.feed Tree.events Tree.kid_items
stanzas env Tree.leaf ctx empty h =
    ap (λ t. record ctx { current_tree = t }) empty
    ∙ ap (λ t. record ctx { current_tree = []; complete_trees = t }) (simp append-nil)
stanzas env (Tree.also n ns) ctx empty h =
    feed-append env (Tree.events n) (Tree.events_all ns) ctx
    ∙ ap (Tree.feed env (Tree.events_all ns)) (stanza env ctx empty n h)
    ∙ stanzas env ns (ship (encode (Tree.to_term env (Tree.naming ctx) n)) ctx) refl h
    ∙ ap
        (λ t. record ctx {
          current_tree = [];
          complete_trees = t;
          complete_trees_ready = some_nodes ns || true;
        })
        (append_assoc ctx.complete_trees _ _)
    ∙ ap
        (λ b. record ctx {
          current_tree = [];
          complete_trees =
              ctx.complete_trees ++ Tree.kid_items env (Tree.naming ctx) (Tree.also n ns);
          complete_trees_ready = b;
        })
        (ready_once (some_nodes ns) ctx.complete_trees_ready)

above_of_levels :
    (d n : ℕ) (r : ℤ) → eq_ℤ (d + suc n) r ≡ true → (is_minus_one r || lt_ℤ d r) ≡ true
above_of_levels d n (pos r) h = ground arith
above_of_levels d n (negsuc r) h = ground arith

next_level : (d n : ℕ) (r : ℤ) → eq_ℤ (d + suc n) r ≡ true → eq_ℤ (d + 1 + n) r ≡ true
next_level d n (pos r) h = ground arith
next_level d n (negsuc r) h = ground arith

last_level : (d : ℕ) (r : ℤ) → eq_ℤ (d + 0) r ≡ true → eq_ℤ d r ≡ true
last_level d (pos r) h = ground arith
last_level d (negsuc r) h = ground arith

-- The term of a stream: its opening tags, each without children, and the stanzas behind them.
unfoldable pub stream_term : Env → Tree.Naming → List Tree.Tag → Tree.Nodes → Term
stream_term env o [] ns = Tree.to_list env o ns
stream_term env o (tag ∷ tags) ns = cons (Tree.open_term env o tag) (stream_term env o tags ns)

unfoldable pub stream_events : List Tree.Tag → Tree.Nodes → List Tree.Event
stream_events [] ns = Tree.events_all ns
stream_events (tag ∷ tags) ns = Tree.opens tag ∷ stream_events tags ns

-- With an empty tree in construction, from a depth that is as many levels above the root depth as there are opening tags, the list of
-- complete trees, once it is terminated, gains exactly the items of the stream's terms.
pub stream :
    (env : Env) (tags : List Tree.Tag) (ns : Tree.Nodes) (ctx : Ctx)
    → ctx.current_tree ≡ []
    → eq_ℤ (ctx.depth + length tags) ctx.root_depth ≡ true
    → (Tree.feed env (stream_events tags ns) ctx).complete_trees ++ empty_list ∷ []
      ≡ ctx.complete_trees ++ encode (stream_term env (Tree.naming ctx) tags ns)
unfolding stream_events stream_term Tree.feed deeper encode
stream env [] ns ctx empty h =
    ap (λ c. c.complete_trees ++ empty_list ∷ [])
      (stanzas env ns ctx empty (last_level ctx.depth ctx.root_depth h))
    ∙ simp (append_assoc, Tree.encode-to_list)
stream env (tag ∷ tags) ns ctx empty h =
    let shipped = ship (encode (Tree.open_term env (Tree.naming ctx) tag)) ctx in
    ap (λ c. (Tree.feed env (stream_events tags ns) c).complete_trees ++ empty_list ∷ [])
      (opens-above env ctx empty tag (above_of_levels ctx.depth (length tags) ctx.root_depth h))
    ∙ stream env tags ns (deeper shipped) refl (next_level ctx.depth (length tags) ctx.root_depth h)
    ∙ simp append_assoc
