-- ===== src/Xml/Build.antt =====
-- The construction of Erlang terms of exmpp_xml.c, #xmlel records and the legacy #xmlelement ones.
-- A function returns the context and the C return code. A callback of the context, applied to its
-- `void *`, is a function on the context that returns the same.
pub mod Tree
pub mod Names
pub mod Subtree
pub mod Stanza
pub mod Stream
pub mod Settled
pub mod Graft
pub mod Quiet
use hz_platform.Prelude.{
  ℕ, ◌+◌, ◌-◌, Bool, true, false, List, [], ◌∷◌, ◌++◌, Option, none, some, ◌&&◌, ◌||◌, ltb, not,
  if◌then◌else◌, ℤ, pos, le_ℤ, lt_ℤ, eq_ℤ, is_minus_one, is_zero,
}
use hz_platform.Ei.{Item, Buff, tuple_header, list_header, empty_list, atom, string, binary}
use hz_platform.Text.{codes, Text}
use hz_platform.Xml.Context.{Ctx, reset_current_tree}
use hz_platform.Xml.Encode.{Env, encode_ns, encode_elem, encode_attr}

abbrev pub Step : Type 0
Step = Ctx × ℤ

-- `if (ret != 0) return (ret);`
infixl 5 ◌>>=◌
abbrev pub ◌>>=◌ : Step → (Ctx → Step) → Step
(ctx, ret) >>= f = if is_zero ret then f ctx else (ctx, ret)

abbrev pub success : Ctx → Step
success ctx = (ctx, pos 0)

-- What is encoded into `ctx->current_tree`.
abbrev pub put : Buff → Ctx → Ctx
put items ctx = record ctx { current_tree = ctx.current_tree ++ items }

unfoldable pub current_tree_finished : Ctx → Ctx
current_tree_finished ctx = reset_current_tree (record ctx {
  complete_trees = (ctx.complete_trees ++ list_header 1 ∷ []) ++ ctx.current_tree;
  complete_trees_ready = true;
})

-- `ctx->root_depth == -1 || ctx->depth <= ctx->root_depth`, and the same with `<`.
abbrev pub at_or_above : Ctx → Bool
at_or_above ctx = is_minus_one ctx.root_depth || le_ℤ ctx.depth ctx.root_depth

abbrev pub above : Ctx → Bool
above ctx = is_minus_one ctx.root_depth || lt_ℤ ctx.depth ctx.root_depth

-- The start of a node: above the root depth a new term, below it one more child.
unfoldable pub start_node : Ctx → Ctx
start_node ctx = if at_or_above ctx then ctx else put (list_header 1 ∷ []) ctx

-- Stand-alone elements are moved to the final list.
unfoldable pub ship_open : Ctx → Ctx
ship_open ctx =
    if above ctx then current_tree_finished (put (atom (codes "undefined") ∷ []) ctx) else ctx

unfoldable pub deeper : Ctx → Ctx
deeper ctx = record ctx { depth = ctx.depth + 1 }

-- `if (ctx->depth > 0) ctx->depth--;`
unfoldable pub shallower : Ctx → Ctx
shallower ctx = if ltb 0 ctx.depth then record ctx { depth = ctx.depth - 1 } else ctx

-- The declared namespaces: the callback applied to the list, or a buffer (`none` for NULL).
pub data Declared : Type 0 where
  walked : (Ctx → Step) → Declared
  formatted : Option Buff → Declared

unfoldable pub add_declared : Declared → Ctx → Step
add_declared (walked make_declared_nss) ctx = make_declared_nss ctx
add_declared (formatted none) ctx = success ctx
add_declared (formatted (some nss)) ctx = success (put nss ctx)

-- The attributes: `none` if the context has no callback for them.
unfoldable pub add_attributes : Option (Ctx → Step) → Ctx → Step
add_attributes none ctx = success ctx
add_attributes (some make_attributes) ctx = make_attributes ctx

-- Termination of the children list at the end of an element at or below the root depth.
unfoldable pub close_children : Ctx → Ctx
close_children ctx =
    let closed = put (empty_list ∷ []) ctx in
    if eq_ℤ closed.depth closed.root_depth then current_tree_finished closed else closed

-- `ctx->root_depth != -1 && ctx->depth >= ctx->root_depth`
abbrev pub in_tree : Ctx → Bool
in_tree ctx = not (is_minus_one ctx.root_depth) && not (lt_ℤ ctx.depth ctx.root_depth)

module _ (env : Env) where
  unfoldable pub enter_element : Option Text → Text → Declared → Option (Ctx → Step) → Ctx → Step
  enter_element ns elem declared_nss attributes ctx = do
    let opened = put (tuple_header 6 ∷ atom (codes "xmlel") ∷ []) (start_node ctx)
    declared ← add_declared declared_nss (put (encode_ns env opened ns) opened)
    let ended = put (empty_list ∷ []) declared
    listed ← add_attributes attributes (put (encode_elem env ended elem) ended)
    success (deeper (ship_open (put (empty_list ∷ []) listed)))

  -- The items of one declared namespace, for any buffer; a prefix that is not NULL is a text.
  unfoldable pub make_declared_ns_in_buf : Ctx → Option Text → Option Text → Buff → Buff
  make_declared_ns_in_buf ctx ns prefix buf =
      ((buf ++ list_header 1 ∷ tuple_header 2 ∷ []) ++ encode_ns env ctx ns)
      ++ (elim prefix [ none ↦ atom (codes "none") ∷ [] | some p ↦ string p.bytes ∷ [] ])

  unfoldable pub make_declared_ns : Option Text → Option Text → Ctx → Step
  make_declared_ns ns prefix ctx =
      success (record ctx { current_tree = make_declared_ns_in_buf ctx ns prefix ctx.current_tree })

  unfoldable pub make_attribute : Option Text → Text → Text → Ctx → Step
  make_attribute ns attr value ctx = success (
      put (binary value.bytes ∷ []) (
        put (encode_attr attr) (
          put (encode_ns env ctx ns)
            (put (list_header 1 ∷ tuple_header 4 ∷ atom (codes "xmlattr") ∷ []) ctx))))

  unfoldable pub add_character_data : List ℕ → Ctx → Step
  add_character_data text ctx =
      let noted =
        put (tuple_header 2 ∷ atom (codes "xmlcdata") ∷ binary text ∷ []) (start_node ctx) in
      success (if at_or_above noted then current_tree_finished noted else noted)

  -- exit_element behind the update of the depth.
  unfoldable pub leave_element : Option Text → Text → Ctx → Step
  leave_element ns elem ctx =
      if ctx.emit_endtag && above ctx
      then success (
          current_tree_finished (
            put (encode_elem env ctx elem) (
              put (encode_ns env ctx ns)
                (put (tuple_header 3 ∷ atom (codes "xmlendtag") ∷ []) ctx))))
      else (if in_tree ctx then success (close_children ctx) else success ctx)

  unfoldable pub exit_element : Option Text → Text → Ctx → Step
  exit_element ns elem ctx = leave_element ns elem (shallower ctx)

  unfoldable pub enter_element_legacy : Text → Option (Ctx → Step) → Ctx → Step
  enter_element_legacy elem attributes ctx = do
    let opened = put (tuple_header 4 ∷ atom (codes "xmlelement") ∷ []) (start_node ctx)
    listed ← add_attributes attributes (put (encode_elem env opened elem) opened)
    success (deeper (ship_open (put (empty_list ∷ []) listed)))

unfoldable pub make_attribute_legacy : Text → Text → Ctx → Step
make_attribute_legacy attr value ctx = success (
    put (string value.bytes ∷ [])
      (put (encode_attr attr) (put (list_header 1 ∷ tuple_header 2 ∷ []) ctx)))

unfoldable pub leave_element_legacy : Ctx → Step
leave_element_legacy ctx = if in_tree ctx then success (close_children ctx) else success ctx

unfoldable pub exit_element_legacy : Ctx → Step
exit_element_legacy ctx = leave_element_legacy (shallower ctx)
