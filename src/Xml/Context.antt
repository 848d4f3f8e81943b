-- ===== src/Xml/Context.antt =====
-- struct exmpp_xml_ctx of exmpp_xml.h, and the context functions of exmpp_xml.c.
-- The flags are only tested, so they are Booleans. `depth` and `cur_size` start at 0 and never fall
-- below. A pointer to a known list is its handle. The callbacks are arguments of the functions that
-- call them. A context that init_context has accepted has both buffers, so neither is NULL.
use hz_platform.Prelude.{
  ℕ, ◌+◌, Bool, true, false, [], ◌∷◌, ◌++◌, Option, none, some, ltb, ℤ, pos, negsuc, if◌then◌else◌,
}
use hz_platform.Ei.{Buff, version}

abbrev pub Handle : Type 0
Handle = ℕ

pub record Ctx : Type 0 where
  pub names_as_atom : Bool
  pub check_nss : Bool
  pub check_elems : Bool
  pub emit_endtag : Bool
  pub max_size : ℤ
  pub root_depth : ℤ
  pub known_nss : Option Handle
  pub known_elems : Option Handle
  pub cur_size : ℕ
  pub depth : ℕ
  pub current_tree : Buff
  pub complete_trees : Buff
  pub complete_trees_ready : Bool

-- ei_x_new_with_version
abbrev pub new_with_version : Buff
new_with_version = version ∷ []

-- The context after its allocations, `tree` and `trees` saying whether the two succeed.
unfoldable pub init_context : (tree trees : Bool) → Option Ctx
init_context false trees = none
init_context true false = none
init_context true true = some (record {
  names_as_atom = true;
  check_nss = false;
  check_elems = false;
  emit_endtag = false;
  max_size = negsuc 0;
  root_depth = pos 0;
  known_nss = none;
  known_elems = none;
  cur_size = 0;
  depth = 0;
  current_tree = [];
  complete_trees = new_with_version;
  complete_trees_ready = false;
})

unfoldable pub reset_current_tree : Ctx → Ctx
reset_current_tree ctx = record ctx { current_tree = [] }

unfoldable pub reset_complete_trees : Ctx → Ctx
reset_complete_trees ctx = record ctx {
  complete_trees_ready = false;
  complete_trees = [] ++ version ∷ [];
}

unfoldable pub reset_context : Ctx → Ctx
unfolding reset_current_tree reset_complete_trees
reset_context ctx =
    reset_complete_trees (reset_current_tree (record ctx { cur_size = 0; depth = 0 }))

unfoldable pub add_data_size : Ctx → ℕ → Ctx
add_data_size ctx size = record ctx { cur_size = ctx.cur_size + size }

-- `ctx->max_size > -1 && ctx->cur_size + size > ctx->max_size` refuses the data.
unfoldable pub is_data_size_under_limit : Ctx → ℕ → Bool
is_data_size_under_limit ctx size = elim ctx.max_size [
  | pos limit ↦ if ltb limit (ctx.cur_size + size) then false else true
  | negsuc n ↦ true
]

-- The buffers that free_context frees, in its order.
unfoldable pub free_context : Ctx → Buff × Buff
free_context ctx = (ctx.complete_trees, ctx.current_tree)
