-- ===== src/Xml/Expat/Replies.antt =====
-- What the driver answers to a chunk of a stream.
use hz_platform.Prelude.{
  ℕ, ◌+◌, ◌≡◌, sym, ap, ◌∙◌, true, false, List, [], ◌∷◌, ◌++◌, none, pos, length, eq_ℤ,
}
use hz_platform.Run.{ok}
use hz_platform.Ei.{encode, version, empty_list}
use hz_platform.Xml.Context.{
  Ctx, new_with_version, is_data_size_under_limit, add_data_size, reset_complete_trees,
}
use hz_platform.Xml.Encode.{Env, EiAtoms}
use hz_platform.Xml.Build.Tree
use hz_platform.Xml.Build.Stream.{stanzas}
use hz_platform.Xml.Known.{Known, Memory, env_of}
use hz_platform.Xml.Expat.{
  Library, Reply, parse, parse_data, parse_with, parsed, terminate_trees, parse_answer,
  exmpp_xml_control,
}
use hz_platform.Xml.Expat.Callbacks.{at, callbacks_all, AreReported, run_callbacks_lem}

module _ {P : Type 0} (lib : Library P) where
  -- The context behind a chunk of complete nodes.
  abbrev pub counted_up : Ctx → ℕ → Ctx
  counted_up ctx size = record ctx {
    cur_size = ctx.cur_size + size;
    current_tree = [];
    complete_trees = new_with_version;
    complete_trees_ready = false;
  }

  abbrev pub answer_of : Env → Tree.Naming → Tree.Nodes → Reply
  answer_of env o ns = record { ret = pos 0; items = version ∷ encode (Tree.to_list env o ns) }

  parsed_nodes :
      (env : Env) (n : Tree.Node) (ns : Tree.Nodes) (size : ℕ) (ctx : Ctx) (p : P)
      → ctx.current_tree ≡ []
      → ctx.complete_trees ≡ new_with_version
      → eq_ℤ ctx.depth ctx.root_depth ≡ true
      → parsed false size none (at env (Tree.feed env (Tree.events_all (Tree.also n ns)) ctx) p)
        ≡ (at env (counted_up ctx size) p, answer_of env (Tree.naming ctx) (Tree.also n ns))
  unfolding parsed terminate_trees parse_answer add_data_size reset_complete_trees
  parsed_nodes env n ns size ctx p empty fresh level =
      let kids = Tree.kid_items env (Tree.naming ctx) (Tree.also n ns) in
      ap (λ c. parsed false size none (at env c p)) (stanzas env (Tree.also n ns) ctx empty level)
      ∙ ap (λ t. (at env (counted_up ctx size) p, record { ret = pos 0; items = t }))
          (ap (λ t. (t ++ kids) ++ empty_list ∷ []) fresh
            ∙ ap (λ t. version ∷ t)
                (sym (Tree.encode-to_list env (Tree.naming ctx) (Tree.also n ns))))

  run_lem :
      (env : Env) (n : Tree.Node) (ns : Tree.Nodes) (buf : List ℕ) (ctx : Ctx) (p p' : P)
      → is_data_size_under_limit ctx (length buf) ≡ true
      → lib.xml_parse p buf false ≡ (p', callbacks_all (Tree.events_all (Tree.also n ns)), none)
      → AreReported (Tree.events_all (Tree.also n ns))
      → parse_data lib env false buf (at env ctx p)
        ≡ parsed false
            (length buf)
            none
            (at env (Tree.feed env (Tree.events_all (Tree.also n ns)) ctx) p')
  unfolding parse_data parse_with
  run_lem env n ns buf ctx p p' room run reported =
      rw (room, run) (ap (parsed false (length buf) none) (run_callbacks_lem env _ ctx p' reported))

  -- Suppose a chunk is under the size limit and Expat reports for it, without an error, the events of
  -- one or more complete nodes at the root depth, names and texts as Expat gives them. Then
  -- COMMAND_PARSE answers success with the list of exactly their terms in the external format, the
  -- tree in construction and the list of complete trees are empty again, and the size that the limit
  -- is compared with has grown by the length of the chunk: complete nodes do not reset it.
  pub parse_replies :
      (memory : Memory) (ei : EiAtoms) (known : Known) (n : Tree.Node) (ns : Tree.Nodes)
      (buf : List ℕ) (ctx : Ctx) (p p' : P)
      → ctx.current_tree ≡ []
      → ctx.complete_trees ≡ new_with_version
      → eq_ℤ ctx.depth ctx.root_depth ≡ true
      → is_data_size_under_limit ctx (length buf) ≡ true
      → lib.xml_parse p buf false ≡ (p', callbacks_all (Tree.events_all (Tree.also n ns)), none)
      → AreReported (Tree.events_all (Tree.also n ns))
      → exmpp_xml_control lib memory ei (parse buf) known (at (env_of ei known) ctx p)
        ≡ ok (
          known,
          at (env_of ei known) (counted_up ctx (length buf)) p',
          answer_of (env_of ei known) (Tree.naming ctx) (Tree.also n ns),
        )
  unfolding exmpp_xml_control
  parse_replies memory ei known n ns buf ctx p p' empty fresh level room run reported =
      let env = env_of ei known in
      ap (λ r. ok (known, r.0, r.1))
        (run_lem env n ns buf ctx p p' room run reported
          ∙ parsed_nodes env n ns (length buf) ctx p' empty fresh level)
