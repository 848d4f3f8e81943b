-- ===== src/Xml/Libxml2/Replies.antt =====
-- What the driver on libxml2 answers to a chunk of a stream.
use hz_platform.Prelude.{
  ℕ, ◌+◌, ◌≡◌, sym, ap, ◌∙◌, true, false, List, [], ◌∷◌, ◌++◌, none, some, pos, length, eq_ℤ, map,
}
use hz_platform.Run.{ok}
use hz_platform.Ei.{encode, version, empty_list}
use hz_platform.Xml.Context.{
  Ctx, new_with_version, is_data_size_under_limit, add_data_size, reset_complete_trees,
}
use hz_platform.Xml.Encode.{Env, EiAtoms}
use hz_platform.Xml.Build.Tree
use hz_platform.Xml.Build.Stream.{stanzas}
use hz_platform.Xml.Known.{Known, Memory, env_of}
use hz_platform.Xml.Expat.{Reply, terminate_trees, parse_answer}
use hz_platform.Xml.Libxml2.{
  Library, Data, parse, parse_data, parse_with, parsed, exmpp_xml_control,
}
use hz_platform.Xml.Libxml2.Callbacks.{callback, AreReported, run_callbacks_lem}

abbrev items_of : Env → Tree.Naming → Tree.Nodes → Reply
items_of env o ns = record { ret = pos 0; items = version ∷ encode (Tree.to_list env o ns) }

module _ {P : Type 0} (lib : Library P) where
  -- The driver's data with a parser, and the same behind a chunk of complete nodes.
  abbrev pub with_parser : Ctx → P → Data P
  with_parser ctx p = record { ctx = ctx; parser = some p }

  abbrev pub advanced : Ctx → ℕ → P → Data P
  advanced ctx size p =
      with_parser
        (record ctx {
          cur_size = ctx.cur_size + size;
          current_tree = [];
          complete_trees = new_with_version;
          complete_trees_ready = false;
        })
        p

  nodes_lem :
      (env : Env) (n : Tree.Node) (ns : Tree.Nodes) (size : ℕ) (ctx : Ctx) (p : P)
      → ctx.current_tree ≡ []
      → ctx.complete_trees ≡ new_with_version
      → eq_ℤ ctx.depth ctx.root_depth ≡ true
      → parsed false size none
          (with_parser (Tree.feed env (Tree.events_all (Tree.also n ns)) ctx) p)
        ≡ (advanced ctx size p, items_of env (Tree.naming ctx) (Tree.also n ns))
  unfolding parsed terminate_trees parse_answer add_data_size reset_complete_trees
  nodes_lem env n ns size ctx p empty fresh level =
      let kids = Tree.kid_items env (Tree.naming ctx) (Tree.also n ns) in
      ap (λ c. parsed false size none (with_parser c p))
        (stanzas env (Tree.also n ns) ctx empty level)
      ∙ ap (λ t. (advanced ctx size p, record { ret = pos 0; items = t }))
          (ap (λ t. (t ++ kids) ++ empty_list ∷ []) fresh
            ∙ ap (λ t. version ∷ t)
                (sym (Tree.encode-to_list env (Tree.naming ctx) (Tree.also n ns))))

  -- Suppose that there is a parser and no tree in construction or complete, that a chunk is under the
  -- size limit, and that libxml2 reports for it, without an error, the events of one or more complete
  -- nodes at the root depth, names ending with a 0 and values by their length. Then COMMAND_PARSE
  -- answers success with the list of exactly their terms, the tree in construction and the list of
  -- complete trees are empty again, and the size has grown by the length of the chunk. In these terms a
  -- name that is written as an atom is whole up to MAXATOMLEN bytes; as the names come without a length,
  -- a longer one may be written as an atom too, and is then what ei cuts it to. ei is taken to encode
  -- names of up to MAXATOMLEN bytes as they are.
  pub chunk_replies :
      (memory : Memory) (ei : EiAtoms) (known : Known) (n : Tree.Node) (ns : Tree.Nodes)
      (buf : List ℕ) (ctx : Ctx) (p p' : P)
      → ctx.current_tree ≡ []
      → ctx.complete_trees ≡ new_with_version
      → eq_ℤ ctx.depth ctx.root_depth ≡ true
      → is_data_size_under_limit ctx (length buf) ≡ true
      → lib.parse_chunk p buf false ≡ (p', map callback (Tree.events_all (Tree.also n ns)), none)
      → AreReported (Tree.events_all (Tree.also n ns))
      → exmpp_xml_control lib memory ei (parse buf) known (with_parser ctx p)
        ≡ ok (
          known,
          advanced ctx (length buf) p',
          record {
            ret = pos 0;
            items =
                version
                ∷ encode (Tree.to_list (env_of ei known) (Tree.naming ctx) (Tree.also n ns));
          },
        )
  unfolding exmpp_xml_control parse_data parse_with
  chunk_replies memory ei known n ns buf ctx p p' empty fresh level room run reported =
      let env = env_of ei known in
      rw (room, run)
        (ap (λ c. let r = parsed false (length buf) none (with_parser c p') in ok (known, r.0, r.1))
            (run_callbacks_lem env (Tree.events_all (Tree.also n ns)) ctx reported)
          ∙ ap (λ r. ok (known, r.0, r.1))
              (nodes_lem env n ns (length buf) ctx p' empty fresh level))
