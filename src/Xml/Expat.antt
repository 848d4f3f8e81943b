-- ===== src/Xml/Expat.antt =====
-- lib/exmpp-0.9.8-05-g6987a0a/c_src/exmpp_xml_expat.c, a driver on Expat. Expat is not part of the
-- repository: a parser is a value of a type `P`, and a run of it reports the callbacks that it calls,
-- in their order. Memory is available, but Expat may fail to create a parser.
pub mod Callbacks
pub mod Frame
pub mod Limit
pub mod Replies
pub mod Chunk
pub mod Added
pub mod Session
use hz_platform.Prelude.{
  ℕ, Bool, true, false, List, [], ◌∷◌, ◌++◌, Option, none, some, ℤ, pos, negsuc, not, ◌==◌, length,
  if◌then◌else◌,
}
use hz_platform.Run.{Run, ok, ◌>>=◌}
use hz_platform.Ei.{Buff, version, tuple_header, empty_list, atom, string, long}
use hz_platform.Text.{Text, codes, counted}
use hz_platform.Xml.Context.{
  Ctx, new_with_version, init_context, reset_context, reset_complete_trees, free_context,
  add_data_size, is_data_size_under_limit,
}
use hz_platform.Xml.Encode.{Env, EiAtoms}
use hz_platform.Xml.Build.{
  Step, success, formatted, enter_element, exit_element, add_character_data, make_attribute,
  make_declared_ns_in_buf,
}
use hz_platform.Xml.Known.{Known, Memory, env_of}
use hz_platform.Xml.Known
use hz_platform.Xml.Control

-- What Expat calls, NULL as `none`; the attributes as names with their values.
pub data Callback : Type 0 where
  start_namespace : (prefix uri : Option (List ℕ)) → Callback
  start_element : List ℕ → List (List ℕ × List ℕ) → Callback
  end_element : List ℕ → Callback
  character_data : List ℕ → Callback

-- XML_ParserCreate_MM, XML_ParserReset and XML_Parse, which gives the parser behind the run, what it
-- calls, and the code and the text of its error, if any.
pub record Library (P : Type 0) : Type 0 where
  pub create : Option P
  pub reset : P → P
  pub xml_parse : P → List ℕ → Bool → P × List Callback × Option (ℤ × List ℕ)

pub record Data (P : Type 0) : Type 0 where
  pub ctx : Ctx
  pub parser : Option P
  pub declared_nss : Buff

pub data Command : Type 0 where
  parse parse_final : List ℕ → Command
  reset_parser port_revision : Command
  shared : Known.Command → Buff → Command

-- The byte in front of the answer, and the answer.
pub record Reply : Type 0 where
  pub ret : ℤ
  pub items : Buff

abbrev pub put_in_front : ℕ → Option (List ℕ) × List ℕ → Option (List ℕ) × List ℕ
put_in_front c (none, name) = (none, c ∷ name)
put_in_front c (some ns, name) = (some (c ∷ ns), name)

-- `strchr(name, NS_SEP)`: the namespace in front of the first '|', if there is one, and the name.
unfoldable pub split_name : List ℕ → Option (List ℕ) × List ℕ
split_name [] = (none, [])
split_name (c ∷ cs) = if c == 124 then (some [], cs) else put_in_front c (split_name cs)

abbrev pub ns_of : Option (List ℕ) → Option Text
ns_of none = none
ns_of (some ns) = some (counted ns)

module _ (env : Env) where
  -- The loop of exmpp_xml_cb_make_attributes, which ignores what make_attribute returns.
  unfoldable pub make_attributes : List (List ℕ × List ℕ) → Ctx → Step
  make_attributes [] ctx = success ctx
  make_attributes ((attr, value) ∷ attrs) ctx =
      let (ns, name) = split_name attr in
      make_attributes attrs (make_attribute env (ns_of ns) (counted name) (counted value) ctx).0

  module _ {P : Type 0} where
    unfoldable pub call : Callback → Data P → Data P
    call (start_namespace prefix none) edd = edd
    call (start_namespace prefix (some uri)) edd = record edd {
      declared_nss =
          make_declared_ns_in_buf env edd.ctx (some (counted uri)) (ns_of prefix) edd.declared_nss;
    }
    call (start_element elem attrs) edd =
        let (ns, name) = split_name elem in
        record edd {
          ctx =
              (enter_element env (ns_of ns) (counted name) (formatted (some edd.declared_nss))
                (some (make_attributes attrs)) edd.ctx).0;
          declared_nss = [];
        }
    call (end_element elem) edd =
        let (ns, name) = split_name elem in
        record edd { ctx = (exit_element env (ns_of ns) (counted name) edd.ctx).0 }
    call (character_data text) edd = record edd { ctx = (add_character_data env text edd.ctx).0 }

    unfoldable pub run_callbacks : List Callback → Data P → Data P
    run_callbacks [] edd = edd
    run_callbacks (c ∷ cs) edd = run_callbacks cs (call c edd)

-- `ei_x_encode_empty_list(edd->ctx.complete_trees)`, if the trees are ready.
unfoldable pub terminate_trees : Ctx → Ctx
terminate_trees ctx =
    if ctx.complete_trees_ready
    then record ctx { complete_trees = ctx.complete_trees ++ empty_list ∷ [] }
    else ctx

-- The answer of a parse: the complete trees, or that there are none yet.
unfoldable pub parse_answer : Bool → Ctx → Buff
parse_answer final ctx =
    if ctx.complete_trees_ready
    then ctx.complete_trees
    else new_with_version ++ atom (codes (if final then "done" else "continue")) ∷ []

module _ {P : Type 0} where
  -- exmpp_xml_start, with the two allocations of init_context.
  unfoldable pub exmpp_xml_start : (tree trees : Bool) → Option (Data P)
  exmpp_xml_start tree trees = elim (init_context tree trees) [
    | none ↦ none
    | some ctx ↦ some (record { ctx = ctx; parser = none; declared_nss = [] })
  ]

  -- What destroy_parser does with `edd->parser`.
  unfoldable pub free_parser : Option P → Data P → Data P
  free_parser none edd = edd
  free_parser (some p) edd = record {
    ctx = reset_context edd.ctx;
    parser = none;
    declared_nss = [];
  }

  unfoldable pub destroy_parser : Data P → Data P
  destroy_parser edd = free_parser edd.parser edd

  -- The namespaces, the parser and the context are freed: what is left of the context's buffers.
  unfoldable pub exmpp_xml_stop : Data P → Buff × Buff
  exmpp_xml_stop edd = free_context (destroy_parser (record edd { declared_nss = [] })).ctx

  abbrev pub failed : Data P → Buff → Data P × Reply
  failed edd reason = (edd, record { ret = pos 1; items = new_with_version ++ reason })

  -- What follows XML_Parse; `size` is the length of the data.
  unfoldable pub parsed : Bool → ℕ → Option (ℤ × List ℕ) → Data P → Data P × Reply
  parsed final size (some (errcode, errmsg)) edd = failed edd (
      tuple_header 2
      ∷ atom (codes "parsing_failed")
      ∷ tuple_header 2
      ∷ long errcode
      ∷ string errmsg
      ∷ [])
  parsed final size none edd =
      let ended = record edd { ctx = terminate_trees edd.ctx } in
      let answer : Reply = record { ret = pos 0; items = parse_answer final ended.ctx } in
      if final
      then (destroy_parser ended, answer)
      else (record ended { ctx = reset_complete_trees (add_data_size ended.ctx size) }, answer)

  module _ (lib : Library P) (env : Env) where
    abbrev pub run_parser : Bool → List ℕ → P → Data P → Data P × Reply
    run_parser final buf p edd =
        let (p', calls, error) = lib.xml_parse p buf final in
        parsed final (length buf) error (run_callbacks env calls (record edd { parser = some p' }))

    -- The parsing commands once there is a parser.
    unfoldable pub parse_with : Bool → List ℕ → P → Data P → Data P × Reply
    parse_with final buf p edd =
        let run = run_parser final buf p edd in
        if not (is_data_size_under_limit edd.ctx (length buf))
        then failed edd (atom (codes "stanza_too_big") ∷ [])
        else run

    unfoldable pub parse_data : Bool → List ℕ → Data P → Data P × Reply
    parse_data final buf edd = elim edd.parser [
      | some p ↦ parse_with final buf p edd
      | none ↦ elim lib.create [
        | none ↦ failed edd (atom (codes "parser_setup_failed") ∷ [])
        | some p ↦ parse_with final buf p (record edd { parser = some p })
      ]
    ]

  -- The bytes are a run's result: the shared commands may read in front of their input.
  unfoldable pub exmpp_xml_control :
      Library P → Memory → EiAtoms → Command → Known → Data P → Run (Known × Data P × Reply)
  exmpp_xml_control lib memory ei (parse buf) known edd =
      let r = parse_data lib (env_of ei known) false buf edd in ok (known, r.0, r.1)
  exmpp_xml_control lib memory ei (parse_final buf) known edd =
      let r = parse_data lib (env_of ei known) true buf edd in ok (known, r.0, r.1)
  exmpp_xml_control lib memory ei reset_parser known edd = elim edd.parser [
    | none ↦ ok (known, edd, record { ret = pos 0; items = [] })
    | some p ↦ ok (
      known,
      record edd { ctx = reset_context edd.ctx; parser = some (lib.reset p) },
      record { ret = pos 0; items = [] },
    )
  ]
  exmpp_xml_control lib memory ei port_revision known edd = ok (
    known,
    edd,
    record { ret = pos 0; items = new_with_version ++ string (codes "$Revision$") ∷ [] },
  )
  exmpp_xml_control lib memory ei (shared command buf) known edd = do
    r ← Control.control memory command buf new_with_version known edd.ctx
    ok (r.known, record edd { ctx = r.ctx }, record { ret = r.ret; items = r.to_return })
