-- ===== src/Xml/Legacy.antt =====
-- lib/exmpp-0.9.8-05-g6987a0a/c_src/exmpp_xml_expat_legacy.c, the driver on Expat that builds legacy
-- terms. Expat runs without namespaces here: it reports names as they are written. Its parsers are as
-- in the other driver on it.
pub mod Tree
pub mod Stanza
pub mod Replies
use hz_platform.Prelude.{
  ℕ, Bool, true, false, List, [], ◌∷◌, ◌++◌, Option, none, some, ℤ, pos, not, length, if◌then◌else◌,
}
use hz_platform.Run.{Run, ok, ◌>>=◌}
use hz_platform.Ei.{Buff, tuple_header, atom, string, long}
use hz_platform.Text.{codes, counted}
use hz_platform.Xml.Context.{
  Ctx, new_with_version, init_context, reset_context, reset_complete_trees, free_context,
  add_data_size, is_data_size_under_limit,
}
use hz_platform.Xml.Encode.{Env, EiAtoms}
use hz_platform.Xml.Build.{
  Step, success, enter_element_legacy, exit_element_legacy, add_character_data,
  make_attribute_legacy,
}
use hz_platform.Xml.Known.{Known, Memory, env_of}
use hz_platform.Xml.Known
use hz_platform.Xml.Control
use hz_platform.Xml.Expat.{Reply, terminate_trees, parse_answer}

-- What Expat calls, the attributes as names with their values.
pub data Callback : Type 0 where
  start_element : List ℕ → List (List ℕ × List ℕ) → Callback
  end_element : List ℕ → Callback
  character_data : List ℕ → Callback

pub record Library (P : Type 0) : Type 0 where
  pub create : Option P
  pub reset : P → P
  pub xml_parse : P → List ℕ → Bool → P × List Callback × Option (ℤ × List ℕ)

pub record Data (P : Type 0) : Type 0 where
  pub ctx : Ctx
  pub parser : Option P

pub data Command : Type 0 where
  parse parse_final : List ℕ → Command
  reset_parser port_revision : Command
  shared : Known.Command → Buff → Command

-- The loop of exmpp_xml_cb_make_attributes.
unfoldable pub make_attributes : List (List ℕ × List ℕ) → Ctx → Step
make_attributes [] ctx = success ctx
make_attributes ((attr, value) ∷ attrs) ctx =
    make_attributes attrs (make_attribute_legacy (counted attr) (counted value) ctx).0

module _ (env : Env) where
  unfoldable pub call : Callback → Ctx → Ctx
  call (start_element elem attrs) ctx =
      (enter_element_legacy env (counted elem) (some (make_attributes attrs)) ctx).0
  call (end_element elem) ctx = (exit_element_legacy ctx).0
  call (character_data text) ctx = (add_character_data env text ctx).0

  unfoldable pub run_callbacks : List Callback → Ctx → Ctx
  run_callbacks [] ctx = ctx
  run_callbacks (c ∷ cs) ctx = run_callbacks cs (call c ctx)

module _ {P : Type 0} where
  unfoldable pub exmpp_xml_start : (tree trees : Bool) → Option (Data P)
  exmpp_xml_start tree trees = elim (init_context tree trees) [
    | none ↦ none
    | some ctx ↦ some (record { ctx = ctx; parser = none })
  ]

  unfoldable pub destroy_parser : Data P → Data P
  destroy_parser edd = elim edd.parser [
    | none ↦ edd
    | some p ↦ record { ctx = reset_context edd.ctx; parser = none }
  ]

  unfoldable pub exmpp_xml_stop : Data P → Buff × Buff
  exmpp_xml_stop edd = free_context (destroy_parser edd).ctx

  abbrev pub failed : Data P → Buff → Data P × Reply
  failed edd reason = (edd, record { ret = pos 1; items = new_with_version ++ reason })

  -- What follows XML_Parse; `size` is the length of the data.
  unfoldable pub parsed : Bool → ℕ → Option (ℤ × List ℕ) → Data P → Data P × Reply
  parsed final size (some (errcode, errmsg)) edd = failed edd (
      tuple_header 2
      ∷ atom (codes "parsing_failed")
      ∷ tuple_header 2
      ∷ long errcode
      ∷ string errmsg
      ∷ [])
  parsed final size none edd =
      let ended = record edd { ctx = terminate_trees edd.ctx } in
      let answer : Reply = record { ret = pos 0; items = parse_answer final ended.ctx } in
      if final
      then (destroy_parser ended, answer)
      else (record ended { ctx = reset_complete_trees (add_data_size ended.ctx size) }, answer)

  module _ (lib : Library P) (env : Env) where
    abbrev pub run_parser : Bool → List ℕ → P → Data P → Data P × Reply
    run_parser final buf p edd =
        let (p', calls, error) = lib.xml_parse p buf final in
        parsed final (length buf) error
          (record { ctx = run_callbacks env calls edd.ctx; parser = some p' })

    unfoldable pub parse_with : Bool → List ℕ → P → Data P → Data P × Reply
    parse_with final buf p edd =
        let run = run_parser final buf p edd in
        if not (is_data_size_under_limit edd.ctx (length buf))
        then failed edd (atom (codes "stanza_too_big") ∷ [])
        else run

    unfoldable pub parse_data : Bool → List ℕ → Data P → Data P × Reply
    parse_data final buf edd = elim edd.parser [
      | some p ↦ parse_with final buf p edd
      | none ↦ elim lib.create [
        | none ↦ failed edd (atom (codes "parser_setup_failed") ∷ [])
        | some p ↦ parse_with final buf p (record edd { parser = some p })
      ]
    ]

  -- COMMAND_RESET_PARSER resets the parser and not the context.
  unfoldable pub exmpp_xml_control :
      Library P → Memory → EiAtoms → Command → Known → Data P → Run (Known × Data P × Reply)
  exmpp_xml_control lib memory ei (parse buf) known edd =
      let r = parse_data lib (env_of ei known) false buf edd in ok (known, r.0, r.1)
  exmpp_xml_control lib memory ei (parse_final buf) known edd =
      let r = parse_data lib (env_of ei known) true buf edd in ok (known, r.0, r.1)
  exmpp_xml_control lib memory ei reset_parser known edd = elim edd.parser [
    | none ↦ ok (known, edd, record { ret = pos 0; items = [] })
    | some p ↦
        ok (known, record edd { parser = some (lib.reset p) }, record { ret = pos 0; items = [] })
  ]
  exmpp_xml_control lib memory ei port_revision known edd = ok (
    known,
    edd,
    record { ret = pos 0; items = new_with_version ++ string (codes "$Revision$") ∷ [] },
  )
  exmpp_xml_control lib memory ei (shared command buf) known edd = do
    r ← Control.control memory command buf new_with_version known edd.ctx
    ok (r.known, record edd { ctx = r.ctx }, record { ret = r.ret; items = r.to_return })
