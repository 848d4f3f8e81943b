-- ===== src/Xml/Expat/Chunk.antt =====
-- One chunk of a stream, whatever events it holds: the context that the driver keeps, and its answer.
use hz_platform.Prelude.{
  ℕ, ◌+◌, ◌≡◌, refl, sym, ap, ◌∙◌, true, false, List, [], ◌∷◌, ◌++◌, none, pos, negsuc, ℤ, length,
  ltb, if◌then◌else◌, Bool-cases, inl, inr, arith,
}
use mathlib.Core.Path.{subst}
use hz_platform.Run.{ok}
use hz_platform.Text.{codes}
use hz_platform.Ei.{Buff, Item, version, empty_list, atom}
use hz_platform.Xml.Context.{
  Ctx, new_with_version, is_data_size_under_limit, add_data_size, reset_complete_trees,
}
use hz_platform.Xml.Encode.{Env, EiAtoms}
use hz_platform.Xml.Build.Tree
use hz_platform.Xml.Build.Graft.{feed-graft}
use hz_platform.Xml.Build.Quiet.{feed-Quiet}
use hz_platform.Xml.Known.{Known, Memory, env_of}
use hz_platform.Xml.Expat.{
  Library, Data, Reply, parse, parse_data, parse_with, parsed, terminate_trees, parse_answer,
  exmpp_xml_control,
}
use hz_platform.Xml.Expat.Callbacks.{at, callbacks_all, AreReported, run_callbacks_lem}
use hz_platform.Xml.Expat.Frame.{Frame, run_callbacks-Frame}
use hz_platform.Xml.Expat.Limit.{Within}

-- A context between two chunks.
abbrev pub settled : ℕ → Ctx → Ctx
settled size ctx = record ctx {
  cur_size = size;
  complete_trees = new_with_version;
  complete_trees_ready = false;
}

abbrev pub reply_of : Ctx → Reply
reply_of ctx = record {
  ret = pos 0;
  items =
      if ctx.complete_trees_ready
      then ctx.complete_trees ++ empty_list ∷ []
      else new_with_version ++ atom (codes "continue") ∷ [];
}

abbrev pub but_last : Buff → Buff
but_last [] = []
but_last (i ∷ []) = []
but_last (i ∷ j ∷ items) = i ∷ but_last (j ∷ items)

but_last-append : (items : Buff) (i : Item) → but_last (items ++ i ∷ []) ≡ items
but_last-append [] i = refl
but_last-append (j ∷ []) i = refl
but_last-append (j ∷ k ∷ items) i = ap (λ l. j ∷ l) (but_last-append (k ∷ items) i)

-- The items of the trees in an answer: those of its list, none in the atom `continue`.
abbrev pub payload : Buff → Buff
payload [] = []
payload (i ∷ items) = but_last items

limit_test_holds :
    (z : ℤ) (n : ℕ)
    → Within z n
    → (elim z [ pos limit ↦ (if ltb limit n then false else true) | negsuc k ↦ true ]) ≡ true
limit_test_holds (pos limit) n h = ground arith
limit_test_holds (negsuc k) n h = refl

parsed_lem :
    {P : Type 0} (env : Env) (size : ℕ) (ctx : Ctx) (p : P)
    → parsed false size none (at env ctx p)
      ≡ (at env (settled (ctx.cur_size + size) ctx) p, reply_of ctx)
unfolding parsed terminate_trees parse_answer add_data_size reset_complete_trees
parsed_lem env size ctx p = elim (Bool-cases ctx.complete_trees_ready) [
  | inl ready ↦ rw ready refl
  | inr waits ↦ rw waits refl
]

module _ (env : Env) (es : List Tree.Event) (ctx : Ctx)
    (fresh : ctx.complete_trees ≡ new_with_version) where
  -- The trees behind the events start with the version.
  starts :
      (Tree.feed env es ctx).complete_trees
      ≡ version ∷ (Tree.feed env es (record ctx { complete_trees = [] })).complete_trees
  starts =
      ap (λ t. (Tree.feed env es (record ctx { complete_trees = t })).complete_trees) fresh
      ∙ ap (λ c. c.complete_trees)
          (feed-graft ctx.cur_size new_with_version false env es
            (record ctx { complete_trees = [] }))

  pub payload_lem :
      version ∷ payload (reply_of (Tree.feed env es ctx)).items
      ≡ (Tree.feed env es ctx).complete_trees
  payload_lem =
      let c = Tree.feed env es ctx in
      let added = (Tree.feed env es (record ctx { complete_trees = [] })).complete_trees in
      elim (Bool-cases c.complete_trees_ready) [
        | inl ready ↦ rw ready (
            ap (λ t. version ∷ payload (t ++ empty_list ∷ [])) starts
            ∙ ap (λ l. version ∷ l) (but_last-append added empty_list)
            ∙ sym starts)
        | inr waits ↦ rw waits (sym fresh ∙ sym (feed-Quiet env es ctx waits).1)
      ]

module _ {P : Type 0} (lib : Library P) where
  pub feed-Frame :
      (env : Env) (es : List Tree.Event) (ctx : Ctx) (p : P)
      → AreReported es
      → Frame ctx (Tree.feed env es ctx)
  feed-Frame env es ctx p reported =
      subst (λ (edd : Data P). Frame ctx edd.ctx) (run_callbacks_lem env es ctx p reported)
        (run_callbacks-Frame env (callbacks_all es) (at env ctx p))

  run_lem :
      (env : Env) (es : List Tree.Event) (buf : List ℕ) (ctx : Ctx) (p p' : P)
      → Within ctx.max_size (ctx.cur_size + length buf)
      → lib.xml_parse p buf false ≡ (p', callbacks_all es, none)
      → AreReported es
      → parse_data lib env false buf (at env ctx p) ≡ (
        at env (settled (ctx.cur_size + length buf) (Tree.feed env es ctx)) p',
        reply_of (Tree.feed env es ctx),
      )
  unfolding parse_data parse_with is_data_size_under_limit
  run_lem env es buf ctx p p' room run reported =
      let c = Tree.feed env es ctx in
      rw (limit_test_holds ctx.max_size (ctx.cur_size + length buf) room, run)
        (ap (parsed false (length buf) none) (run_callbacks_lem env es ctx p' reported)
          ∙ parsed_lem env (length buf) c p'
          ∙ ap (λ n. (at env (settled (n + length buf) c) p', reply_of c))
              (feed-Frame env es ctx p reported).0)

  -- The answer to a chunk that is under the limit, whatever events Expat reports for it.
  pub chunk_lem :
      (memory : Memory) (ei : EiAtoms) (known : Known) (es : List Tree.Event) (buf : List ℕ)
      (ctx : Ctx) (p p' : P)
      → Within ctx.max_size (ctx.cur_size + length buf)
      → lib.xml_parse p buf false ≡ (p', callbacks_all es, none)
      → AreReported es
      → exmpp_xml_control lib memory ei (parse buf) known (at (env_of ei known) ctx p)
        ≡ ok (
          known,
          at
              (env_of ei known)
              (settled (ctx.cur_size + length buf) (Tree.feed (env_of ei known) es ctx))
              p',
          reply_of (Tree.feed (env_of ei known) es ctx),
        )
  unfolding exmpp_xml_control
  chunk_lem memory ei known es buf ctx p p' room run reported =
      ap (λ r. ok (known, r.0, r.1)) (run_lem (env_of ei known) es buf ctx p p' room run reported)
