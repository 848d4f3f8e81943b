-- ===== src/Xml/Expat/Session.antt =====
-- A stream that comes in chunks, cut anywhere between two events.
use hz_platform.Prelude.{
  ℕ, ◌+◌, ◌≡◌, refl, sym, ap, ◌∙◌, true, false, List, [], ◌∷◌, ◌++◌, none, pos, length, eq_ℤ, arith,
}
use mathlib.Core.Path.{subst}
use hz_platform.Run.{Run, ok, ◌>>=◌}
use hz_platform.Ei.{Buff, empty_list, encode}
use hz_platform.Xml.Context.{Ctx, new_with_version}
use hz_platform.Xml.Encode.{EiAtoms}
use hz_platform.Xml.Build.Tree
use hz_platform.Xml.Build.Subtree.{feed-append}
use hz_platform.Xml.Build.Stream.{stream, stream_events, stream_term}
use hz_platform.Xml.Known.{Known, Memory, env_of}
use hz_platform.Xml.Expat.{Library, Data, Reply, parse, exmpp_xml_control}
use hz_platform.Xml.Expat.Callbacks.{at, callbacks_all, AreReported}
use hz_platform.Xml.Expat.Limit.{Within, Within-less}
use hz_platform.Xml.Expat.Chunk.{settled, reply_of, payload, feed-Frame, chunk_lem}
use hz_platform.Xml.Expat.Added.{rest_of, added, feed-added, settled-feed, payloads}

-- The bytes of a chunk, and the events that Expat reports for them.
abbrev pub Chunk : Type 0
Chunk = List ℕ × List Tree.Event

abbrev pub bytes : List Chunk → List (List ℕ)
bytes [] = []
bytes ((buf, es) ∷ cs) = buf ∷ bytes cs

abbrev pub events_of : List Chunk → List Tree.Event
events_of [] = []
events_of ((buf, es) ∷ cs) = es ++ events_of cs

abbrev pub total : List Chunk → ℕ
total [] = 0
total ((buf, es) ∷ cs) = length buf + total cs

-- The trees in all the answers.
abbrev pub delivered : List Reply → Buff
delivered [] = []
delivered (r ∷ rs) = payload r.items ++ delivered rs

abbrev pub AllSucceed : List Reply → Type 0
AllSucceed [] = Unit
AllSucceed (r ∷ rs) = (r.ret ≡ pos 0) × AllSucceed rs

nothing_more : (n : ℕ) → n ≡ n + 0
nothing_more n = omega arith

module _ {P : Type 0} (lib : Library P) where
  -- Expat reports the events of the chunks, one after the other, without an error.
  abbrev pub Reports : P → List Chunk → P → Type 0
  Reports p [] p' = p ≡ p'
  Reports p ((buf, es) ∷ cs) p' =
      (q : P) × (lib.xml_parse p buf false ≡ (q, callbacks_all es, none))
      × AreReported es
      × Reports q cs p'

module _ {P : Type 0} (lib : Library P) (memory : Memory) (ei : EiAtoms) where
  -- COMMAND_PARSE for each chunk, and the answers.
  unfoldable pub parse_all : List (List ℕ) → Known → Data P → Run (Known × Data P × List Reply)
  parse_all [] known edd = ok (known, edd, [])
  parse_all (buf ∷ bufs) known edd = do
    r ← exmpp_xml_control lib memory ei (parse buf) known edd
    s ← parse_all bufs r.0 r.1
    ok (s.0, s.1, r.2 ∷ s.2)

  module _ (known : Known) where
    -- What the chunks lead to: the state, and the trees in the answers.
    abbrev Delivers : List Chunk → Ctx → P → P → Type 0
    Delivers cs ctx p p' =
        let env = env_of ei known in
        (replies : List Reply) × (parse_all (bytes cs) known (at env ctx p)
          ≡ ok (
            known,
            at env (settled (ctx.cur_size + total cs) (Tree.feed env (events_of cs) ctx)) p',
            replies,
          ))
        × AllSucceed replies
        × (delivered replies ≡ added env (events_of cs) ctx)

    chunks :
        (cs : List Chunk) (ctx : Ctx) (p p' : P)
        → ctx.complete_trees ≡ new_with_version
        → ctx.complete_trees_ready ≡ false
        → Within ctx.max_size (ctx.cur_size + total cs)
        → Reports lib p cs p'
        → Delivers cs ctx p p'
    unfolding parse_all added Tree.feed
    chunks [] ctx p p' fresh waits room same =
        let env = env_of ei known in
        (
          [],
          ap (λ q. ok (known, at env ctx q, [])) same
              ∙ ap (λ t. ok (known, at env (record ctx { complete_trees = t }) p', [])) fresh
              ∙ ap
                  (λ b. ok (
                    known,
                    at env
                        (record ctx { complete_trees = new_with_version; complete_trees_ready = b })
                        p',
                    [],
                  ))
                  waits
              ∙ ap (λ n. ok (known, at env (settled n ctx) p', [])) (nothing_more ctx.cur_size),
          tt,
          refl,
        )
    chunks ((buf, es) ∷ cs) ctx p p' fresh waits room (q, run, reported, reports) =
        let env = env_of ei known in
        let c = Tree.feed env es ctx in
        let k = ctx.cur_size + length buf in
        let grouped : ctx.cur_size + (length buf + total cs) ≡ k + total cs = omega arith in
        let later : Within ctx.max_size (k + total cs) = subst (Within ctx.max_size) grouped room in
        let now = Within-less ctx.max_size k (k + total cs) (omega arith) later in
        let after =
          subst (λ z. Within z (k + total cs)) (sym (feed-Frame lib env es ctx p reported).1)
            later in
        let (replies, ran, fine, given) = chunks cs (settled k c) q p' refl refl after reports in
        (
          reply_of c ∷ replies,
          rw (chunk_lem lib memory ei known es buf ctx p q now run reported, ran)
              (ap (λ s. ok (known, at env s p', reply_of c ∷ replies))
                (settled-feed env (k + total cs) k (events_of cs) c
                  ∙ ap (settled (k + total cs)) (sym (feed-append env es (events_of cs) ctx))
                  ∙ ap (λ n. settled n (Tree.feed env (es ++ events_of cs) ctx)) (sym grouped))),
          (refl, fine),
          ap (λ t. payload (reply_of c).items ++ t) given
              ∙ payloads env es (events_of cs) ctx fresh,
        )

    -- Suppose a stream comes in any number of chunks that together are under the size limit, and the
    -- events that Expat reports for them, one chunk after the other and without an error, are
    -- together those of the stream: opening tags down to the root depth, then complete nodes,
    -- wherever between two events the chunks are cut. Then every COMMAND_PARSE succeeds, and the
    -- trees in their answers are together exactly the terms of the stream, each once and in order;
    -- what is kept is the context of the whole stream, with its length added to the size.
    pub session :
        (tags : List Tree.Tag) (ns : Tree.Nodes) (cs : List Chunk) (ctx : Ctx) (p p' : P)
        → ctx.current_tree ≡ []
        → ctx.complete_trees ≡ new_with_version
        → ctx.complete_trees_ready ≡ false
        → eq_ℤ (ctx.depth + length tags) ctx.root_depth ≡ true
        → Within ctx.max_size (ctx.cur_size + total cs)
        → Reports lib p cs p'
        → events_of cs ≡ stream_events tags ns
        → (replies : List Reply) × (parse_all (bytes cs) known (at (env_of ei known) ctx p)
            ≡ ok (
              known,
              at
                  (env_of ei known)
                  (settled
                    (ctx.cur_size + total cs)
                    (Tree.feed (env_of ei known) (stream_events tags ns) ctx))
                  p',
              replies,
            ))
          × AllSucceed replies
          × (delivered replies ++ empty_list ∷ []
              ≡ encode (stream_term (env_of ei known) (Tree.naming ctx) tags ns))
    unfolding rest_of
    session tags ns cs ctx p p' empty fresh waits level room reports whole =
        let env = env_of ei known in
        let es = stream_events tags ns in
        let (replies, ran, fine, given) = chunks cs ctx p p' fresh waits room reports in
        (
          replies,
          ran
              ∙ ap
                  (λ l. ok (
                    known,
                    at env (settled (ctx.cur_size + total cs) (Tree.feed env l ctx)) p',
                    replies,
                  ))
                  whole,
          fine,
          ap (λ t. t ++ empty_list ∷ []) (given ∙ ap (λ l. added env l ctx) whole)
              ∙ ap rest_of (
                  ap (λ t. (t ++ added env es ctx) ++ empty_list ∷ []) (sym fresh)
                  ∙ ap (λ t. t ++ empty_list ∷ []) (sym (feed-added env es ctx))
                  ∙ stream env tags ns ctx empty level
                  ∙ ap (λ t. t ++ encode (stream_term env (Tree.naming ctx) tags ns)) fresh),
        )

    -- If the same events are cut into chunks in two ways, well-formed or not, each under the size
    -- limit, then both runs succeed, deliver the same trees, and keep the same context but for the
    -- size.
    pub rechunked :
        (cs ds : List Chunk) (ctx : Ctx) (p q q' : P)
        → ctx.complete_trees ≡ new_with_version
        → ctx.complete_trees_ready ≡ false
        → Within ctx.max_size (ctx.cur_size + total cs)
        → Within ctx.max_size (ctx.cur_size + total ds)
        → Reports lib p cs q
        → Reports lib p ds q'
        → events_of cs ≡ events_of ds
        → (replies replies' : List Reply) × (last : Ctx) × (parse_all
              (bytes cs)
              known
              (at (env_of ei known) ctx p)
            ≡ ok (known, at (env_of ei known) (settled (ctx.cur_size + total cs) last) q, replies))
          × (parse_all (bytes ds) known (at (env_of ei known) ctx p)
              ≡ ok (
                known,
                at (env_of ei known) (settled (ctx.cur_size + total ds) last) q',
                replies',
              ))
          × (AllSucceed replies × AllSucceed replies')
          × (delivered replies ≡ delivered replies')
    rechunked cs ds ctx p q q' fresh waits room room' reports reports' same =
        let env = env_of ei known in
        let (replies, ran, fine, given) = chunks cs ctx p q fresh waits room reports in
        let (replies', ran', fine', given') = chunks ds ctx p q' fresh waits room' reports' in
        (
          replies,
          replies',
          Tree.feed env (events_of cs) ctx,
          ran,
          ran'
              ∙ ap
                  (λ l. ok (
                    known,
                    at env (settled (ctx.cur_size + total ds) (Tree.feed env l ctx)) q',
                    replies',
                  ))
                  (sym same),
          (fine, fine'),
          given ∙ ap (λ l. added env l ctx) same ∙ sym given',
        )
