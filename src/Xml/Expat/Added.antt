-- ===== src/Xml/Expat/Added.antt =====
-- What the events of a chunk add to the trees that an answer delivers.
use hz_platform.Prelude.{
  ℕ, ◌≡◌, refl, sym, ap, ◌∙◌, Bool, true, false, ◌||◌, List, [], ◌∷◌, ◌++◌, append-nil,
}
use hz_platform.Ei.{Buff}
use hz_platform.Xml.Context.{Ctx, new_with_version}
use hz_platform.Xml.Encode.{Env}
use hz_platform.Xml.Build.Tree
use hz_platform.Xml.Build.Graft.{feed-graft}
use hz_platform.Xml.Build.Subtree.{feed-append}
use hz_platform.Xml.Expat.Chunk.{settled, reply_of, payload, payload_lem}

unfoldable pub rest_of : Buff → Buff
rest_of [] = []
rest_of (i ∷ items) = items

or_false : (b : Bool) → b ≡ (b || false)
or_false true = refl
or_false false = refl

-- The events add to the trees of any context what they add to none.
unfoldable pub added : Env → List Tree.Event → Ctx → Buff
added env es ctx =
    (Tree.feed env es (record ctx {
      cur_size = 0;
      complete_trees = [];
      complete_trees_ready = false;
    })).complete_trees

pub feed-added :
    (env : Env) (es : List Tree.Event) (ctx : Ctx)
    → (Tree.feed env es ctx).complete_trees ≡ ctx.complete_trees ++ added env es ctx
unfolding added
feed-added env es ctx =
    let base = record ctx { cur_size = 0; complete_trees = []; complete_trees_ready = false } in
    ap (λ t. (Tree.feed env es (record ctx { complete_trees = t })).complete_trees)
      (sym (append-nil ctx.complete_trees))
    ∙ ap
        (λ b.
          (Tree.feed env es (record ctx {
            complete_trees = ctx.complete_trees ++ [];
            complete_trees_ready = b;
          })).complete_trees)
        (or_false ctx.complete_trees_ready)
    ∙ ap (λ c. c.complete_trees)
        (feed-graft ctx.cur_size ctx.complete_trees ctx.complete_trees_ready env es base)

-- What is kept between two chunks does not depend on where they are cut.
pub settled-feed :
    (env : Env) (size n : ℕ) (es : List Tree.Event) (ctx : Ctx)
    → settled size (Tree.feed env es (settled n ctx)) ≡ settled size (Tree.feed env es ctx)
settled-feed env size n es ctx =
    let base = record ctx { cur_size = 0; complete_trees = []; complete_trees_ready = false } in
    ap (settled size) (feed-graft n new_with_version false env es base)
    ∙ sym (
        ap (λ t. settled size (Tree.feed env es (record ctx { complete_trees = t })))
          (sym (append-nil ctx.complete_trees))
        ∙ ap
            (λ b. settled size (
              Tree.feed env es (record ctx {
                complete_trees = ctx.complete_trees ++ [];
                complete_trees_ready = b;
              })))
            (or_false ctx.complete_trees_ready)
        ∙ ap (settled size)
            (feed-graft ctx.cur_size ctx.complete_trees ctx.complete_trees_ready env es base))

-- What the first chunk delivers, and what the others do.
pub payloads :
    (env : Env) (es fs : List Tree.Event) (ctx : Ctx)
    → ctx.complete_trees ≡ new_with_version
    → payload (reply_of (Tree.feed env es ctx)).items ++ added env fs (Tree.feed env es ctx)
      ≡ added env (es ++ fs) ctx
unfolding rest_of
payloads env es fs ctx fresh =
    let c = Tree.feed env es ctx in
    ap rest_of (
      ap (λ t. t ++ added env fs c) (payload_lem env es ctx fresh)
      ∙ sym (feed-added env fs c)
      ∙ ap (λ d. d.complete_trees) (sym (feed-append env es fs ctx))
      ∙ feed-added env (es ++ fs) ctx
      ∙ ap (λ t. t ++ added env (es ++ fs) ctx) fresh)
