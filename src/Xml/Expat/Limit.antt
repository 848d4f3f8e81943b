-- ===== src/Xml/Expat/Limit.antt =====
-- The size limit of the driver on Expat.
use hz_platform.Prelude.{
  ℕ, ◌+◌, ◌≤◌, ◌≡◌, refl, sym, ap, ◌∙◌, Bool, true, false, List, [], ◌∷◌, Option, none, some, ℤ,
  pos, negsuc, length, ltb, not, if◌then◌else◌, on_both, arith,
}
use mathlib.Core.Bool.{true≢false}
use mathlib.Core.Path.{subst}
use hz_platform.Ei.{atom}
use hz_platform.Text.{codes}
use hz_platform.Xml.Context.{
  Ctx, reset_context, reset_current_tree, reset_complete_trees, add_data_size,
  is_data_size_under_limit,
}
use hz_platform.Xml.Encode.{Env}
use hz_platform.Xml.Expat.{
  Library, Reply, failed, Data, free_parser, destroy_parser, run_callbacks, terminate_trees, parsed,
  parse_with, parse_data,
}
use hz_platform.Xml.Expat.Frame.{Frame, Frame-trans, run_callbacks-Frame, terminate_trees-Frame}

not_false_lem : {b : Bool} → not b ≡ false → b ≡ true
not_false_lem {b = true} h = refl
not_false_lem {b = false} h = absurd (true≢false h)

refused : pos 1 ≡ pos 0 → ⊥
refused h = ground arith

-- The size does not exceed the limit, if there is one.
abbrev pub Within : ℤ → ℕ → Type 0
Within (pos limit) size = size ≤ limit
Within (negsuc n) size = Unit

pub Within-less : (z : ℤ) (m n : ℕ) → m ≤ n → Within z n → Within z m
Within-less (pos limit) m n less h = omega arith
Within-less (negsuc k) m n less h = tt

limit_test :
    (z : ℤ) (n : ℕ)
    → (elim z [ pos limit ↦ (if ltb limit n then false else true) | negsuc k ↦ true ]) ≡ true
    → Within z n
limit_test (pos limit) n h = ground arith
limit_test (negsuc k) n h = tt

under_limit :
    (ctx : Ctx) (size : ℕ)
    → is_data_size_under_limit ctx size ≡ true
    → Within ctx.max_size (ctx.cur_size + size)
unfolding is_data_size_under_limit
under_limit ctx size h = limit_test ctx.max_size (ctx.cur_size + size) h

-- A frame moves a bound along.
Frame-Within :
    (a b : Ctx) (size : ℕ)
    → Frame a b
    → Within a.max_size (a.cur_size + size)
    → Within b.max_size (b.cur_size + size)
Frame-Within a b size (m, n) h =
    subst (λ z. Within z (b.cur_size + size)) (sym n)
      (subst (λ k. Within a.max_size (k + size)) (sym m) h)

Frame-Within_now :
    (a b : Ctx) → Frame a b → Within a.max_size a.cur_size → Within b.max_size b.cur_size
Frame-Within_now a b (m, n) h =
    subst (λ z. Within z b.cur_size) (sym n) (subst (Within a.max_size) (sym m) h)

module _ {P : Type 0} where
  -- What a parse of `size` bytes keeps of the context that it starts in.
  abbrev pub Kept : Ctx → ℕ → Bool → Data P × Reply → Type 0
  Kept ctx size final r =
      Within r.0.ctx.max_size r.0.ctx.cur_size
      × (r.0.ctx.max_size ≡ ctx.max_size)
      × (final ≡ false → r.1.ret ≡ pos 0 → r.0.ctx.cur_size ≡ ctx.cur_size + size)

  free_parser-Within :
      (p : Option P) (edd : Data P)
      → Within edd.ctx.max_size edd.ctx.cur_size
      → Within (free_parser p edd).ctx.max_size (free_parser p edd).ctx.cur_size
        × ((free_parser p edd).ctx.max_size ≡ edd.ctx.max_size)
  unfolding free_parser reset_context reset_current_tree reset_complete_trees
  free_parser-Within none edd h = (h, refl)
  free_parser-Within (some p) edd h =
      (Within-less edd.ctx.max_size 0 edd.ctx.cur_size (omega arith) h, refl)

  parsed-Kept :
      (final : Bool) (size : ℕ) (error : Option (ℤ × List ℕ)) (ctx : Ctx) (edd : Data P)
      → Frame ctx edd.ctx
      → Within ctx.max_size ctx.cur_size
      → Within ctx.max_size (ctx.cur_size + size)
      → Kept ctx size final (parsed final size error edd)
  unfolding parsed add_data_size reset_complete_trees destroy_parser
  parsed-Kept final size (some e) ctx edd frame now later =
      (Frame-Within_now ctx edd.ctx frame now, frame.1, λ _ h. absurd (refused h))
  parsed-Kept false size none ctx edd frame now later =
      let ended = terminate_trees edd.ctx in
      let same = Frame-trans ctx edd.ctx ended frame (terminate_trees-Frame edd.ctx) in
      (Frame-Within ctx ended size same later, same.1, λ _ _. ap (λ n. n + size) same.0)
  parsed-Kept true size none ctx edd frame now later =
      let ended = terminate_trees edd.ctx in
      let same = Frame-trans ctx edd.ctx ended frame (terminate_trees-Frame edd.ctx) in
      let (kept, limit) =
        free_parser-Within edd.parser (record edd { ctx = ended })
          (Frame-Within_now ctx ended same now) in
      (kept, limit ∙ same.1, λ h. absurd (true≢false h))

  module _ (lib : Library P) (env : Env) where
    parse_with-Kept :
        (final : Bool) (buf : List ℕ) (p : P) (edd : Data P)
        → Within edd.ctx.max_size edd.ctx.cur_size
        → Kept edd.ctx (length buf) final (parse_with lib env final buf p edd)
    unfolding parse_with
    parse_with-Kept final buf p edd now =
        let size = length buf in
        let (p', calls, error) = lib.xml_parse p buf final in
        on_both (Kept edd.ctx size final) (not (is_data_size_under_limit edd.ctx size))
          (λ _. (now, refl, λ _ h. absurd (refused h)))
          (λ fits.
            parsed-Kept final size error edd.ctx
              (run_callbacks env calls (record edd { parser = some p' }))
              (run_callbacks-Frame env calls (record edd { parser = some p' })) now
              (under_limit edd.ctx size (not_false_lem fits)))

    with_parser :
        (final : Bool) (buf : List ℕ) (edd : Data P) (parser created : Option P)
        → Within edd.ctx.max_size edd.ctx.cur_size
        → Kept edd.ctx (length buf) final (elim parser [
          | some p ↦ parse_with lib env final buf p edd
          | none ↦ elim created [
            | none ↦ failed edd (atom (codes "parser_setup_failed") ∷ [])
            | some p ↦ parse_with lib env final buf p (record edd { parser = some p })
          ]
        ])
    with_parser final buf edd (some p) created now = parse_with-Kept final buf p edd now
    with_parser final buf edd none none now = (now, refl, λ _ h. absurd (refused h))
    with_parser final buf edd none (some p) now =
        parse_with-Kept final buf p (record edd { parser = some p }) now

    -- Whatever Expat does and reports, a size that is within the limit is within it behind a parse
    -- command, final or not, and the limit is the same; behind a success of one that is not final
    -- the size has grown by exactly the length of the data.
    pub parse_data-Kept :
        (final : Bool) (buf : List ℕ) (edd : Data P)
        → Within edd.ctx.max_size edd.ctx.cur_size
        → Kept edd.ctx (length buf) final (parse_data lib env final buf edd)
    unfolding parse_data
    parse_data-Kept final buf edd now = with_parser final buf edd edd.parser lib.create now
