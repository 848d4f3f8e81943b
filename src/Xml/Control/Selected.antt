-- ===== src/Xml/Control/Selected.antt =====
-- The names are checked only against a list that exists.
use hz_platform.Prelude.{
  ℕ, ◌≡◌, refl, sym, Bool, true, false, List, Option, none, some, ℤ, pos, negsuc, is_zero, on_both,
  [], ◌∷◌,
}
use mathlib.Core.Path.{subst}
use hz_platform.Run.{Run, ok, fault, ◌>>=◌, Post}
use hz_platform.Ei.{Buff, atom}
use hz_platform.Text.{codes, counted}
use hz_platform.HashTable.{exmpp_ht_fetch}
use hz_platform.Xml.Context.{Ctx, Handle}
use hz_platform.Ei.Input.{exmpp_skip_version, decode_atom, decode_boolean, decode_long}
use hz_platform.Xml.Known.{
  Known, Memory, Command, add_known_nss, add_known_elems, set_names_as_atom, set_check_nss,
  set_check_elems, set_root_depth, set_emit_endtag, set_max_size, unknown_command, add_nss,
  add_elems, is_named, select_nss, select_elems, select_known,
}
use hz_platform.Xml.Control.{Outcome, checked, control}

abbrev pub IsSelected : Bool → Option Handle → Type 0
IsSelected false kl = Unit
IsSelected true none = ⊥
IsSelected true (some kl) = Unit

-- A check that is on has a list.
abbrev pub HasLists : Ctx → Type 0
HasLists ctx = IsSelected ctx.check_nss ctx.known_nss × IsSelected ctx.check_elems ctx.known_elems

abbrev Selects : Ctx × ℤ → Type 0
Selects r = HasLists r.0

select_nss-HasLists :
    (known : Known) (name : List ℕ) (ctx : Ctx) → HasLists ctx → Selects (select_nss known name ctx)
unfolding select_nss
select_nss-HasLists known name ctx h =
    on_both Selects (is_named name (codes "false")) (λ _. (tt, h.1))
      (λ _.
        on_both Selects (is_named name (codes "true")) (λ _. turned_on ctx.known_nss refl)
          (λ _. chosen (exmpp_ht_fetch known.nss_index (counted name))))
  where
    turned_on :
        (kl : Option Handle)
        → ctx.known_nss ≡ kl
        → Selects (elim kl [
          | none ↦ (ctx, negsuc 0)
          | some kl' ↦ (record ctx { check_nss = true }, pos 0)
        ])
    turned_on none e = h
    turned_on (some kl) e = (subst (IsSelected true) (sym e) tt, h.1)

    chosen :
        (kl : Option Handle)
        → Selects (elim kl [
          | none ↦ (ctx, negsuc 0)
          | some kl' ↦ (record ctx { known_nss = some kl'; check_nss = true }, pos 0)
        ])
    chosen none = h
    chosen (some kl) = (tt, h.1)

select_elems-HasLists :
    (known : Known) (name : List ℕ) (ctx : Ctx)
    → HasLists ctx
    → Selects (select_elems known name ctx)
unfolding select_elems
select_elems-HasLists known name ctx h =
    on_both Selects (is_named name (codes "false")) (λ _. (h.0, tt))
      (λ _.
        on_both Selects (is_named name (codes "true")) (λ _. turned_on ctx.known_elems refl)
          (λ _. chosen (exmpp_ht_fetch known.elems_index (counted name))))
  where
    turned_on :
        (kl : Option Handle)
        → ctx.known_elems ≡ kl
        → Selects (elim kl [
          | none ↦ (ctx, negsuc 0)
          | some kl' ↦ (record ctx { check_elems = true }, pos 0)
        ])
    turned_on none e = h
    turned_on (some kl) e = (h.0, subst (IsSelected true) (sym e) tt)

    chosen :
        (kl : Option Handle)
        → Selects (elim kl [
          | none ↦ (ctx, negsuc 0)
          | some kl' ↦ (record ctx { known_elems = some kl'; check_elems = true }, pos 0)
        ])
    chosen none = h
    chosen (some kl) = (h.0, tt)

checked-HasLists :
    (known : Known) (ctx : Ctx) (ret : ℤ) (reason to_return : Buff)
    → HasLists ctx
    → HasLists (checked known ctx ret reason to_return).ctx
checked-HasLists known ctx ret reason to_return h =
    on_both (λ (o : Outcome). HasLists o.ctx) (is_zero ret) (λ _. h) (λ _. h)

set-HasLists :
    {A : Type 0} (ctx : Ctx) (value : Option A) (f : A → Ctx)
    → HasLists ctx
    → ((a : A) → HasLists (f a))
    → HasLists (elim value [ none ↦ ctx | some a ↦ f a ])
set-HasLists ctx none f h k = h
set-HasLists ctx (some a) f h k = k a

select_known-HasLists :
    (select : List ℕ → Ctx → Ctx × ℤ) (buf : Buff) (ctx : Ctx)
    → HasLists ctx
    → ((name : List ℕ) → Selects (select name ctx))
    → Selects (select_known select buf ctx)
unfolding select_known
select_known-HasLists select buf ctx h k = decoded (decode_atom buf)
  where
    decoded :
        (r : Option (List ℕ × Buff))
        → Selects (elim r [ none ↦ (ctx, negsuc 0) | some (name, buf') ↦ select name ctx ])
    decoded none = h
    decoded (some (name, rest)) = k name

abbrev Lists : Outcome → Type 0
Lists o = HasLists o.ctx

-- A property of all results of what follows a call.
behind :
    {R : Type 0} (call : Run R) (next : R → Run Outcome)
    → ((value : R) → Post Lists (next value))
    → Post Lists (call >>= next)
behind (fault e) next h = tt
behind (ok value) next h = h value

module _ (memory : Memory) where
  -- If every check of names that is on has a list selected, then that is so behind every one of the
  -- shared commands that returns, whether it succeeds or is refused.
  pub control-HasLists :
      (command : Command) (buf to_return : Buff) (known : Known) (ctx : Ctx)
      → HasLists ctx
      → Post (λ o. HasLists o.ctx) (control memory command buf to_return known ctx)
  unfolding control
  control-HasLists add_known_nss buf to_return known ctx h =
      behind (exmpp_skip_version buf) _ (λ terms.
        behind (add_nss memory terms known) _ (λ r.
          checked-HasLists r.0 ctx r.1 (atom (codes "add_known_nss_failed") ∷ []) to_return h))
  control-HasLists add_known_elems buf to_return known ctx h =
      behind (exmpp_skip_version buf) _ (λ terms. behind (add_elems memory terms known) _ (λ r.
        checked-HasLists r.0 ctx r.1 (atom (codes "add_known_elems_failed") ∷ []) to_return h))
  control-HasLists set_names_as_atom buf to_return known ctx h =
      behind (exmpp_skip_version buf) _ (λ terms.
        set-HasLists ctx (decode_boolean terms) (λ v. record ctx { names_as_atom = v }) h (λ _. h))
  control-HasLists set_check_nss buf to_return known ctx h =
      behind (exmpp_skip_version buf) _ (λ terms.
        let r = select_known (select_nss known) terms ctx in
        checked-HasLists known r.0 r.1 (atom (codes "check_nss_failed") ∷ []) to_return (
          select_known-HasLists (select_nss known) terms ctx h
            (λ name. select_nss-HasLists known name ctx h)))
  control-HasLists set_check_elems buf to_return known ctx h =
      behind (exmpp_skip_version buf) _ (λ terms.
        let r = select_known (select_elems known) terms ctx in
        checked-HasLists known r.0 r.1 (atom (codes "check_elems_failed") ∷ []) to_return (
          select_known-HasLists (select_elems known) terms ctx h
            (λ name. select_elems-HasLists known name ctx h)))
  control-HasLists set_root_depth buf to_return known ctx h =
      behind (exmpp_skip_version buf) _ (λ terms.
        set-HasLists ctx (decode_long terms) (λ v. record ctx { root_depth = v }) h (λ _. h))
  control-HasLists set_emit_endtag buf to_return known ctx h =
      behind (exmpp_skip_version buf) _ (λ terms.
        set-HasLists ctx (decode_boolean terms) (λ v. record ctx { emit_endtag = v }) h (λ _. h))
  control-HasLists set_max_size buf to_return known ctx h =
      behind (exmpp_skip_version buf) _ (λ terms.
        set-HasLists ctx (decode_long terms) (λ v. record ctx { max_size = v }) h (λ _. h))
  control-HasLists (unknown_command n) buf to_return known ctx h = h
