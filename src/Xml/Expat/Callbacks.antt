-- ===== src/Xml/Expat/Callbacks.antt =====
-- The callbacks that Expat reports for the events of an XML tree, and that the driver handles them as
-- those events. Expat joins a namespace and a name by '|'.
use hz_platform.Prelude.{
  ℕ, ◌≡◌, refl, sym, ap, ◌∙◌, Bool, true, false, ◌||◌, List, [], ◌∷◌, ◌++◌, Option, none, some,
  ◌==◌, map, arith,
}
use mathlib.Core.Path.{fun_ext}
use hz_platform.Text.{Text, counted}
use hz_platform.Xml.Context.{Ctx}
use hz_platform.Xml.Encode.{Env}
use hz_platform.Xml.Build.{
  Step, formatted, enter_element, exit_element, make_attribute, make_declared_ns_in_buf,
}
use hz_platform.Xml.Build.Tree
use hz_platform.Xml.Expat.{
  Callback, start_namespace, start_element, end_element, character_data, Data, split_name, ns_of,
  make_attributes, call, run_callbacks,
}

abbrev pub has_sep : List ℕ → Bool
has_sep [] = false
has_sep (c ∷ cs) = c == 124 || has_sep cs

abbrev pub joined : Option Text → Text → List ℕ
joined none name = name.bytes
joined (some ns) name = ns.bytes ++ 124 ∷ name.bytes

abbrev pub bytes_of : Option Text → Option (List ℕ)
bytes_of none = none
bytes_of (some t) = some t.bytes

-- Names that are told apart behind the join: without a separator in front of it.
abbrev pub IsSplit : Option Text → Text → Type 0
IsSplit none name = (name.terminated ≡ false) × (has_sep name.bytes ≡ false)
IsSplit (some ns) name =
    (name.terminated ≡ false) × (ns.terminated ≡ false) × (has_sep ns.bytes ≡ false)

abbrev pub IsCounted : Option Text → Type 0
IsCounted none = Unit
IsCounted (some t) = t.terminated ≡ false

counted-bytes : (t : Text) → t.terminated ≡ false → counted t.bytes ≡ t
counted-bytes t h = ap (λ b. record { bytes = t.bytes; terminated = b }) (sym h)

ns_of-bytes_of : (t : Option Text) → IsCounted t → ns_of (bytes_of t) ≡ t
ns_of-bytes_of none h = refl
ns_of-bytes_of (some t) h = ap some (counted-bytes t h)

neither : (b c : Bool) → (b || c) ≡ false → (b ≡ false) × (c ≡ false)
neither true c h = absurd (ground arith)
neither false c h = (refl, h)

split_plain : (s : List ℕ) → has_sep s ≡ false → split_name s ≡ (none, s)
unfolding split_name
split_plain [] h = refl
split_plain (c ∷ cs) h =
    let (other, plain) = neither (c == 124) (has_sep cs) h in rw (other, split_plain cs plain) refl

split_joined : (ns s : List ℕ) → has_sep ns ≡ false → split_name (ns ++ 124 ∷ s) ≡ (some ns, s)
unfolding split_name
split_joined [] s h = refl
split_joined (c ∷ cs) s h =
    let (other, plain) = neither (c == 124) (has_sep cs) h in
    rw (other, split_joined cs s plain) refl

abbrev parts : List ℕ → Option Text × Text
parts s = (ns_of (split_name s).0, counted (split_name s).1)

split_lem : (ns : Option Text) (name : Text) → IsSplit ns name → parts (joined ns name) ≡ (ns, name)
split_lem none name (a, b) = rw (split_plain name.bytes b, counted-bytes name a)
split_lem (some ns) name (a, b, c) =
    rw (split_joined ns.bytes name.bytes c, counted-bytes ns b, counted-bytes name a)

abbrev pub attribute_call : Tree.Attribute → List ℕ × List ℕ
attribute_call a = (joined a.ns a.name, a.value.bytes)

abbrev pub namespace_call : Tree.Declaration → Callback
namespace_call d = start_namespace (bytes_of d.prefix) (bytes_of d.ns)

-- Expat reports the declarations of a tag in front of it.
abbrev pub callbacks : Tree.Event → List Callback
callbacks (Tree.opens tag) =
    map namespace_call tag.declared
    ++ start_element (joined tag.ns tag.name) (map attribute_call tag.attributes) ∷ []
callbacks (Tree.closes tag) = end_element (joined tag.ns tag.name) ∷ []
callbacks (Tree.characters s) = character_data s ∷ []

abbrev pub callbacks_all : List Tree.Event → List Callback
callbacks_all [] = []
callbacks_all (e ∷ es) = callbacks e ++ callbacks_all es

abbrev pub AreSplit : List Tree.Attribute → Type 0
AreSplit [] = Unit
AreSplit (a ∷ as') = IsSplit a.ns a.name × (a.value.terminated ≡ false) × AreSplit as'

-- A declaration has a namespace.
abbrev pub AreDeclared : List Tree.Declaration → Type 0
AreDeclared [] = Unit
AreDeclared (d ∷ ds) =
    ((uri : List ℕ) × (d.ns ≡ some (counted uri))) × IsCounted d.prefix × AreDeclared ds

abbrev pub IsReported : Tree.Event → Type 0
IsReported (Tree.opens tag) =
    IsSplit tag.ns tag.name × AreDeclared tag.declared × AreSplit tag.attributes
IsReported (Tree.closes tag) = IsSplit tag.ns tag.name
IsReported (Tree.characters s) = Unit

abbrev pub AreReported : List Tree.Event → Type 0
AreReported [] = Unit
AreReported (e ∷ es) = IsReported e × AreReported es

module _ (env : Env) where
  attributes_lem :
      (as' : List Tree.Attribute) (ctx : Ctx)
      → AreSplit as'
      → make_attributes env (map attribute_call as') ctx ≡ Tree.walk env as' ctx
  unfolding make_attributes Tree.walk make_attribute
  attributes_lem [] ctx h = refl
  attributes_lem (a ∷ as') ctx (named, val, more) =
      ap
        (λ r.
          make_attributes env (map attribute_call as')
            (make_attribute env r.0 r.1 (counted a.value.bytes) ctx).0)
        (split_lem a.ns a.name named)
      ∙ ap
          (λ v.
            make_attributes env (map attribute_call as') (make_attribute env a.ns a.name v ctx).0)
          (counted-bytes a.value val)
      ∙ attributes_lem as' (make_attribute env a.ns a.name a.value ctx).0 more

  module _ {P : Type 0} where
    -- The driver between two calls that report nothing to come.
    abbrev pub at : Ctx → P → Data P
    at ctx p = record { ctx = ctx; parser = some p; declared_nss = [] }

    run_callbacks-append :
        (cs ds : List Callback) (edd : Data P)
        → run_callbacks env (cs ++ ds) edd ≡ run_callbacks env ds (run_callbacks env cs edd)
    unfolding run_callbacks
    run_callbacks-append [] ds edd = refl
    run_callbacks-append (c ∷ cs) ds edd = run_callbacks-append cs ds (call env c edd)

    declared_lem :
        (ds : List Tree.Declaration) (edd : Data P)
        → AreDeclared ds
        → run_callbacks env (map namespace_call ds) edd
          ≡ record edd { declared_nss = Tree.declare env edd.ctx ds edd.declared_nss }
    unfolding run_callbacks call Tree.declare
    declared_lem [] edd h = refl
    declared_lem (d ∷ ds) edd ((uri, named), prefixed, more) =
        let next = λ (n : Option Text). λ (pre : Option Text). record edd {
          declared_nss = make_declared_ns_in_buf env edd.ctx n pre edd.declared_nss;
        } in
        ap (run_callbacks env (map namespace_call ds)) (
          ap (λ n. call env (start_namespace (bytes_of d.prefix) (bytes_of n)) edd) named
          ∙ ap (next (some (counted uri))) (ns_of-bytes_of d.prefix prefixed)
          ∙ ap (λ n. next n d.prefix) (sym named))
        ∙ declared_lem ds (next d.ns d.prefix) more

    handled :
        (e : Tree.Event) (ctx : Ctx) (p : P)
        → IsReported e
        → run_callbacks env (callbacks e) (at ctx p) ≡ at (Tree.handle env e ctx) p
    unfolding run_callbacks call Tree.handle
    handled (Tree.opens tag) ctx p (named, declared, attributed) =
        let entered = λ (r : Option Text × Text). λ (f : Ctx → Step).
          at
            (enter_element env r.0 r.1 (formatted (some (Tree.declare env ctx tag.declared [])))
              (some f) ctx).0
            p in
        run_callbacks-append (map namespace_call tag.declared) _ (at ctx p)
        ∙ ap (run_callbacks env (callbacks (Tree.opens (record tag { declared = [] }))))
            (declared_lem tag.declared (at ctx p) declared)
        ∙ ap (λ r. entered r (make_attributes env (map attribute_call tag.attributes)))
            (split_lem tag.ns tag.name named)
        ∙ ap (entered (tag.ns, tag.name))
            (fun_ext (λ c. attributes_lem tag.attributes c attributed))
    handled (Tree.closes tag) ctx p named =
        ap (λ r. at (exit_element env r.0 r.1 ctx).0 p) (split_lem tag.ns tag.name named)
    handled (Tree.characters s) ctx p h = refl

    -- The callbacks of a sequence of events leave the context that the events leave.
    pub run_callbacks_lem :
        (es : List Tree.Event) (ctx : Ctx) (p : P)
        → AreReported es
        → run_callbacks env (callbacks_all es) (at ctx p) ≡ at (Tree.feed env es ctx) p
    unfolding run_callbacks Tree.feed
    run_callbacks_lem [] ctx p h = refl
    run_callbacks_lem (e ∷ es) ctx p (h, hs) =
        run_callbacks-append (callbacks e) (callbacks_all es) (at ctx p)
        ∙ ap (run_callbacks env (callbacks_all es)) (handled e ctx p h)
        ∙ run_callbacks_lem es (Tree.handle env e ctx) p hs
