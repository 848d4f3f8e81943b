-- ===== src/Xml/Libxml2/Callbacks.antt =====
-- The callbacks that libxml2 reports for the events of an XML tree, and that the driver handles them
-- as those events: walking the declared namespaces writes what the other driver has formatted.
use hz_platform.Prelude.{
  ℕ, ◌≡◌, refl, sym, ap, ◌∙◌, Bool, true, false, List, [], ◌∷◌, ◌++◌, Option, none, some, map,
  append_assoc, append-nil, on_both,
}
use mathlib.Core.Path.{fun_ext}
use hz_platform.Ei.{Buff, list_header, tuple_header, empty_list, atom}
use hz_platform.Text.{codes, Text, c_string, counted}
use hz_platform.Xml.Context.{Ctx}
use hz_platform.Xml.Encode.{Env, encode_ns, encode_elem}
use hz_platform.Xml.Build.{
  Step, ◌>>=◌, success, add_attributes, deeper, ship_open, put, start_node, at_or_above, walked,
  formatted, add_declared, enter_element, exit_element, make_attribute, make_declared_ns,
  make_declared_ns_in_buf,
}
use hz_platform.Xml.Build.Tree
use hz_platform.Xml.Libxml2.{
  Namespace, Attr, Callback, start_element, end_element, character_data, c_text, make_declared_nss,
  make_attributes, call, run_callbacks,
}

abbrev pub bytes_of : Option Text → Option (List ℕ)
bytes_of none = none
bytes_of (some t) = some t.bytes

abbrev pub namespace_of : Tree.Declaration → Namespace
namespace_of d = record { prefix = bytes_of d.prefix; uri = bytes_of d.ns }

abbrev pub attr_of : Tree.Attribute → Attr
attr_of a = record { ns = bytes_of a.ns; name = a.name.bytes; value = a.value.bytes }

abbrev pub callback : Tree.Event → Callback
callback (Tree.opens tag) =
    start_element tag.name.bytes (bytes_of tag.ns) (map namespace_of tag.declared)
      (map attr_of tag.attributes)
callback (Tree.closes tag) = end_element tag.name.bytes (bytes_of tag.ns)
callback (Tree.characters s) = character_data s

-- A text of libxml2 ends with a 0.
abbrev pub IsTerminated : Option Text → Type 0
IsTerminated none = Unit
IsTerminated (some t) = t.terminated ≡ true

abbrev pub AreDeclared : List Tree.Declaration → Type 0
AreDeclared [] = Unit
AreDeclared (d ∷ ds) = IsTerminated d.ns × IsTerminated d.prefix × AreDeclared ds

abbrev pub AreGiven : List Tree.Attribute → Type 0
AreGiven [] = Unit
AreGiven (a ∷ as') =
    IsTerminated a.ns × (a.name.terminated ≡ true) × (a.value.terminated ≡ false) × AreGiven as'

abbrev pub IsReported : Tree.Event → Type 0
IsReported (Tree.opens tag) =
    IsTerminated tag.ns
    × (tag.name.terminated ≡ true)
    × AreDeclared tag.declared
    × AreGiven tag.attributes
IsReported (Tree.closes tag) = IsTerminated tag.ns × (tag.name.terminated ≡ true)
IsReported (Tree.characters s) = Unit

abbrev pub AreReported : List Tree.Event → Type 0
AreReported [] = Unit
AreReported (e ∷ es) = IsReported e × AreReported es

as_text : (t : Text) (b : Bool) → t.terminated ≡ b → record { bytes = t.bytes; terminated = b } ≡ t
as_text t b h = ap (λ c. record { bytes = t.bytes; terminated = c }) (sym h)

as_c_text : (t : Option Text) → IsTerminated t → c_text (bytes_of t) ≡ t
as_c_text none h = refl
as_c_text (some t) h = ap some (as_text t true h)

module _ (env : Env) where
  in_buf-append :
      (ctx : Ctx) (ns prefix : Option Text) (front buf : Buff)
      → make_declared_ns_in_buf env ctx ns prefix (front ++ buf)
        ≡ front ++ make_declared_ns_in_buf env ctx ns prefix buf
  unfolding make_declared_ns_in_buf
  in_buf-append ctx ns prefix front buf = simp (append_assoc)

  declare-append :
      (ds : List Tree.Declaration) (ctx : Ctx) (front buf : Buff)
      → Tree.declare env ctx ds (front ++ buf) ≡ front ++ Tree.declare env ctx ds buf
  unfolding Tree.declare
  declare-append [] ctx front buf = refl
  declare-append (d ∷ ds) ctx front buf =
      ap (Tree.declare env ctx ds) (in_buf-append ctx d.ns d.prefix front buf)
      ∙ declare-append ds ctx front (make_declared_ns_in_buf env ctx d.ns d.prefix buf)

  -- The list depends on the options of the context alone.
  declare_frame :
      (ds : List Tree.Declaration) (ctx : Ctx) (t buf : Buff)
      → Tree.declare env (record ctx { current_tree = t }) ds buf ≡ Tree.declare env ctx ds buf
  unfolding Tree.declare make_declared_ns_in_buf encode_ns
  declare_frame [] ctx t buf = refl
  declare_frame (d ∷ ds) ctx t buf =
      declare_frame ds ctx t (make_declared_ns_in_buf env ctx d.ns d.prefix buf)

  one_more :
      (d : Tree.Declaration) (ds : List Tree.Declaration) (ctx : Ctx)
      → make_declared_ns_in_buf env ctx d.ns d.prefix ctx.current_tree ++ Tree.declare env ctx ds []
        ≡ ctx.current_tree
          ++ Tree.declare env ctx ds (make_declared_ns_in_buf env ctx d.ns d.prefix [])
  one_more d ds ctx =
      let one = make_declared_ns_in_buf env ctx d.ns d.prefix [] in
      ap (λ t. make_declared_ns_in_buf env ctx d.ns d.prefix t ++ Tree.declare env ctx ds [])
        (sym (append-nil ctx.current_tree))
      ∙ ap (λ t. t ++ Tree.declare env ctx ds [])
          (in_buf-append ctx d.ns d.prefix ctx.current_tree [])
      ∙ append_assoc ctx.current_tree one (Tree.declare env ctx ds [])
      ∙ ap (λ t. ctx.current_tree ++ t)
          (sym (declare-append ds ctx one []) ∙ ap (Tree.declare env ctx ds) (append-nil one))

  declared_lem :
      (ds : List Tree.Declaration) (ctx : Ctx)
      → AreDeclared ds
      → make_declared_nss env (map namespace_of ds) ctx
        ≡ success (put (Tree.declare env ctx ds []) ctx)
  unfolding make_declared_nss make_declared_ns Tree.declare
  declared_lem [] ctx h =
      ap (λ t. success (record ctx { current_tree = t })) (sym (append-nil ctx.current_tree))
  declared_lem (d ∷ ds) ctx (named, prefixed, more) =
      let rest = map namespace_of ds in
      let with_tree = λ (t : Buff). record ctx { current_tree = t } in
      let added = λ (a b : Option Text). λ (buf : Buff). make_declared_ns_in_buf env ctx a b buf in
      let t1 = added d.ns d.prefix ctx.current_tree in
      ap
        (λ a.
          make_declared_nss env rest
            (with_tree (added a (c_text (bytes_of d.prefix)) ctx.current_tree)))
        (as_c_text d.ns named)
      ∙ ap (λ b. make_declared_nss env rest (with_tree (added d.ns b ctx.current_tree)))
          (as_c_text d.prefix prefixed)
      ∙ declared_lem ds (with_tree t1) more
      ∙ ap (λ t. success (with_tree (t1 ++ t))) (declare_frame ds ctx t1 [])
      ∙ ap (λ t. success (with_tree t)) (one_more d ds ctx)

  -- The loop of the driver leaves the same as a formatted list.
  walked_lem :
      (ds : List Tree.Declaration) (ctx : Ctx) (t : Buff)
      → AreDeclared ds
      → add_declared
          (walked (make_declared_nss env (map namespace_of ds)))
          (record (start_node ctx) { current_tree = t })
        ≡ add_declared
            (formatted (some (Tree.declare env ctx ds [])))
            (record (start_node ctx) { current_tree = t })
  unfolding add_declared start_node
  walked_lem ds ctx t h =
      let started = record (start_node ctx) { current_tree = t } in
      declared_lem ds started h
      ∙ ap (λ l. success (put l started))
          (declare_frame ds (start_node ctx) t []
            ∙ on_both (λ c. Tree.declare env c ds [] ≡ Tree.declare env ctx ds []) (at_or_above ctx)
                (λ _. refl) (λ _. declare_frame ds ctx (ctx.current_tree ++ list_header 1 ∷ []) []))

  -- enter_element behind the declared namespaces.
  abbrev behind_declared : Text → Option (Ctx → Step) → Ctx → Step
  behind_declared elem attributes declared = do
    let ended = put (empty_list ∷ []) declared
    listed ← add_attributes attributes (put (encode_elem env ended elem) ended)
    success (deeper (ship_open (put (empty_list ∷ []) listed)))

  enter_walked :
      (ns : Option Text) (elem : Text) (ds : List Tree.Declaration)
      (attributes : Option (Ctx → Step)) (ctx : Ctx)
      → AreDeclared ds
      → enter_element env ns elem
          (walked (make_declared_nss env (map namespace_of ds)))
          attributes
          ctx
        ≡ enter_element env ns elem (formatted (some (Tree.declare env ctx ds []))) attributes ctx
  unfolding enter_element
  enter_walked ns elem ds attributes ctx h =
      let opened = put (tuple_header 6 ∷ atom (codes "xmlel") ∷ []) (start_node ctx) in
      ap (λ r. r >>= behind_declared elem attributes)
        (walked_lem ds ctx (put (encode_ns env opened ns) opened).current_tree h)

  attributes_lem :
      (as' : List Tree.Attribute) (ctx : Ctx)
      → AreGiven as'
      → make_attributes env (map attr_of as') ctx ≡ Tree.walk env as' ctx
  unfolding make_attributes Tree.walk make_attribute
  attributes_lem [] ctx h = refl
  attributes_lem (a ∷ as') ctx (spaced, named, val, more) =
      let rest = map attr_of as' in
      ap
        (λ n.
          make_attributes env rest
            (make_attribute env n (c_string a.name.bytes) (counted a.value.bytes) ctx).0)
        (as_c_text a.ns spaced)
      ∙ ap (λ n. make_attributes env rest (make_attribute env a.ns n (counted a.value.bytes) ctx).0)
          (as_text a.name true named)
      ∙ ap (λ v. make_attributes env rest (make_attribute env a.ns a.name v ctx).0)
          (as_text a.value false val)
      ∙ attributes_lem as' (make_attribute env a.ns a.name a.value ctx).0 more

  handled :
      (e : Tree.Event) (ctx : Ctx)
      → IsReported e
      → call env (callback e) ctx ≡ Tree.handle env e ctx
  unfolding call Tree.handle
  handled (Tree.opens tag) ctx (spaced, named, declared, attributed) =
      let entered = λ (n : Option Text). λ (e : Text). λ (f : Ctx → Step).
        (enter_element env n e (walked (make_declared_nss env (map namespace_of tag.declared)))
          (some f) ctx).0 in
      let attrs = make_attributes env (map attr_of tag.attributes) in
      ap (λ n. entered n (c_string tag.name.bytes) attrs) (as_c_text tag.ns spaced)
      ∙ ap (λ e. entered tag.ns e attrs) (as_text tag.name true named)
      ∙ ap (entered tag.ns tag.name) (fun_ext (λ c. attributes_lem tag.attributes c attributed))
      ∙ ap (λ r. r.0)
          (enter_walked tag.ns tag.name tag.declared (some (Tree.walk env tag.attributes)) ctx
            declared)
  handled (Tree.closes tag) ctx (spaced, named) =
      ap (λ n. (exit_element env n (c_string tag.name.bytes) ctx).0) (as_c_text tag.ns spaced)
      ∙ ap (λ n. (exit_element env tag.ns n ctx).0) (as_text tag.name true named)
  handled (Tree.characters s) ctx h = refl

  -- The callbacks of a sequence of events leave the context that the events leave.
  pub run_callbacks_lem :
      (es : List Tree.Event) (ctx : Ctx)
      → AreReported es
      → run_callbacks env (map callback es) ctx ≡ Tree.feed env es ctx
  unfolding run_callbacks Tree.feed
  run_callbacks_lem [] ctx h = refl
  run_callbacks_lem (e ∷ es) ctx (h, hs) =
      ap (run_callbacks env (map callback es)) (handled e ctx h)
      ∙ run_callbacks_lem es (Tree.handle env e ctx) hs
