-- ===== src/Xml/Build/Tree.antt =====
-- The abstract side of the construction: an XML tree, the parser events that it gives, and the
-- Erlang term that the driver should build for it.
use hz_platform.Prelude.{
  ℕ, ◌≡◌, refl, Bool, true, false, List, [], ◌∷◌, ◌++◌, Option, none, some, ◌&&◌, append_assoc,
  if◌then◌else◌, map, leb, length,
}
use hz_platform.Ei.{Buff, Term, Terms, tuple, nil, cons, end, more, encode, list_header, empty_list}
use hz_platform.Text.{codes, Text}
use hz_platform.Xml.Context.{Ctx, Handle}
use hz_platform.Xml.Encode.{Env, fits_atom}
use hz_platform.Xml.Build.{
  Step, ◌>>=◌, success, formatted, enter_element, exit_element, add_character_data, make_attribute,
  make_declared_ns_in_buf,
}

pub record Attribute : Type 0 where
  pub ns : Option Text
  pub name : Text
  pub value : Text

-- A namespace and its prefix.
pub record Declaration : Type 0 where
  pub ns : Option Text
  pub prefix : Option Text

pub record Tag : Type 0 where
  pub ns : Option Text
  pub name : Text
  pub declared : List Declaration
  pub attributes : List Attribute

mutual
  pub data Node : Type 0 where
    elem : Tag → Nodes → Node
    text : List ℕ → Node

  pub data Nodes : Type 0 where
    leaf : Nodes
    also : Node → Nodes → Nodes

-- What the parser reports to the driver.
pub data Event : Type 0 where
  opens closes : Tag → Event
  characters : List ℕ → Event

unfoldable mutual
  pub events : Node → List Event
  events (elem tag kids) = opens tag ∷ (events_all kids ++ closes tag ∷ [])
  events (text s) = characters s ∷ []

  pub events_all : Nodes → List Event
  events_all leaf = []
  events_all (also n ns) = events n ++ events_all ns

module _ (env : Env) where
  -- The walk over the attributes, and the list of the declared namespaces, as the parsers make them.
  unfoldable pub walk : List Attribute → Ctx → Step
  walk [] ctx = success ctx
  walk (a ∷ as') ctx = make_attribute env a.ns a.name a.value ctx >>= walk as'

  unfoldable pub declare : Ctx → List Declaration → Buff → Buff
  declare ctx [] buf = buf
  declare ctx (d ∷ ds) buf = declare ctx ds (make_declared_ns_in_buf env ctx d.ns d.prefix buf)

  -- The parser ignores what the functions return.
  unfoldable pub handle : Event → Ctx → Ctx
  handle (opens tag) ctx =
      (enter_element env tag.ns tag.name (formatted (some (declare ctx tag.declared [])))
        (some (walk tag.attributes)) ctx).0
  handle (closes tag) ctx = (exit_element env tag.ns tag.name ctx).0
  handle (characters s) ctx = (add_character_data env s ctx).0

  unfoldable pub feed : List Event → Ctx → Ctx
  feed [] ctx = ctx
  feed (e ∷ es) ctx = feed es (handle e ctx)

abbrev pub list_of : List Term → Term
list_of [] = nil
list_of (t ∷ ts) = cons t (list_of ts)

abbrev pub three : Term → Term → Term → Terms
three a b c = more a (more b (more c end))

-- The options of a context that decide how a name is written.
pub record Naming : Type 0 where
  pub names_as_atom : Bool
  pub check_nss : Bool
  pub check_elems : Bool
  pub known_nss : Option Handle
  pub known_elems : Option Handle

abbrev pub naming : Ctx → Naming
naming ctx = record {
  names_as_atom = ctx.names_as_atom;
  check_nss = ctx.check_nss;
  check_elems = ctx.check_elems;
  known_nss = ctx.known_nss;
  known_elems = ctx.known_elems;
}

-- With the check on, the name has to be in the list that is selected.
abbrev pub is_allowed : Env → Bool → Option Handle → Text → Bool
is_allowed env false kl s = true
is_allowed env true none s = false
is_allowed env true (some kl) s = env.exists kl s

-- The name of an atom: a name of up to MAXATOMLEN bytes as it is, a longer one as ei cuts it.
abbrev pub atom_name : Env → List ℕ → List ℕ
atom_name env s = if leb (length s) env.ei.max_atom_len then s else env.ei.cut s

-- A name is an atom if it is short enough or passed without a length, atoms are wanted and it is
-- allowed; else a string.
abbrev pub ns_term : Env → Naming → Option Text → Term
ns_term env o none = Term.atom (codes "undefined")
ns_term env o (some ns) =
    if (fits_atom env ns && o.names_as_atom) && is_allowed env o.check_nss o.known_nss ns
    then Term.atom (atom_name env ns.bytes)
    else Term.string ns.bytes

abbrev pub elem_term : Env → Naming → Text → Term
elem_term env o name =
    if (fits_atom env name && o.names_as_atom) && is_allowed env o.check_elems o.known_elems name
    then Term.atom (atom_name env name.bytes)
    else Term.string name.bytes

-- {xmlattr, NS, Name, Value}
abbrev pub attribute_term : Env → Naming → Attribute → Term
attribute_term env o a = tuple (
    more (Term.atom (codes "xmlattr"))
      (three (ns_term env o a.ns) (Term.binary a.name.bytes) (Term.binary a.value.bytes)))

abbrev pub prefix_term : Option Text → Term
prefix_term none = Term.atom (codes "none")
prefix_term (some p) = Term.string p.bytes

-- {NS, Prefix}
abbrev pub declaration_term : Env → Naming → Declaration → Term
declaration_term env o d = tuple (more (ns_term env o d.ns) (more (prefix_term d.prefix) end))

-- {xmlel, NS, Declared_NS, Name, Attributes, Children} and {xmlcdata, Text}
abbrev pub xmlel : Env → Naming → Tag → Term → Term
xmlel env o tag children = tuple (
    more (Term.atom (codes "xmlel")) (
      more (ns_term env o tag.ns) (
        more (list_of (map (declaration_term env o) tag.declared)) (
          three (elem_term env o tag.name) (list_of (map (attribute_term env o) tag.attributes))
            children))))

abbrev pub xmlcdata : List ℕ → Term
xmlcdata s = tuple (more (Term.atom (codes "xmlcdata")) (more (Term.binary s) end))

unfoldable mutual
  pub to_term : Env → Naming → Node → Term
  to_term env o (elem tag kids) = xmlel env o tag (to_list env o kids)
  to_term env o (text s) = xmlcdata s

  pub to_list : Env → Naming → Nodes → Term
  to_list env o leaf = nil
  to_list env o (also n ns) = cons (to_term env o n) (to_list env o ns)

-- The items of the children of an element, without the end of the list.
unfoldable pub kid_items : Env → Naming → Nodes → Buff
kid_items env o leaf = []
kid_items env o (also n ns) = list_header 1 ∷ (encode (to_term env o n) ++ kid_items env o ns)

pub encode-to_list :
    (env : Env) (o : Naming) (ns : Nodes)
    → encode (to_list env o ns) ≡ kid_items env o ns ++ empty_list ∷ []
unfolding encode to_list kid_items
encode-to_list env o leaf = refl
encode-to_list env o (also n ns) = rw (encode-to_list env o ns, append_assoc)

-- {xmlendtag, NS, Name}
unfoldable pub end_tag : Env → Naming → Tag → Term
end_tag env o tag =
    tuple (three (Term.atom (codes "xmlendtag")) (ns_term env o tag.ns) (elem_term env o tag.name))

-- An element that is shipped at its opening tag has no children yet.
unfoldable pub open_term : Env → Naming → Tag → Term
open_term env o tag = xmlel env o tag (Term.atom (codes "undefined"))
