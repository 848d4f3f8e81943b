-- ===== src/Xml/Tests.antt =====
-- Runs of the construction of terms, and of the driver on Expat.
mod OnLibxml2
mod OnLegacy
mod OnLists
mod InChunks
use hz_platform.Prelude.{
  ◌≤◌, take, ap, sym, ◌∙◌, ◌&&◌, leb, length, replicate, if◌then◌else◌, arith, ℕ, ◌≡◌, refl, true,
  false, List, map, [], ◌∷◌, ◌++◌, none, some, pos,
}
use hz_platform.Run.{ok, Post, Returns}
use hz_platform.Ei.{encode, empty_list, version, atom, string}
use hz_platform.Text.{codes, counted, c_string}
use hz_platform.Xml.Context.{Ctx, Handle, new_with_version, is_data_size_under_limit}
use hz_platform.Xml.Encode.{Env, EiAtoms, encode_ns}
use hz_platform.Xml.Build.{deeper}
use hz_platform.Xml.Build.Tree
use hz_platform.Xml.Build.Stanza.{ship, stanza, opens-above, closes-above}
use hz_platform.Xml.Build.Stream.{stanzas, stream, stream_events, stream_term}
use hz_platform.Xml.Build.Settled.{IsSettled, handle-IsSettled}
use hz_platform.Xml.Known.{Known, Memory, env_of}
use hz_platform.Xml.Known
use mathlib.Core.Path.{subst}
use hz_platform.HashTable.{Table, exmpp_ht_create}
use hz_platform.HashTable.Primes.{load_limit_of, first_prime, scan_primes, to_float, excess}
use hz_platform.HashTable.Lookup.{NulFree}
use hz_platform.HashTable.Map.{Models, create-Models}
use hz_platform.Xml.Known.Selects.{no_zero-NulFree, same_some}
use hz_platform.Xml.Known.Atoms.{IsNew, named_list, is_listed, select_nss-add_nss}
use hz_platform.Xml.Control
use hz_platform.Xml.Control.Selected.{HasLists, control-HasLists}
use hz_platform.Xml.Expat.Limit.{Kept, parse_data-Kept}
use hz_platform.Xml.Expat.{Library, parse, parse_data, exmpp_xml_control}
use hz_platform.Xml.Expat.Callbacks.{at, callbacks_all, AreReported}
use hz_platform.Xml.Libxml2
use hz_platform.Xml.Libxml2.Callbacks
use hz_platform.Xml.Libxml2.Replies.{with_parser, advanced, chunk_replies}
use hz_platform.Xml.Expat.Replies.{counted_up, answer_of, parse_replies}

pub take_short : (n : ℕ) (s : List ℕ) → length s ≤ n → take n s ≡ s
take_short ℕ.zero [] h = refl
take_short (ℕ.suc n) [] h = refl
take_short ℕ.zero (x ∷ s) h = absurd (omega arith)
take_short (ℕ.suc n) (x ∷ s) h = ap (λ t. x ∷ t) (take_short n s (omega arith))

-- An ei that writes the first 255 bytes of a longer name.
abbrev pub ei_255 : EiAtoms
ei_255 = record { max_atom_len = 255; cut = take 255; whole = take_short 255 }

abbrev pub all_known : Env
all_known = record { ei = ei_255; exists = λ h s. true }

-- A context that splits behind the opening tag of the stream.
abbrev pub splitting : ℕ → Ctx
splitting depth = record {
  names_as_atom = true;
  check_nss = false;
  check_elems = false;
  emit_endtag = true;
  max_size = pos 1000;
  root_depth = pos 1;
  known_nss = none;
  known_elems = none;
  cur_size = 0;
  depth = depth;
  current_tree = [];
  complete_trees = new_with_version;
  complete_trees_ready = false;
}

abbrev pub tag_of : List ℕ → Tree.Tag
tag_of name = record {
  ns = some (counted (codes "jabber:client"));
  name = counted name;
  declared = record { ns = some (counted (codes "jabber:client")); prefix = none } ∷ [];
  attributes = record { ns = none; name = counted (codes "id"); value = counted (codes "7") } ∷ [];
}

abbrev pub iq : Tree.Node
iq = Tree.elem (tag_of (codes "iq")) (Tree.also (Tree.text (codes "hi")) Tree.leaf)

stanza_example :
    Tree.feed all_known (Tree.events iq) (splitting 1)
    ≡ ship (encode (Tree.to_term all_known (Tree.naming (splitting 1)) iq)) (splitting 1)
stanza_example = stanza all_known (splitting 1) refl iq refl

opened_above :
    Tree.handle all_known (Tree.opens (tag_of (codes "stream"))) (splitting 0)
    ≡ deeper (
        ship
          (encode (Tree.open_term all_known (Tree.naming (splitting 0)) (tag_of (codes "stream"))))
          (splitting 0))
opened_above = opens-above all_known (splitting 0) refl (tag_of (codes "stream")) refl

closed_above :
    Tree.handle all_known (Tree.closes (tag_of (codes "stream"))) (deeper (splitting 0))
    ≡ ship
        (encode (Tree.end_tag all_known (Tree.naming (splitting 0)) (tag_of (codes "stream"))))
        (splitting 0)
closed_above = closes-above all_known (splitting 0) refl (tag_of (codes "stream")) refl

stanzas_shipped :
    Tree.feed all_known (Tree.events_all (Tree.also iq Tree.leaf)) (splitting 1)
    ≡ record (splitting 1) {
      current_tree = [];
      complete_trees =
          new_with_version
          ++ Tree.kid_items all_known (Tree.naming (splitting 1)) (Tree.also iq Tree.leaf);
      complete_trees_ready = true;
    }
stanzas_shipped = stanzas all_known (Tree.also iq Tree.leaf) (splitting 1) refl refl

abbrev fed : Ctx
fed =
    Tree.feed all_known (stream_events (tag_of (codes "stream") ∷ []) (Tree.also iq Tree.leaf))
      (splitting 0)

stream_example :
    fed.complete_trees ++ empty_list ∷ []
    ≡ new_with_version
      ++ encode (
          stream_term all_known
            (Tree.naming (splitting 0))
            (tag_of (codes "stream") ∷ [])
            (Tree.also iq Tree.leaf))
stream_example =
    stream all_known (tag_of (codes "stream") ∷ []) (Tree.also iq Tree.leaf) (splitting 0) refl refl

handle-IsSettled_example :
    IsSettled (Tree.handle all_known (Tree.closes (tag_of (codes "iq"))) (splitting 1))
handle-IsSettled_example =
    handle-IsSettled all_known (Tree.closes (tag_of (codes "iq"))) (splitting 1) (λ h. refl)

abbrev pub nothing_known : Known
nothing_known = record { nss_index = none; elems_index = none; lists = [] }

abbrev pub no_memory : Memory
no_memory = record { fresh_index = λ n. none; fresh_list = λ n. none }

-- A parser that finds the same stanza in every chunk, and counts them.
abbrev one_stanza : Library ℕ
one_stanza = record {
  create = some 0;
  reset = λ p. 0;
  xml_parse =
      λ p buf final. (ℕ.suc p, callbacks_all (Tree.events_all (Tree.also iq Tree.leaf)), none);
}

pub under : is_data_size_under_limit (splitting 1) 18 ≡ true
unfolding is_data_size_under_limit
under = refl

reported : AreReported (Tree.events_all (Tree.also iq Tree.leaf))
unfolding Tree.events_all Tree.events
reported = (
  ((refl, refl, refl), ((codes "jabber:client", refl), tt, tt), ((refl, refl), refl, tt)),
  (tt, ((refl, refl, refl), tt)),
)

parse_replies_example :
    exmpp_xml_control one_stanza no_memory ei_255
      (parse (codes "<iq id='7'>hi</iq>"))
      nothing_known
      (at (env_of ei_255 nothing_known) (splitting 1) 0)
    ≡ ok (
      nothing_known,
      at (env_of ei_255 nothing_known) (counted_up one_stanza (splitting 1) 18) 1,
      answer_of one_stanza
          (env_of ei_255 nothing_known)
          (Tree.naming (splitting 1))
          (Tree.also iq Tree.leaf),
    )
parse_replies_example =
    parse_replies one_stanza no_memory ei_255 nothing_known iq Tree.leaf
      (codes "<iq id='7'>hi</iq>") (splitting 1) 0 1 refl refl refl under refl reported

parse_data-Kept_example : Kept (splitting 1) 18 false (
    parse_data one_stanza all_known false
      (codes "<iq id='7'>hi</iq>")
      (at all_known (splitting 1) 0))
parse_data-Kept_example =
    parse_data-Kept one_stanza all_known false (codes "<iq id='7'>hi</iq>")
      (at all_known (splitting 1) 0) (omega arith)

control-HasLists_example :
    Post
      (λ o. HasLists o.ctx)
      (Control.control no_memory Known.set_check_nss
        (version ∷ atom (codes "true") ∷ [])
        new_with_version
        nothing_known
        (splitting 1))
control-HasLists_example =
    control-HasLists no_memory Known.set_check_nss (version ∷ atom (codes "true") ∷ [])
      new_with_version nothing_known (splitting 1) (tt, tt)
