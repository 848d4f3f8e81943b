-- ===== src/Xml/Tests/OnLibxml2.antt =====
-- A run of the driver on libxml2.
use hz_platform.Prelude.{ℕ, ◌≡◌, refl, map, [], ◌∷◌, none, some, pos, replicate}
use hz_platform.Run.{ok}
use hz_platform.Ei.{encode, version, atom, string}
use hz_platform.Text.{codes, counted, c_string}
use hz_platform.Xml.Encode.{encode_elem}
use hz_platform.Xml.Build.Tree
use hz_platform.Xml.Known.{env_of}
use hz_platform.Xml.Libxml2
use hz_platform.Xml.Libxml2.Callbacks
use hz_platform.Xml.Libxml2.Replies.{with_parser, advanced, chunk_replies}
use hz_platform.Xml.Tests.{all_known, ei_255, splitting, nothing_known, no_memory, under}

abbrev c_tag : Tree.Tag
c_tag = record {
  ns = some (c_string (codes "jabber:client"));
  name = c_string (codes "iq");
  declared = record { ns = some (c_string (codes "jabber:client")); prefix = none } ∷ [];
  attributes = record { ns = none; name = c_string (codes "id"); value = counted (codes "7") } ∷ [];
}

abbrev c_iq : Tree.Node
c_iq = Tree.elem c_tag (Tree.also (Tree.text (codes "hi")) Tree.leaf)

abbrev one_c_stanza : Libxml2.Library ℕ
one_c_stanza = record {
  create = some 0;
  reset = λ p. 0;
  parse_chunk = λ p buf final.
      (ℕ.suc p, map Callbacks.callback (Tree.events_all (Tree.also c_iq Tree.leaf)), none);
}

c_reported : Callbacks.AreReported (Tree.events_all (Tree.also c_iq Tree.leaf))
unfolding Tree.events_all Tree.events
c_reported = ((refl, refl, (refl, tt, tt), (tt, refl, refl, tt)), (tt, ((refl, refl), tt)))

chunk_replies_example :
    Libxml2.exmpp_xml_control one_c_stanza no_memory ei_255
      (Libxml2.parse (codes "<iq id='7'>hi</iq>"))
      nothing_known
      (with_parser one_c_stanza (splitting 1) 0)
    ≡ ok (
      nothing_known,
      advanced one_c_stanza (splitting 1) 18 1,
      record {
        ret = pos 0;
        items =
            version
            ∷ encode (
                Tree.to_list
                  (env_of ei_255 nothing_known)
                  (Tree.naming (splitting 1))
                  (Tree.also c_iq Tree.leaf));
      },
    )
chunk_replies_example =
    chunk_replies one_c_stanza no_memory ei_255 nothing_known c_iq Tree.leaf
      (codes "<iq id='7'>hi</iq>") (splitting 1) 0 1 refl refl refl under refl c_reported

-- A name of 256 bytes is an atom that ei cuts, if it is passed without its length, and else a string.
long_name_cut :
    encode_elem all_known (splitting 1) (c_string (replicate 256 97)) ≡ atom (replicate 255 97) ∷ []
unfolding encode_elem
long_name_cut = refl

long_name_kept :
    encode_elem all_known (splitting 1) (counted (replicate 256 97))
    ≡ string (replicate 256 97) ∷ []
unfolding encode_elem
long_name_kept = refl
