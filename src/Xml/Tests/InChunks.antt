-- ===== src/Xml/Tests/InChunks.antt =====
-- A stream in two chunks, cut behind an opening tag, and in three.
use hz_platform.Prelude.{
  ℕ, suc, ◌≡◌, refl, List, [], ◌∷◌, ◌++◌, none, some, ◌==◌, length, if◌then◌else◌, arith,
}
use hz_platform.Run.{ok}
use hz_platform.Ei.{encode, empty_list}
use hz_platform.Text.{codes}
use hz_platform.Xml.Context.{Ctx}
use hz_platform.Xml.Encode.{Env}
use hz_platform.Xml.Known.{env_of}
use hz_platform.Xml.Build.Tree
use hz_platform.Xml.Build.Stream.{stream_events, stream_term}
use hz_platform.Xml.Expat.{Library, Reply}
use hz_platform.Xml.Expat.Callbacks.{at, callbacks_all, IsReported}
use hz_platform.Xml.Expat.Chunk.{settled}
use hz_platform.Xml.Expat.Session.{
  Chunk, bytes, delivered, AllSucceed, parse_all, Reports, session, rechunked,
}
use hz_platform.Xml.Tests.{ei_255, splitting, nothing_known, no_memory, tag_of, iq}

abbrev start : List Tree.Event
start = Tree.opens (tag_of (codes "stream")) ∷ Tree.opens (tag_of (codes "iq")) ∷ []

abbrev text : List Tree.Event
text = Tree.characters (codes "hi") ∷ []

abbrev end : List Tree.Event
end = Tree.closes (tag_of (codes "iq")) ∷ []

abbrev two : List Chunk
two = (codes "<stream><iq>", start) ∷ (codes "hi</iq>", text ++ end) ∷ []

abbrev three : List Chunk
three = (codes "<stream><iq>", start) ∷ (codes "hi", text) ∷ (codes "</iq>", end) ∷ []

-- A parser that knows these chunks by their length, and counts them.
abbrev reports : ℕ → List Tree.Event
reports n =
    if n == 12 then start else (if n == 7 then text ++ end else (if n == 2 then text else end))

abbrev by_length : Library ℕ
by_length = record {
  create = some 0;
  reset = λ p. 0;
  xml_parse = λ p buf final. (suc p, callbacks_all (reports (length buf)), none);
}

abbrev known_env : Env
known_env = env_of ei_255 nothing_known

abbrev fed : Ctx
fed =
    Tree.feed known_env (stream_events (tag_of (codes "stream") ∷ []) (Tree.also iq Tree.leaf))
      (splitting 0)

tagged : (name : List ℕ) → IsReported (Tree.opens (tag_of name))
tagged name =
    ((refl, refl, refl), ((codes "jabber:client", refl), tt, tt), ((refl, refl), refl, tt))

two_given : Reports by_length 0 two 2
two_given = (
  1,
  refl,
  (tagged (codes "stream"), (tagged (codes "iq"), tt)),
  (2, refl, (tt, ((refl, refl, refl), tt)), refl),
)

session_example :
    (replies : List Reply) × (parse_all by_length no_memory ei_255
        (bytes two)
        nothing_known
        (at known_env (splitting 0) 0)
      ≡ ok (nothing_known, at known_env (settled 19 fed) 2, replies))
    × AllSucceed replies
    × (delivered replies ++ empty_list ∷ []
        ≡ encode (
            stream_term known_env
              (Tree.naming (splitting 0))
              (tag_of (codes "stream") ∷ [])
              (Tree.also iq Tree.leaf)))
unfolding stream_events Tree.events Tree.events_all
session_example =
    session by_length no_memory ei_255 nothing_known (tag_of (codes "stream") ∷ [])
      (Tree.also iq Tree.leaf) two (splitting 0) 0 2 refl refl refl refl (omega arith) two_given
      refl

three_given : Reports by_length 0 three 3
three_given = (
  1,
  refl,
  (tagged (codes "stream"), (tagged (codes "iq"), tt)),
  (2, refl, (tt, tt), (3, refl, ((refl, refl, refl), tt), refl)),
)

rechunked_example :
    (replies replies' : List Reply) × (last : Ctx) × (parse_all by_length no_memory ei_255
        (bytes two)
        nothing_known
        (at known_env (splitting 0) 0)
      ≡ ok (nothing_known, at known_env (settled 19 last) 2, replies))
    × (parse_all by_length no_memory ei_255
          (bytes three)
          nothing_known
          (at known_env (splitting 0) 0)
        ≡ ok (nothing_known, at known_env (settled 19 last) 3, replies'))
    × (AllSucceed replies × AllSucceed replies')
    × (delivered replies ≡ delivered replies')
rechunked_example =
    rechunked by_length no_memory ei_255 nothing_known two three (splitting 0) 0 2 3 refl refl
      (omega arith) (omega arith) two_given three_given refl
