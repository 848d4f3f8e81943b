-- ===== src/Xml/Legacy/Replies.antt =====
-- What the legacy driver answers to a chunk of a stream.
use hz_platform.Prelude.{ℕ, ◌+◌, false, [], ◌∷◌, some, pos}
use hz_platform.Ei.{encode, version}
use hz_platform.Xml.Context.{Ctx, new_with_version}
use hz_platform.Xml.Encode.{Env}
use hz_platform.Xml.Build.Tree.{Naming}
use hz_platform.Xml.Known.{Known}
use hz_platform.Xml.Expat.{Reply}
use hz_platform.Xml.Legacy.{Library, Data}
use hz_platform.Xml.Legacy.Tree

abbrev items_of : Env → Naming → Tree.Nodes → Reply
items_of env o ns = record { ret = pos 0; items = version ∷ encode (Tree.to_list env o ns) }

module _ {P : Type 0} (lib : Library P) where
  -- The driver's data with a parser, and the same behind a chunk of complete nodes.
  abbrev pub with_parser : Ctx → P → Data P
  with_parser ctx p = record { ctx = ctx; parser = some p }

  abbrev pub advanced : Ctx → ℕ → P → Data P
  advanced ctx size p =
      with_parser
        (record ctx {
          cur_size = ctx.cur_size + size;
          current_tree = [];
          complete_trees = new_with_version;
          complete_trees_ready = false;
        })
        p
