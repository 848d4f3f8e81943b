-- ===== src/Zlib.antt =====
-- lib/exmpp-0.9.8-05-g6987a0a/c_src/exmpp_compress_zlib.c, the compression driver. zlib is not part of
-- the repository: a stream is a value of a type `Z`, and a call of it gives the stream behind it, the
-- bytes it has written and its code. Memory is available.
pub mod Level
pub mod Pump
pub mod Drain
pub mod RoundTrip
mod Tests
use hz_platform.Prelude.{
  ℕ, zero, suc, ◌+◌, ◌-◌, Bool, true, false, ◌&&◌, ◌||◌, List, [], ◌∷◌, ◌++◌, Option, none, some,
  ltb, leb, ◌==◌, ℤ, pos, negsuc, length, if◌then◌else◌,
}
use hz_platform.Run.{Run, ok, fault, heap_overflow, ◌>>=◌}
use hz_platform.Ei.{Buff, tuple_header, atom, string, long, ulong}
use hz_platform.Ei.Input.{
  decode_atom, get_type, integer, an_atom, small_integer, a_string, other, exmpp_skip_version,
}
use hz_platform.Text.{codes, str_eq, up_to_nul}
use hz_platform.Answer.{Answer, reply, bytes, done}

pub data Code : Type 0 where
  z_ok z_stream_end z_buf_error z_mem_error z_version_error z_other_error : Code

-- `avail_out` is BUF_SIZE at each call of `deflate` and `inflate`; `set_input` sets `next_in` and
-- `avail_in`. The flag of the two that start a stream selects gzip.
pub record Library (Z : Type 0) : Type 0 where
  pub deflate_init : Bool → ℤ → Z → Z × Code
  pub inflate_init : Bool → Z → Z × Code
  pub set_input : List ℕ → Z → Z
  pub deflate : Z → Z × List ℕ × Code
  pub inflate : Z → Z × List ℕ × Code
  pub deflate_end : Z → Z
  pub inflate_end : Z → Z

-- struct exmpp_compress_zlib_data
pub record Data (Z : Type 0) : Type 0 where
  pub compress_level : ℤ
  pub use_gzip : Bool
  pub inf_z : Z
  pub def_z : Z

pub data Command : Type 0 where
  set_compress_method set_compress_level : Buff → Command
  prepare_compress prepare_uncompress : Command
  compress uncompress : List ℕ → Command
  svn_revision : Command
  unknown : ℕ → Command

abbrev pub buf_size : ℕ
buf_size = 1024

-- Z_DEFAULT_COMPRESSION
abbrev pub default_compression : ℤ
default_compression = negsuc 0

-- The binary of the answer: what is written, `rlen` being its length, and its allocated size.
pub record Binary : Type 0 where
  pub written : List ℕ
  pub size : ℕ

-- What zlib writes to `next_out`, and the lines behind the call: `rlen`, `size` and the reallocation.
unfoldable pub store : List ℕ → Binary → Run Binary
store out b =
    if leb (length b.written + length out) b.size
    then ok (record { written = b.written ++ out; size = b.size + length out })
    else fault heap_overflow

-- How the loop ends: by itself, by an error of zlib, or not with the given fuel.
pub data Pumped (Z : Type 0) : Type 0 where
  finished : Z → List ℕ → Pumped Z
  broken unfinished : Z → Pumped Z

abbrev pub is_ok : Code → Bool
is_ok z_ok = true
is_ok _ = false

-- `ret != Z_OK && ret != Z_STREAM_END`
abbrev pub is_error : Code → Bool
is_error z_ok = false
is_error z_stream_end = false
is_error _ = true

-- COMMAND_SVN_REVISION answers with RET_ERROR.
abbrev pub revision : Answer
revision = reply 1 (string (codes "$Revision$") ∷ [])

-- The binary before the loop: RET_OK, and room for one buffer.
abbrev pub first_binary : Binary
first_binary = record { written = 0 ∷ []; size = buf_size + 1 }

-- The answer to a stream that zlib could not start.
unfoldable pub prepared : Code → Answer
prepared z_ok = done
prepared z_mem_error = reply 1 (atom (codes "no_memory") ∷ [])
prepared z_version_error = reply 1 (atom (codes "incompatible_zlib_version") ∷ [])
prepared _ = reply 1 (atom (codes "zlib_internal_error") ∷ [])

module _ {Z : Type 0} where
  -- `while (ret == Z_OK && z->avail_out == 0)`, entered with Z_OK and 0.
  unfoldable pub pump : (Z → Z × List ℕ × Code) → ℕ → Z → Binary → Run (Pumped Z)
  pump step zero z b = ok (unfinished z)
  pump step (suc fuel) z b =
      let (z', out, ret) = step z in
      let more = λ (b' : Binary). pump step fuel z' b' in
      store out b >>= λ b'.
      if is_error ret
      then ok (broken z')
      else (if is_ok ret && buf_size - length out == 0
          then more b'
          else ok (finished z' b'.written))

  -- COMMAND_COMPRESS and COMMAND_UNCOMPRESS: `none` if the fuel runs out.
  abbrev pub pumped_answer : List ℕ → Pumped Z → Z × Option Answer
  pumped_answer error (finished z []) = (z, none)
  pumped_answer error (finished z (status ∷ out)) = (z, some (bytes status out))
  pumped_answer error (broken z) = (z, some (reply 1 (atom error ∷ [])))
  pumped_answer error (unfinished z) = (z, none)

  unfoldable pub transform : (Z → Z × List ℕ × Code) → List ℕ → ℕ → Z → Run (Z × Option Answer)
  transform step error fuel z =
      pump step fuel z first_binary >>= λ end. ok (pumped_answer error end)

  unfoldable pub exmpp_compress_zlib_start : Z → Z → Data Z
  exmpp_compress_zlib_start inf_z def_z = record {
    compress_level = default_compression;
    use_gzip = false;
    inf_z = inf_z;
    def_z = def_z;
  }

  -- What is left of the two streams; the driver's data is freed.
  unfoldable pub exmpp_compress_zlib_stop : Library Z → Data Z → Z × Z
  exmpp_compress_zlib_stop lib edd = (lib.inflate_end edd.inf_z, lib.deflate_end edd.def_z)

  -- The method's name, `atom` being what the buffer for it holds if there is none.
  unfoldable pub set_method : List ℕ → Data Z → Data Z × Answer
  set_method name edd =
      if str_eq (up_to_nul name) (codes "zlib")
      then (record edd { use_gzip = false }, done)
      else (if str_eq (up_to_nul name) (codes "gzip")
          then (record edd { use_gzip = true }, done)
          else (
            edd,
            reply 1 (
                tuple_header 2
                ∷ atom (codes "unsupported_compress_method")
                ∷ string (up_to_nul name)
                ∷ []),
          ))

  abbrev pub invalid_level : Data Z → Buff → Data Z × Answer
  invalid_level edd value =
      (edd, reply 1 (tuple_header 2 ∷ atom (codes "invalid_compress_level") ∷ value))

  -- A level of type ERL_INTEGER_EXT, which has to be from 0 to 9.
  unfoldable pub set_level_to : ℤ → Data Z → Data Z × Answer
  set_level_to (pos n) edd =
      if ltb 9 n
      then invalid_level edd (long (pos n) ∷ [])
      else (record edd { compress_level = pos n }, done)
  set_level_to (negsuc n) edd = invalid_level edd (long (negsuc n) ∷ [])

  unfoldable pub set_level_by_name : List ℕ → Data Z → Data Z × Answer
  set_level_by_name name edd =
      if str_eq (up_to_nul name) (codes "default")
      then (edd, done)
      else invalid_level edd (atom (up_to_nul name) ∷ [])

  -- By the type of the term; a term of any other type is ignored.
  unfoldable pub set_level : Buff → Data Z → Data Z × Answer
  set_level (long z ∷ buf) edd = elim (get_type (long z ∷ [])) [
    | integer ↦ set_level_to z edd
    | _ ↦ (edd, done)
  ]
  set_level (atom name ∷ buf) edd = set_level_by_name name edd
  set_level _ edd = (edd, done)

  module _ (lib : Library Z) (fuel : ℕ) (garbage : List ℕ) where
    -- The new state, and the answer; `none` if the fuel runs out. `garbage` is what the buffer for
    -- names holds before it is written.
    unfoldable pub exmpp_compress_zlib_control : Command → Data Z → Run (Data Z × Option Answer)
    exmpp_compress_zlib_control (set_compress_method buf) edd = do
      terms ← exmpp_skip_version buf
      let name : List ℕ = elim (decode_atom terms) [ none ↦ garbage | some (s, rest) ↦ s ]
      let r = set_method name edd
      ok (r.0, some r.1)
    exmpp_compress_zlib_control (set_compress_level buf) edd = do
      terms ← exmpp_skip_version buf
      let r = set_level terms edd
      ok (r.0, some r.1)
    exmpp_compress_zlib_control prepare_compress edd =
        let (z, ret) = lib.deflate_init edd.use_gzip edd.compress_level edd.def_z in
        ok (record edd { def_z = z }, some (prepared ret))
    exmpp_compress_zlib_control prepare_uncompress edd =
        let (z, ret) = lib.inflate_init edd.use_gzip edd.inf_z in
        ok (record edd { inf_z = z }, some (prepared ret))
    exmpp_compress_zlib_control (compress buf) edd = do
      r ← transform lib.deflate (codes "deflate_error") fuel (lib.set_input buf edd.def_z)
      ok (record edd { def_z = r.0 }, r.1)
    exmpp_compress_zlib_control (uncompress buf) edd = do
      r ← transform lib.inflate (codes "inflate_error") fuel (lib.set_input buf edd.inf_z)
      ok (record edd { inf_z = r.0 }, r.1)
    exmpp_compress_zlib_control svn_revision edd = ok (edd, some revision)
    exmpp_compress_zlib_control (unknown n) edd =
        ok (edd, some (reply 1 (tuple_header 2 ∷ atom (codes "unknown_command") ∷ ulong n ∷ [])))
