-- ===== src/Zlib/Level.antt =====
-- COMMAND_SET_COMPRESS_LEVEL: ei types the integers from 0 to 255 as ERL_SMALL_INTEGER_EXT, and the
-- command looks for ERL_INTEGER_EXT.
use hz_platform.Prelude.{
  ℕ, ◌^◌, ◌≡◌, refl, true, false, List, [], ◌∷◌, Option, ltb, ℤ, pos, negsuc, arith, on_both,
  Bool-cases, inl, inr,
}
use hz_platform.Run.{Run, ok, fault, ◌>>=◌, Post}
use hz_platform.Ei.{
  Buff, version, tuple_header, list_header, empty_list, atom, string, binary, long, ulong,
}
use hz_platform.Ei.Input.{Kind, get_type, integer, exmpp_skip_version}
use hz_platform.Text.{codes, str_eq, up_to_nul}
use hz_platform.Answer.{Answer, done}
use hz_platform.Zlib.{
  Library, Data, Command, set_compress_method, set_compress_level, prepare_compress,
  prepare_uncompress, compress, uncompress, svn_revision, unknown, transform, set_method,
  set_level_to, set_level_by_name, set_level, exmpp_compress_zlib_control,
}

large : (n : ℕ) → ltb n 256 ≡ false → ltb 9 n ≡ true
large n h = ground arith

module _ {Z : Type 0} where
  abbrev Keeps : {A : Type 0} → Data Z → Data Z × A → Type 0
  Keeps edd r = r.0.compress_level ≡ edd.compress_level

  abbrev of_kind : ℤ → Data Z → Kind → Data Z × Answer
  of_kind z edd kind = elim kind [ integer ↦ set_level_to z edd | _ ↦ (edd, done) ]

  of_kind-keeps :
      (n : ℕ) (edd : Data Z) → Keeps edd (of_kind (pos n) edd (get_type (long (pos n) ∷ [])))
  unfolding set_level_to
  of_kind-keeps n edd = elim (Bool-cases (ltb n 256)) [
    | inl small ↦ rw small refl
    | inr e ↦
        let big = large n e in
        rw e (
          on_both (λ k. Keeps edd (of_kind (pos n) edd k)) (ltb n (2 ^ 31)) (λ _. rw big refl)
            (λ _. refl))
  ]

  set_level-keeps : (buf : Buff) (edd : Data Z) → Keeps edd (set_level buf edd)
  unfolding set_level set_level_to set_level_by_name
  set_level-keeps [] edd = refl
  set_level-keeps (long (pos n) ∷ buf) edd = of_kind-keeps n edd
  set_level-keeps (long (negsuc n) ∷ buf) edd =
      on_both (λ k. Keeps edd (of_kind (negsuc n) edd k)) (ltb n (2 ^ 31)) (λ _. refl) (λ _. refl)
  set_level-keeps (atom s ∷ buf) edd =
      on_both (Keeps edd) (str_eq (up_to_nul s) (codes "default")) (λ _. refl) (λ _. refl)
  set_level-keeps (version ∷ buf) edd = refl
  set_level-keeps (tuple_header n ∷ buf) edd = refl
  set_level-keeps (list_header n ∷ buf) edd = refl
  set_level-keeps (empty_list ∷ buf) edd = refl
  set_level-keeps (string s ∷ buf) edd = refl
  set_level-keeps (binary s ∷ buf) edd = refl
  set_level-keeps (ulong n ∷ buf) edd = refl

  set_method-keeps : (name : List ℕ) (edd : Data Z) → Keeps edd (set_method name edd)
  unfolding set_method
  set_method-keeps name edd =
      on_both (Keeps edd) (str_eq (up_to_nul name) (codes "zlib")) (λ _. refl)
        (λ _. on_both (Keeps edd) (str_eq (up_to_nul name) (codes "gzip")) (λ _. refl) (λ _. refl))

  behind :
      {R : Type 0} (edd : Data Z) (call : Run R) (next : R → Run (Data Z × Option Answer))
      → ((value : R) → Post (Keeps edd) (next value))
      → Post (Keeps edd) (call >>= next)
  behind edd (fault e) next h = tt
  behind edd (ok value) next h = h value

  -- No command changes the compression level, COMMAND_SET_COMPRESS_LEVEL included, whatever term it is
  -- given.
  pub control-compress_level :
      (lib : Library Z) (fuel : ℕ) (garbage : List ℕ) (command : Command) (edd : Data Z)
      → Post
          (λ r. r.0.compress_level ≡ edd.compress_level)
          (exmpp_compress_zlib_control lib fuel garbage command edd)
  unfolding exmpp_compress_zlib_control
  control-compress_level lib fuel garbage (set_compress_method buf) edd =
      behind edd (exmpp_skip_version buf) _ (λ terms. set_method-keeps _ edd)
  control-compress_level lib fuel garbage (set_compress_level buf) edd =
      behind edd (exmpp_skip_version buf) _ (λ terms. set_level-keeps terms edd)
  control-compress_level lib fuel garbage prepare_compress edd = refl
  control-compress_level lib fuel garbage prepare_uncompress edd = refl
  control-compress_level lib fuel garbage (compress buf) edd =
      behind edd (transform lib.deflate (codes "deflate_error") fuel (lib.set_input buf edd.def_z))
        _ (λ r. refl)
  control-compress_level lib fuel garbage (uncompress buf) edd =
      behind edd (transform lib.inflate (codes "inflate_error") fuel (lib.set_input buf edd.inf_z))
        _ (λ r. refl)
  control-compress_level lib fuel garbage svn_revision edd = refl
  control-compress_level lib fuel garbage (unknown n) edd = refl
