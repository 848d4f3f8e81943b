-- ===== src/Zlib/Tests.antt =====
-- Runs on a stream that hands its input on unchanged.
use hz_platform.Prelude.{
  ℕ, ◌≡◌, refl, false, List, [], ◌∷◌, ◌++◌, some, ◌==◌, length, if◌then◌else◌, arith, take, drop,
  length-take, pos, negsuc,
}
use hz_platform.Run.{ok, Post, Returns}
use hz_platform.Ei.{version, long}
use hz_platform.Answer.{bytes}
use hz_platform.Zlib.{
  Code, z_ok, z_buf_error, Library, Data, Command, set_compress_level, compress, uncompress, Pumped,
  finished, first_binary, pump, buf_size, exmpp_compress_zlib_control, exmpp_compress_zlib_start,
  default_compression,
}
use hz_platform.Zlib.Pump.{IsEnd, pump-Returns}
use hz_platform.Zlib.Drain.{Drains, Drained, pump-Drained}
use hz_platform.Zlib.Level.{control-compress_level}
use hz_platform.Zlib.RoundTrip.{uncompress-compress}

abbrev hand_on : List ℕ → List ℕ × List ℕ × Code
hand_on z = (drop buf_size z, take buf_size z, if length z == 0 then z_buf_error else z_ok)

abbrev plain : Library (List ℕ)
plain = record {
  deflate_init = λ gzip level z. (z, z_ok);
  inflate_init = λ gzip z. (z, z_ok);
  set_input = λ buf z. z ++ buf;
  deflate = hand_on;
  inflate = hand_on;
  deflate_end = λ z. [];
  inflate_end = λ z. [];
}

abbrev all_of : List ℕ → List ℕ
all_of z = z

hand_on-Drains : Drains hand_on all_of z_buf_error
hand_on-Drains = record { next = λ z. drop buf_size z; calls = λ z. refl; leaves = λ z. refl }

abbrev driver : Data (List ℕ)
driver = record { compress_level = default_compression; use_gzip = false; inf_z = []; def_z = [] }

pump-Returns_example :
    Returns (pump hand_on 2 (7 ∷ 8 ∷ []) first_binary) (IsEnd hand_on 2 (7 ∷ 8 ∷ []) (0 ∷ []))
pump-Returns_example =
    pump-Returns hand_on (λ z. omega (arith, length-take buf_size z)) 2 (7 ∷ 8 ∷ []) first_binary
      (omega arith)

pump-Drained_example :
    Returns (pump hand_on 1 (7 ∷ 8 ∷ []) first_binary) (Drained z_buf_error (0 ∷ []) (7 ∷ 8 ∷ []))
pump-Drained_example =
    pump-Drained hand_on all_of z_buf_error hand_on-Drains 1 (7 ∷ 8 ∷ []) first_binary (omega arith)
      (omega arith)

control-compress_level_example :
    Post
      (λ r. r.0.compress_level ≡ negsuc 0)
      (exmpp_compress_zlib_control plain 1 []
        (set_compress_level (version ∷ long (pos 9) ∷ []))
        driver)
control-compress_level_example =
    control-compress_level plain 1 [] (set_compress_level (version ∷ long (pos 9) ∷ [])) driver

uncompress-compress_example :
    Returns (exmpp_compress_zlib_control plain 1 [] (compress (7 ∷ 8 ∷ [])) driver) (λ r.
      (text : List ℕ) × (r.1 ≡ some (bytes 0 text))
      × Returns
          (exmpp_compress_zlib_control plain 1 [] (uncompress text) driver)
          (λ r'. r'.1 ≡ some (bytes 0 (7 ∷ 8 ∷ []))))
uncompress-compress_example =
    uncompress-compress plain [] 1 driver driver all_of all_of z_buf_error z_buf_error
      hand_on-Drains hand_on-Drains (7 ∷ 8 ∷ []) refl (omega arith) (omega arith) refl refl

-- A level is answered as if it were set.
level_ignored :
    exmpp_compress_zlib_control plain 1 [] (set_compress_level (version ∷ long (pos 9) ∷ [])) driver
    ≡ ok (driver, some (bytes 0 []))
unfolding exmpp_compress_zlib_control hz_platform.Zlib.set_level
    hz_platform.Ei.Input.exmpp_skip_version
level_ignored = refl
