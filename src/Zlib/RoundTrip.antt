-- ===== src/Zlib/RoundTrip.antt =====
-- The commands that call zlib, between two drivers: what one compresses, the other gives back.
use hz_platform.Prelude.{
  ℕ, ◌*◌, ◌<◌, ◌≡◌, sym, ap, ◌∙◌, false, List, [], ◌∷◌, Option, some, length, arith,
}
use mathlib.Core.Path.{subst}
use mathlib.Core.Bool.{true≢false}
use hz_platform.Run.{Run, ok, ◌>>=◌, Returns}
use hz_platform.Text.{codes}
use hz_platform.Answer.{Answer, bytes}
use hz_platform.Zlib.{
  Code, Library, Data, Command, compress, uncompress, Pumped, finished, broken, unfinished,
  pumped_answer, first_binary, transform, buf_size, exmpp_compress_zlib_control,
}
use hz_platform.Zlib.Drain.{Drains, Drained, is_refused, pump-Drained}

-- The answer is these bytes, behind RET_OK.
abbrev Gives : {A : Type 0} → List ℕ → A × Option Answer → Type 0
Gives text r = r.1 ≡ some (bytes 0 text)

module _ {Z : Type 0} where
  gives :
      (error : List ℕ) (idle : Code) (r : List ℕ) (p : Pumped Z)
      → is_refused idle r ≡ false
      → Drained idle (0 ∷ []) r p
      → Gives r (pumped_answer error p)
  gives error idle r (finished z out) fine (all, _) =
      ap (λ o. (pumped_answer error (finished z o)).1) all
  gives error idle r (broken z) fine refused = absurd (true≢false (sym refused ∙ fine))
  gives error idle r (unfinished z) fine h = absurd h

  module _ (step : Z → Z × List ℕ × Code) (remaining : Z → List ℕ) (idle : Code)
      (d : Drains step remaining idle) where
    transform-Drained :
        (error : List ℕ) (fuel : ℕ) (z : Z)
        → length (remaining z) < fuel * buf_size
        → is_refused idle (remaining z) ≡ false
        → Returns (transform step error fuel z) (Gives (remaining z))
    unfolding transform
    transform-Drained error fuel z enough fine =
        let (p, run, all) =
          pump-Drained step remaining idle d fuel z first_binary (omega arith) enough in
        (
          pumped_answer error p,
          ap (λ r. r >>= λ end. ok (pumped_answer error end)) run,
          gives error idle (remaining z) p fine all,
        )

  answered :
      (run : Run (Z × Option Answer)) (update : Z → Data Z) (text : List ℕ)
      → Returns run (Gives text)
      → Returns (run >>= λ r. ok (update r.0, r.1)) (Gives text)
  answered run update text (r, ran, gave) =
      ((update r.0, r.1), ap (λ x. x >>= λ r. ok (update r.0, r.1)) ran, gave)

  module _ (lib : Library Z) (garbage : List ℕ) (fuel : ℕ) (edd peer : Data Z) where
    abbrev control : Command → Data Z → Run (Data Z × Option Answer)
    control = exmpp_compress_zlib_control lib fuel garbage

    -- Let both directions of zlib give their bytes as `Drains` says, and inflate what was deflated to the
    -- bytes it came from. If there is enough fuel for both and neither direction ends on a refusal, then
    -- COMMAND_COMPRESS on one driver answers with bytes that COMMAND_UNCOMPRESS on the other turns back
    -- into those given.
    pub uncompress-compress :
        (sent given : Z → List ℕ) (idle_out idle_in : Code)
        → Drains lib.deflate sent idle_out
        → Drains lib.inflate given idle_in
        → (buf : List ℕ)
        → given (lib.set_input (sent (lib.set_input buf edd.def_z)) peer.inf_z) ≡ buf
        → length (sent (lib.set_input buf edd.def_z)) < fuel * buf_size
        → length buf < fuel * buf_size
        → is_refused idle_out (sent (lib.set_input buf edd.def_z)) ≡ false
        → is_refused idle_in buf ≡ false
        → Returns (control (compress buf) edd) (λ r.
          (text : List ℕ) × (r.1 ≡ some (bytes 0 text))
          × Returns (control (uncompress text) peer) (λ r'. r'.1 ≡ some (bytes 0 buf)))
    unfolding exmpp_compress_zlib_control
    uncompress-compress sent given idle_out idle_in out in' buf inverse enough enough' fine fine' =
        let z = lib.set_input buf edd.def_z in
        let z' = lib.set_input (sent z) peer.inf_z in
        let (r, ran, gave) =
          answered _ (λ w. record edd { def_z = w }) (sent z)
            (transform-Drained lib.deflate sent idle_out out (codes "deflate_error") fuel z enough
              fine) in
        let Back = λ (d : List ℕ). length d < fuel * buf_size × (is_refused idle_in d ≡ false) in
        let (enough2, fine2) = subst Back (sym inverse) (enough', fine') in
        let back =
          answered _ (λ w. record peer { inf_z = w }) (given z')
            (transform-Drained lib.inflate given idle_in in' (codes "inflate_error") fuel z' enough2
              fine2) in
        (
          r,
          ran,
          (
            sent z,
            gave,
            subst (λ d. Returns (control (uncompress (sent z)) peer) (Gives d)) inverse back,
          ),
        )
