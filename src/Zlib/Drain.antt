-- ===== src/Zlib/Drain.antt =====
-- The loop on a stream that behaves as zlib documents it: it ends, and how.
use hz_platform.Prelude.{
  ℕ, zero, suc, ◌-◌, ◌*◌, ◌%◌, ◌<◌, ◌≤◌, ◌≡◌, refl, sym, ap, ◌∙◌, Bool, true, false, ◌&&◌, List, [],
  ◌∷◌, ◌++◌, ◌==◌, length, if◌then◌else◌, arith, Bool-cases, inl, inr, take, drop, length-take,
  length-drop, take-append-drop, append_assoc, append-nil,
}
use mathlib.Core.Bool.{and-false}
use mathlib.Core.Path.{subst}
use hz_platform.Run.{Run, ok, ◌>>=◌, Returns}
use hz_platform.Zlib.{
  Code, z_ok, Binary, store, Pumped, finished, broken, unfinished, is_ok, is_error, pump, buf_size,
}
use hz_platform.Zlib.Pump.{HasRoom, store-HasRoom}

-- An error code for a call that has nothing to do is an error of the loop where the last buffer is
-- full or nothing is left.
abbrev pub is_refused : Code → List ℕ → Bool
is_refused idle r = is_error idle && length r % buf_size == 0

drop_none : (n : ℕ) (r : List ℕ) → length r ≤ n → drop n r ≡ []
drop_none zero [] h = refl
drop_none zero (x ∷ r) h = absurd (omega arith)
drop_none (suc n) [] h = refl
drop_none (suc n) (x ∷ r) h = drop_none n r (omega arith)

take_all : (n : ℕ) (r : List ℕ) → length r ≤ n → take n r ≡ r
take_all n r h =
    sym (append-nil (take n r))
    ∙ ap (λ t. take n r ++ t) (sym (drop_none n r h))
    ∙ take-append-drop n r

whole : (front r r' : List ℕ) → r' ≡ drop buf_size r → (front ++ take buf_size r) ++ r' ≡ front ++ r
whole front r r' rest =
    append_assoc front (take buf_size r) r'
    ∙ ap (λ t. front ++ (take buf_size r ++ t)) rest
    ∙ ap (λ t. front ++ t) (take-append-drop buf_size r)

same_end :
    (idle : Code) (r r' : List ℕ)
    → r' ≡ drop buf_size r
    → buf_size ≤ length r
    → is_refused idle r' ≡ is_refused idle r
same_end idle r r' rest long =
    ap (λ n. is_error idle && n == 0)
      (omega (arith, ap (length {A = ℕ}) rest, length-drop buf_size r))

buffer_full : (r : List ℕ) → (buf_size - length (take buf_size r) == 0) ≡ true → buf_size ≤ length r
buffer_full r h = ground (arith, length-take buf_size r)

buffer_partial :
    (r : List ℕ) → (buf_size - length (take buf_size r) == 0) ≡ false → length r < buf_size
buffer_partial r h = ground (arith, length-take buf_size r)

not_even : (n : ℕ) → (n == 0) ≡ false → n < buf_size → (n % buf_size == 0) ≡ false
not_even n h short = ground arith

module _ {Z : Type 0} where
  -- How a stream behaves that has `remaining` bytes still to give: a call gives as many of them as
  -- there is room for, and answers Z_OK; once there are none left, it gives nothing and answers `idle`.
  pub record Drains (step : Z → Z × List ℕ × Code) (remaining : Z → List ℕ) (idle : Code)
      : Type 0 where
    pub next : Z → Z
    pub calls :
        (z : Z)
        → step z
          ≡ (next z, take buf_size (remaining z), if length (remaining z) == 0 then idle else z_ok)
    pub leaves : (z : Z) → remaining (next z) ≡ drop buf_size (remaining z)

  -- All of `r` is handed on behind `front`, or an error reported.
  abbrev pub Drained : Code → List ℕ → List ℕ → Pumped Z → Type 0
  Drained idle front r (finished z out) = (out ≡ front ++ r) × (is_refused idle r ≡ false)
  Drained idle front r (broken z) = is_refused idle r ≡ true
  Drained idle front r (unfinished z) = ⊥

  module _ (step : Z → Z × List ℕ × Code) where
    abbrev ended : ℕ → Z → List ℕ → Code → Binary → Run (Pumped Z)
    ended fuel z out ret b' =
        if is_error ret
        then ok (broken z)
        else (if is_ok ret && buf_size - length out == 0
            then pump step fuel z b'
            else ok (finished z b'.written))

    pump_round :
        (fuel : ℕ) (z z' : Z) (out : List ℕ) (ret : Code) (b b' : Binary)
        → step z ≡ (z', out, ret)
        → store out b ≡ ok b'
        → pump step (suc fuel) z b ≡ ended fuel z' out ret b'
    unfolding pump
    pump_round fuel z z' out ret b b' call run =
        ap (λ r. store r.1 b >>= ended fuel r.0 r.1 r.2) call
        ∙ ap (λ r. r >>= ended fuel z' out ret) run

  further :
      (idle : Code) (p : Pumped Z) (front r r' : List ℕ)
      → r' ≡ drop buf_size r
      → buf_size ≤ length r
      → Drained idle (front ++ take buf_size r) r' p
      → Drained idle front r p
  further idle (finished z out) front r r' rest long (a, b) =
      (a ∙ whole front r r' rest, sym (same_end idle r r' rest long) ∙ b)
  further idle (broken z) front r r' rest long h = sym (same_end idle r r' rest long) ∙ h
  further idle (unfinished z) front r r' rest long h = h

  last_round :
      (step : Z → Z × List ℕ × Code) (fuel : ℕ) (idle : Code) (z : Z) (r : List ℕ) (b b' : Binary)
      → b'.written ≡ b.written ++ take buf_size r
      → length r ≡ 0
      → Returns (ended step fuel z (take buf_size r) idle b') (Drained idle b.written r)
  last_round step fuel idle z r b b' wrote none_left =
      let nothing = take_all buf_size r (omega arith) in
      let empty : (buf_size - length (take buf_size r) == 0) ≡ false =
        ground (arith, length-take buf_size r) in
      let even : (length r % buf_size == 0) ≡ true = ground arith in
      elim (Bool-cases (is_error idle)) [
        | inl bad ↦ (broken z, rw bad refl, rw (bad, even) refl)
        | inr fine ↦ (
          finished z b'.written,
          rw (fine, empty, and-false) refl,
          (wrote ∙ ap (λ t. b.written ++ t) nothing, rw fine refl),
        )
      ]

  -- On a stream of that behaviour, and with room for one more buffer in the binary, the loop ends with
  -- fuel for one call more than there are full buffers. It hands on all that remained, in order,
  -- unless `idle` is an error code and the bytes that remained fill whole buffers, none included: then
  -- it reports an error instead.
  pub pump-Drained :
      (step : Z → Z × List ℕ × Code) (remaining : Z → List ℕ) (idle : Code)
      → Drains step remaining idle
      → (fuel : ℕ) (z : Z) (b : Binary) → HasRoom b
      → length (remaining z) < fuel * buf_size
      → Returns (pump step fuel z b) (Drained idle b.written (remaining z))
  pump-Drained step remaining idle d zero z b room enough = absurd (omega arith)
  pump-Drained step remaining idle d (suc fuel) z b room enough =
      let r = remaining z in
      let (b', run, (wrote, room')) =
        store-HasRoom (take buf_size r) b room (omega (arith, length-take buf_size r)) in
      let ret = if length r == 0 then idle else z_ok in
      let Goal = λ (x : Run (Pumped Z)). Returns x (Drained idle b.written r) in
      subst Goal
        (sym (pump_round step fuel z (d.next z) (take buf_size r) ret b b' (d.calls z) run))
        (elim (Bool-cases (length r == 0)) [
          | inl none_left ↦
              subst (λ c. Goal (ended step fuel (d.next z) (take buf_size r) c b'))
                (sym (ap (λ t. if t then idle else z_ok) none_left))
                (last_round step fuel idle (d.next z) r b b' wrote (ground arith))
          | inr some_left ↦
              subst (λ c. Goal (ended step fuel (d.next z) (take buf_size r) c b'))
                (sym (ap (λ t. if t then idle else z_ok) some_left))
                (elim (Bool-cases (buf_size - length (take buf_size r) == 0)) [
                  | inl full ↦
                      let long = buffer_full r full in
                      let (p, more, all) =
                        pump-Drained step remaining idle d fuel (d.next z) b' room' (
                          omega
                            (arith, ap (length {A = ℕ}) (d.leaves z), length-drop buf_size r)) in
                      (
                        p,
                        rw full more,
                        further idle p b.written r (remaining (d.next z)) (d.leaves z) long
                            (subst (λ w. Drained idle w (remaining (d.next z)) p) wrote all),
                      )
                  | inr partial ↦
                      let short = buffer_partial r partial in
                      let odd = not_even (length r) some_left short in
                      let all = take_all buf_size r (omega arith) in
                      (
                        finished (d.next z) b'.written,
                        rw partial refl,
                        (wrote ∙ ap (λ t. b.written ++ t) all, rw (odd, and-false) refl),
                      )
                ])
        ])
