-- ===== src/Zlib/Pump.antt =====
-- The loop that calls zlib: it stays within its binary, and how it ends.
use hz_platform.Prelude.{
  ℕ, zero, suc, ◌+◌, ◌-◌, ◌≤◌, ◌<◌, Bool, false, [], append-nil, ◌≡◌, refl, sym, ap, ◌∙◌, true,
  ◌&&◌, List, ◌++◌, leb, ◌==◌, length, if◌then◌else◌, arith, on_both, length-append, append_assoc,
}
use mathlib.Core.Path.{subst}
use mathlib.Core.Bool.{true≢false}
use hz_platform.Run.{Run, ok, ◌>>=◌, Returns}
use hz_platform.Zlib.{
  Code, z_ok, z_stream_end, z_buf_error, z_mem_error, z_version_error, z_other_error, Binary, store,
  Pumped, finished, broken, unfinished, is_ok, is_error, pump, buf_size,
}

-- Room for one more buffer.
abbrev pub HasRoom : Binary → Type 0
HasRoom b = length b.written + buf_size ≤ b.size

le→leb : (a b : ℕ) → a ≤ b → leb a b ≡ true
le→leb a b h = ground arith

pub store-HasRoom :
    (out : List ℕ) (b : Binary)
    → HasRoom b
    → length out ≤ buf_size
    → Returns (store out b) (λ b'. (b'.written ≡ b.written ++ out) × HasRoom b')
unfolding store
store-HasRoom out b room short = (
  record { written = b.written ++ out; size = b.size + length out },
  rw (le→leb (length b.written + length out) b.size (omega arith)) refl,
  (refl, omega (arith, length-append b.written out)),
)

is_ok-z_ok : (c : Code) → is_ok c ≡ true → c ≡ z_ok
is_ok-z_ok z_ok h = refl
is_ok-z_ok z_stream_end h = absurd (true≢false (sym h))
is_ok-z_ok z_buf_error h = absurd (true≢false (sym h))
is_ok-z_ok z_mem_error h = absurd (true≢false (sym h))
is_ok-z_ok z_version_error h = absurd (true≢false (sym h))
is_ok-z_ok z_other_error h = absurd (true≢false (sym h))

module _ {Z : Type 0} (step : Z → Z × List ℕ × Code) where
  -- What the first calls of zlib leave of the stream, and all that they write.
  abbrev pub after : ℕ → Z → Z
  after zero z = z
  after (suc k) z = after k (step z).0

  abbrev pub output : ℕ → Z → List ℕ
  output zero z = []
  output (suc k) z = (step z).1 ++ output k (step z).0

  -- A call that fills its buffer and answers Z_OK.
  abbrev pub IsFull : Z → Type 0
  IsFull z = ((step z).2 ≡ z_ok) × (length (step z).1 ≡ buf_size)

  abbrev pub AllFull : ℕ → Z → Type 0
  AllFull zero z = Unit
  AllFull (suc k) z = IsFull z × AllFull k (step z).0

  -- How a loop of at most `fuel` calls ends, with `front` written before it: behind `k` full buffers,
  -- with all that zlib has written, or with an error of zlib; or with every call a full buffer.
  abbrev pub IsEnd : ℕ → Z → List ℕ → Pumped Z → Type 0
  IsEnd fuel z front (finished z' out) =
      (k : ℕ) × (k < fuel)
      × AllFull k z
      × (is_error (step (after k z)).2 ≡ false)
      × (¬ IsFull (after k z))
      × (z' ≡ after (suc k) z)
      × (out ≡ front ++ output (suc k) z)
  IsEnd fuel z front (broken z') =
      (k : ℕ) × (k < fuel)
      × AllFull k z
      × (is_error (step (after k z)).2 ≡ true)
      × (z' ≡ after (suc k) z)
  IsEnd fuel z front (unfinished z') = AllFull fuel z × (z' ≡ after fuel z)

  -- The rest of a round, behind the store.
  abbrev round : ℕ → Z → Binary → Run (Pumped Z)
  round fuel z b' =
      if is_error (step z).2
      then ok (broken (step z).0)
      else (if is_ok (step z).2 && buf_size - length (step z).1 == 0
          then pump step fuel (step z).0 b'
          else ok (finished (step z).0 b'.written))

  -- One full buffer more in front.
  further :
      (fuel : ℕ) (z : Z) (front written : List ℕ) (p : Pumped Z)
      → written ≡ front ++ (step z).1
      → IsFull z
      → IsEnd fuel (step z).0 written p
      → IsEnd (suc fuel) z front p
  further fuel z front written (finished z' out) wrote full (k, less, all, fine, partial, end, e) =
      (
        suc k,
        omega (arith, less),
        (full, all),
        fine,
        partial,
        end,
        e
            ∙ ap (λ w. w ++ output (suc k) (step z).0) wrote
            ∙ append_assoc front (step z).1 (output (suc k) (step z).0),
      )
  further fuel z front written (broken z') wrote full (k, less, all, bad, end) =
      (suc k, omega (arith, less), (full, all), bad, end)
  further fuel z front written (unfinished z') wrote full (all, end) = ((full, all), end)

  stored :
      (fuel : ℕ) (z : Z) (b b' : Binary)
      → store (step z).1 b ≡ ok b'
      → pump step (suc fuel) z b ≡ round fuel z b'
  unfolding pump
  stored fuel z b b' run = ap (λ r. r >>= round fuel z) run

  is_full : Z → Bool
  is_full z = is_ok (step z).2 && buf_size - length (step z).1 == 0

  full_lem : (z : Z) → length (step z).1 ≤ buf_size → is_full z ≡ true → IsFull z
  unfolding is_full
  full_lem z short h = (is_ok-z_ok (step z).2 (ground arith), ground arith)

  partial_lem : (z : Z) → is_full z ≡ false → ¬ IsFull z
  unfolding is_full
  partial_lem z h (good, full) = true≢false (sym (rw (good, full) refl) ∙ h)

  -- If the binary has room for one more buffer and zlib never writes more than a buffer, then no round
  -- writes behind the binary, whatever codes zlib answers, and the loop ends in one of three ways.
  -- Behind some full buffers that zlib answers with Z_OK comes a call that is not so and no error: then
  -- the result is what was written before the loop and all that these calls have written, in order. Or
  -- there comes an error: then the loop gives it up. Or each call that the fuel allows is a full buffer
  -- with Z_OK: then the fuel is spent. The stream is that behind these calls.
  pub pump-Returns :
      ((z : Z) → length (step z).1 ≤ buf_size)
      → (fuel : ℕ) (z : Z) (b : Binary) → HasRoom b
      → Returns (pump step fuel z b) (IsEnd fuel z b.written)
  unfolding pump is_full
  pump-Returns short zero z b room = (unfinished z, refl, (tt, refl))
  pump-Returns short (suc fuel) z b room =
      let (b', run, (wrote, room')) = store-HasRoom (step z).1 b room (short z) in
      let (p, more, end) = pump-Returns short fuel (step z).0 b' room' in
      let Goal = λ (r : Run (Pumped Z)). Returns r (IsEnd (suc fuel) z b.written) in
      subst Goal (sym (stored fuel z b b' run)) (
        on_both Goal (is_error (step z).2)
          (λ bad. (broken (step z).0, refl, (0, omega arith, tt, bad, refl)))
          (λ fine.
            on_both Goal (is_ok (step z).2 && buf_size - length (step z).1 == 0)
              (λ full. (
                p,
                more,
                further fuel z b.written b'.written p wrote (full_lem z (short z) full) end,
              ))
              (λ partial. (
                finished (step z).0 b'.written,
                refl,
                (
                  0,
                  omega arith,
                  tt,
                  fine,
                  partial_lem z partial,
                  refl,
                  wrote ∙ ap (λ w. b.written ++ w) (sym (append-nil (step z).1)),
                ),
              ))))
