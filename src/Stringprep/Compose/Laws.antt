-- ===== src/Stringprep/Compose/Laws.antt =====
-- Hangul syllables, and the length of what the composition leaves.
use hz_platform.Prelude.{
  ℕ, suc, ◌+◌, ◌*◌, ◌<◌, ◌≤◌, ◌≡◌, ap, ◌∙◌, ◌&&◌, ◌||◌, List, [], ◌∷◌, ◌++◌, ltb, ◌==◌, not, arith,
  length, length-append, on_both,
}
use hz_platform.Stringprep.Tables.{Tables, get_uni_char_cclass}
use hz_platform.Stringprep.Compose.{
  s_base, l_base, v_base, t_base, l_count, v_count, t_count, compose, compose_loop, compose_all,
}

module _ (t : Tables) where
  -- A leading consonant and a vowel give the syllable without a trailing consonant.
  pub compose-lv :
      (l v : ℕ)
      → l < l_count
      → v < v_count
      → compose t (l_base + l) (v_base + v) ≡ s_base + (l * v_count + v) * t_count
  unfolding compose
  compose-lv l v hl hv = ground arith

  compose_syllable :
      (n k : ℕ)
      → n < l_count * v_count
      → k < t_count
      → compose t (s_base + n * t_count) (t_base + k) ≡ s_base + n * t_count + k
  unfolding compose
  compose_syllable n k hn hk = ground arith

  -- Whatever the tables, the three parts of a Hangul syllable give the syllable with the number that Unicode assigns to it; a
  -- last part of number 0, which is no trailing consonant, is taken too and leaves no trace.
  pub compose_hangul :
      (l v k : ℕ)
      → l < l_count
      → v < v_count
      → k < t_count
      → compose t (compose t (l_base + l) (v_base + v)) (t_base + k)
        ≡ s_base + (l * v_count + v) * t_count + k
  compose_hangul l v k hl hv hk =
      ap (λ c. compose t c (t_base + k)) (compose-lv l v hl hv)
      ∙ compose_syllable (l * v_count + v) k (omega arith) hk

  abbrev Short : ℕ → List ℕ → Type 0
  Short n out = (0 < length out) × (length out ≤ n)

  compose_loop-length :
      (done : List ℕ) (ch1 : ℕ) (behind : List ℕ) (prev : ℕ) (rest : List ℕ)
      → Short
          (length done + 1 + length behind + length rest)
          (compose_loop t done ch1 behind prev rest)
  unfolding compose_loop
  compose_loop-length done ch1 behind prev [] = rw length-append (omega arith)
  compose_loop-length done ch1 behind prev (ch2 ∷ rest) =
      let c = get_uni_char_cclass t ch2 in
      let joined = compose_loop-length done (compose t ch1 ch2) behind prev rest in
      let started = compose_loop-length (done ++ ch1 ∷ behind) ch2 [] 0 rest in
      let marked = compose_loop-length done ch1 (behind ++ ch2 ∷ []) c rest in
      let grown = length-append done (ch1 ∷ behind) in
      let longer = length-append behind (ch2 ∷ []) in
      let n = length done + 1 + length behind + suc (length rest) in
      on_both (Short n) ((prev == 0 || ltb prev c) && not (compose t ch1 ch2 == 0))
        (λ _. omega arith) (λ _. on_both (Short n) (c == 0) (λ _. omega arith) (λ _. omega arith))

  -- The composition of a string that is not empty is not empty and not longer.
  pub compose_all-length :
      (s : List ℕ)
      → 0 < length s
      → (0 < length (compose_all t s)) × (length (compose_all t s) ≤ length s)
  unfolding compose_all
  compose_all-length [] h = absurd (omega arith)
  compose_all-length (ch ∷ rest) h =
      let short = compose_loop-length [] ch [] (get_uni_char_cclass t ch) rest in omega arith
