-- ===== src/Cecho/Windows.antt =====
-- The table of windows: a new window takes the first free slot, and gives it back.
use hz_platform.Prelude.{
  ℕ, zero, suc, ◌≡◌, refl, ap, ◌∙◌, true, List, [], ◌∷◌, Option, none, some, ℤ, pos, to_int,
  get_elem?, set,
}
use mathlib.Core.Path.{subst}
use hz_platform.Run.{ok, ◌>>=◌}
use hz_platform.Ei.{version, tuple_header, long}
use hz_platform.Cecho.Ncurses.{Curses}
use hz_platform.Cecho.Args.{longs, boolean}
use hz_platform.Cecho.{
  State, do_newwin, do_delwin, max_windows, window, scan_slots, findfreewindowslot, open_window,
  close_window, delete, operate, control,
}

module _ {W : Type 0} where
  abbrev IsFree : List (Option W) → ℕ → Type 0
  IsFree win i = ◌≡◌ {A = Option (Option W)} (get_elem? win i) (some none)

  further :
      (w : W) (win : List (Option W)) (found : Option ℕ) (i : ℕ)
      → ((j : ℕ) → found ≡ some j → IsFree win j)
      → (elim found [ none ↦ none | some j ↦ some (suc j) ]) ≡ some i
      → IsFree (some w ∷ win) i
  further w win none i h e = absurd cc
  further w win (some j) i h e =
      let at : suc j ≡ i = cc in subst (IsFree (some w ∷ win)) at (h j refl)

  scan_slots-IsFree :
      (n : ℕ) (win : List (Option W)) (i : ℕ) → scan_slots n win ≡ some i → IsFree win i
  unfolding scan_slots
  scan_slots-IsFree zero win i e = absurd cc
  scan_slots-IsFree (suc n) [] i e = absurd cc
  scan_slots-IsFree (suc n) (none ∷ win) i e =
      let at : 0 ≡ i = cc in subst (IsFree (none ∷ win)) at refl
  scan_slots-IsFree (suc n) (some w ∷ win) i e =
      further w win (scan_slots n win) i (λ j found. scan_slots-IsFree n win j found) e

  -- A cell that is overwritten and then given its old value.
  restored :
      (win : List (Option W)) (i : ℕ) (a b : Option W)
      → get_elem? win i ≡ some b
      → set (set win i a) i b ≡ win
  restored [] i a b h = refl
  restored (x ∷ win) zero a b h = let same : b ≡ x = cc in ap (λ y. y ∷ win) same
  restored (x ∷ win) (suc i) a b h = ap (λ l. x ∷ l) (restored win i a b h)

  placed :
      (win : List (Option W)) (i : ℕ) (a b : Option W)
      → get_elem? win i ≡ some b
      → get_elem? (set win i a) i ≡ some a
  placed [] i a b h = absurd cc
  placed (x ∷ win) zero a b h = refl
  placed (x ∷ win) (suc i) a b h = placed win i a b h

module _ {W T : Type 0} (curses : Curses W T) where
  abbrev opened : ℕ → W → T → State W T → State W T
  opened i w t st = record { win = set st.win i (some w); terminal = t }

  opens :
      (st : State W T) (h l y x : ℤ) (i : ℕ) (t : T) (w : W)
      → findfreewindowslot st ≡ some (suc i)
      → curses.newwin (to_int h) (to_int l) (to_int y) (to_int x) st.terminal ≡ (t, some w)
      → control curses do_newwin
          (version ∷ tuple_header 4 ∷ long h ∷ long l ∷ long y ∷ long x ∷ [])
          st
        ≡ ok (opened (suc i) w t st, version ∷ long (pos (suc i)) ∷ [])
  unfolding control operate longs open_window
  opens st h l y x i t w free made = rw (free, open_window, made) refl

  closes :
      (st : State W T) (i : ℕ) (t : T) (w : W)
      → findfreewindowslot st ≡ some (suc i)
      → control curses do_delwin (version ∷ long (pos (suc i)) ∷ []) (opened (suc i) w t st)
        ≡ ok (record { win = st.win; terminal = curses.delwin w t }, version ∷ boolean true)
  unfolding control operate longs delete window close_window findfreewindowslot
  closes st i t w free =
      let empty = scan_slots-IsFree max_windows st.win (suc i) free in
      rw (placed st.win (suc i) (some w) none empty) (
        ap (λ l. ok (record { win = l; terminal = curses.delwin w t }, version ∷ boolean true))
          (restored st.win (suc i) (some w) none empty))

  -- If the first free slot is not that of the screen, and ncurses creates a window, then do_newwin
  -- answers with that slot and do_delwin on it answers true: it deletes this window and leaves the
  -- table of windows as it was.
  pub delwin-newwin :
      (st : State W T) (h l y x : ℤ) (i : ℕ) (t : T) (w : W)
      → findfreewindowslot st ≡ some (suc i)
      → curses.newwin (to_int h) (to_int l) (to_int y) (to_int x) st.terminal ≡ (t, some w)
      → (control curses do_newwin
            (version ∷ tuple_header 4 ∷ long h ∷ long l ∷ long y ∷ long x ∷ [])
            st
          >>= λ r. control curses do_delwin r.1 r.0)
        ≡ ok (record { win = st.win; terminal = curses.delwin w t }, version ∷ boolean true)
  delwin-newwin st h l y x i t w free made =
      ap (λ r. r >>= λ s. control curses do_delwin s.1 s.0) (opens st h l y x i t w free made)
      ∙ closes st i t w free
