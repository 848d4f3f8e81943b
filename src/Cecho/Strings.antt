-- ===== src/Cecho/Strings.antt =====
-- The commands that add a text, as cecho.erl sends them: with the text's length in front of it.
use hz_platform.Prelude.{ℕ, ◌+◌, ◌≡◌, refl, false, List, [], ◌∷◌, ◌++◌, ℤ, pos, leb, length, arith}
use hz_platform.Run.{fault, out_of_bounds}
use hz_platform.Ei.{Buff, version, tuple_header, string, long}
use hz_platform.Cecho.Ncurses.{Curses}
use hz_platform.Cecho.Args.{longs, decode_text}
use hz_platform.Cecho.{
  State, Command, do_addstr, do_mvaddstr, do_waddstr, do_mvwaddstr, operate, control,
}

-- The four commands, with what stands in front of the length.
pub data AddsText : Command → Buff → Type 0 where
  at_cursor : AddsText do_addstr (tuple_header 2 ∷ [])
  moved : (y x : ℤ) → AddsText do_mvaddstr (tuple_header 4 ∷ long y ∷ long x ∷ [])
  in_window : (slot : ℤ) → AddsText do_waddstr (tuple_header 3 ∷ long slot ∷ [])
  moved_in :
      (slot y x : ℤ) → AddsText do_mvwaddstr (tuple_header 5 ∷ long slot ∷ long y ∷ long x ∷ [])

no_room : (s : List ℕ) → leb (length s + 1) (length s) ≡ false
no_room s = ground arith

module _ {W T : Type 0} (curses : Curses W T) where
  -- Each of the four commands that add a text, given the text's own length in front of it, writes the
  -- final 0 of the text behind its array.
  pub text_overflows :
      (command : Command) (front : Buff) (s : List ℕ) (st : State W T)
      → AddsText command front
      → control curses command (version ∷ (front ++ long (pos (length s)) ∷ string s ∷ [])) st
        ≡ fault out_of_bounds
  unfolding control operate longs decode_text
  text_overflows _ _ s st at_cursor = rw (no_room s) refl
  text_overflows _ _ s st (moved y x) = rw (no_room s) refl
  text_overflows _ _ s st (in_window slot) = rw (no_room s) refl
  text_overflows _ _ s st (moved_in slot y x) = rw (no_room s) refl
