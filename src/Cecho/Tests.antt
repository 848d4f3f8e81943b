-- ===== src/Cecho/Tests.antt =====
-- Runs on a terminal that numbers its windows.
use hz_platform.Prelude.{ℕ, suc, ◌≡◌, refl, true, [], ◌∷◌, none, some, pos}
use hz_platform.Run.{ok, fault, out_of_bounds, ◌>>=◌}
use hz_platform.Ei.{version, tuple_header, string, long}
use hz_platform.Text.{codes}
use hz_platform.Cecho.Ncurses.{Curses}
use hz_platform.Cecho.Args.{boolean}
use hz_platform.Cecho.{State, do_newwin, do_delwin, do_addstr, start, findfreewindowslot, control}
use hz_platform.Cecho.Windows.{delwin-newwin}
use hz_platform.Cecho.Strings.{at_cursor, text_overflows}

abbrev counting : Curses ℕ ℕ
counting = record {
  perform = λ call t. (t, pos 0);
  initscr = λ t. (suc t, some t);
  newwin = λ h l y x t. (suc t, some t);
  delwin = λ w t. t;
  getyx = λ w t. (pos 0, pos 0);
  getmaxyx = λ w t. (pos 24, pos 80);
  has_colors = λ t. true;
  getch = λ t. (t, pos 113);
}

-- Behind do_initscr.
abbrev screen : State ℕ ℕ
screen = record { win = some 0 ∷ none ∷ none ∷ []; terminal = 1 }

delwin-newwin_example :
    (control counting do_newwin
        (version ∷ tuple_header 4 ∷ long (pos 3) ∷ long (pos 4) ∷ long (pos 0) ∷ long (pos 0) ∷ [])
        screen
      >>= λ r. control counting do_delwin r.1 r.0)
    ≡ ok (record { win = some 0 ∷ none ∷ none ∷ []; terminal = 2 }, version ∷ boolean true)
unfolding findfreewindowslot hz_platform.Cecho.scan_slots
delwin-newwin_example =
    delwin-newwin counting screen (pos 3) (pos 4) (pos 0) (pos 0) 0 2 1 refl refl

text_overflows_example :
    control counting do_addstr
      (version ∷ tuple_header 2 ∷ long (pos 2) ∷ string (codes "hi") ∷ [])
      screen
    ≡ fault out_of_bounds
text_overflows_example =
    text_overflows counting do_addstr (tuple_header 2 ∷ []) (codes "hi") screen at_cursor
