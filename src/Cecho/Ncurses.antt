-- ===== src/Cecho/Ncurses.antt =====
-- What lib/cecho-0.0.3/c_src/cecho.c calls of ncurses, which is a parameter.
use hz_platform.Prelude.{ℕ, Bool, List, Option, ℤ}

-- The functions of ncurses that answer with a code, with their arguments, NULL as `none`.
pub data Call (W : Type 0) : Type 0 where
  endwin refresh cbreak nocbreak echo noecho start_color nl nonl : Call W
  addch : ℤ → Call W
  addnstr : List ℕ → Call W
  move : ℤ → ℤ → Call W
  curs_set : ℤ → Call W
  init_pair : ℤ → ℤ → ℤ → Call W
  mvaddch : ℤ → ℤ → ℤ → Call W
  mvaddnstr : ℤ → ℤ → List ℕ → Call W
  werase wrefresh : Option W → Call W
  wattron wattroff : Option W → ℤ → Call W
  scrollok keypad : Option W → Bool → Call W
  wmove : Option W → ℤ → ℤ → Call W
  waddch : Option W → ℕ → Call W
  mvwaddch : Option W → ℤ → ℤ → ℕ → Call W
  waddnstr : Option W → List ℕ → Call W
  mvwaddnstr : Option W → ℤ → ℤ → List ℕ → Call W
  whline wvline box : Option W → ℤ → ℤ → Call W
  wborder : Option W → List ℤ → Call W

pub record Curses (W T : Type 0) : Type 0 where
  pub perform : Call W → T → T × ℤ
  pub initscr : T → T × Option W
  pub newwin : ℤ → ℤ → ℤ → ℤ → T → T × Option W
  pub delwin : W → T → T
  pub getyx : Option W → T → ℤ × ℤ
  pub getmaxyx : Option W → T → ℤ × ℤ
  pub has_colors : T → Bool
  pub getch : T → T × ℤ
