-- ===== src/Cecho.antt =====
-- lib/cecho-0.0.3/c_src/cecho.c, the driver of a terminal by ncurses. ncurses is not part of the
-- repository: the terminal is a value of a type `T`, a window one of a type `W`. A use of a local
-- variable that was not decoded is a fault.
pub mod Ncurses
pub mod Args
pub mod Windows
pub mod Strings
mod Tests
use hz_platform.Prelude.{
  ℕ, zero, suc, ◌+◌, ◌-◌, Bool, true, false, ◌&&◌, List, [], ◌∷◌, ◌++◌, Option, none, some, ℤ, pos,
  negsuc, is_zero, to_int, leb, ltb, ◌==◌, length, get_elem?, set, replicate, if◌then◌else◌,
}
use hz_platform.Run.{Run, ok, fault, out_of_bounds, uninitialized, aborted, ◌>>=◌}
use hz_platform.Ei.{Buff, version, tuple_header, atom, long}
use hz_platform.Ei.Input.{decode_string, decode_boolean, skip_tuple_header}
use hz_platform.Text.{codes, up_to_nul}
use hz_platform.Cecho.Ncurses.{
  Call, endwin, refresh, cbreak, nocbreak, echo, noecho, start_color, nl, nonl, addch, addnstr,
  move, curs_set, init_pair, mvaddch, mvaddnstr, werase, wrefresh, wattron, wattroff, scrollok,
  keypad, wmove, waddch, mvwaddch, waddnstr, mvwaddnstr, whline, wvline, box, wborder, Curses,
}
use hz_platform.Cecho.Args.{
  longs, nth, drop_first, decode_text, decode_char, as_flag, encode_ok_reply, boolean,
}

-- _MAXWINDOWS
abbrev pub max_windows : ℕ
max_windows = 60

-- Integers that are given to a parameter of type `int` are converted here; the other conversions, to
-- chtype and to char, are those of the call.

-- `win`, with its last cell, which `start` leaves as it is; and the terminal.
pub record State (W T : Type 0) : Type 0 where
  pub win : List (Option W)
  pub terminal : T

pub data Command : Type 0 where
  do_endwin do_initscr do_refresh do_cbreak do_nocbreak do_echo do_noecho : Command
  do_addch do_addstr do_move do_getyx do_getmaxyx do_curs_set do_werase : Command
  do_has_colors do_start_color do_init_pair do_wattron do_wattroff do_nl do_nonl : Command
  do_scrollok do_mvaddch do_mvaddstr do_newwin do_delwin do_wmove do_waddstr : Command
  do_waddch do_mvwaddstr do_mvwaddch do_wrefresh do_whline do_wvline do_wborder do_box do_keypad :
      Command
  unknown : Command

abbrev pub cell : {A : Type 0} → Option A → Run A
cell none = fault out_of_bounds
cell (some w) = ok w

-- The loop of findfreewindowslot, over the cells in front of the last one.
unfoldable pub scan_slots : {W : Type 0} → ℕ → List (Option W) → Option ℕ
scan_slots zero win = none
scan_slots (suc n) [] = none
scan_slots (suc n) (none ∷ win) = some 0
scan_slots (suc n) (some w ∷ win) = elim (scan_slots n win) [ none ↦ none | some i ↦ some (suc i) ]

module _ {W T : Type 0} where
  -- `st->win[slot]`
  unfoldable pub window : ℤ → State W T → Run (Option W)
  window (pos slot) st = cell (get_elem? st.win slot)
  window (negsuc slot) st = fault out_of_bounds

  unfoldable pub findfreewindowslot : State W T → Option ℕ
  findfreewindowslot st = scan_slots max_windows st.win

  unfoldable pub start : Option W → T → State W T
  start garbage terminal = record {
    win = replicate max_windows none ++ garbage ∷ [];
    terminal = terminal;
  }

  -- driver_free: the windows that are still open stay with ncurses.
  abbrev pub stop : State W T → T
  stop st = st.terminal

  module _ (curses : Curses W T) where
    abbrev pub reply : Call W → State W T → State W T × Buff
    reply call st =
        let r = curses.perform call st.terminal in
        (record st { terminal = r.0 }, encode_ok_reply r.1)

    abbrev pub is_opened : Option W → ℤ
    is_opened none = negsuc 0
    is_opened (some w) = pos 0

    unfoldable pub open_screen : State W T → State W T × Buff
    open_screen st =
        let r = curses.initscr st.terminal in
        (record { win = set st.win 0 r.1; terminal = r.0 }, encode_ok_reply (is_opened r.1))

    -- do_newwin, with the free slot that was found.
    unfoldable pub open_window : Option ℕ → Buff → State W T → Run (State W T × Buff)
    open_window (some (suc i)) buf st = do
      r ← longs 4 (skip_tuple_header buf)
      let (t, w) =
          curses.newwin (to_int (nth 0 r.0)) (to_int (nth 1 r.0)) (to_int (nth 2 r.0))
            (to_int (nth 3 r.0)) st.terminal
      ok (record { win = set st.win (suc i) w; terminal = t }, long (pos (suc i)) ∷ [])
    open_window _ buf st = ok (st, long (negsuc 0) ∷ [])

    -- do_delwin, with the window of its slot.
    unfoldable pub close_window : ℕ → Option W → State W T → State W T × Buff
    close_window zero w st = (st, boolean false)
    close_window (suc i) none st = (st, boolean false)
    close_window (suc i) (some w) st = (
      record { win = set st.win (suc i) none; terminal = curses.delwin w st.terminal },
      boolean true,
    )

    unfoldable pub delete : ℤ → State W T → Run (State W T × Buff)
    delete (pos zero) st = ok (close_window zero none st)
    delete (pos (suc i)) st = window (pos (suc i)) st >>= λ w. ok (close_window (suc i) w st)
    delete (negsuc slot) st = fault out_of_bounds

    -- The commands that pass a window and then integers on.
    abbrev pub with_window :
        ℕ → (Option W → List ℤ → Call W) → Buff → State W T → Run (State W T × Buff)
    with_window n call buf st = do
      r ← longs (suc n) buf
      w ← window (nth 0 r.0) st
      ok (reply (call w (drop_first r.0)) st)

    abbrev pub with_flag : (Option W → Bool → Call W) → Buff → State W T → Run (State W T × Buff)
    with_flag call buf st = do
      r ← longs 1 buf
      b ← as_flag (decode_boolean r.1)
      w ← window (nth 0 r.0) st
      ok (reply (call w b) st)

    -- A plain function, and one of integers.
    abbrev pub of_longs : ℕ → (List ℤ → Call W) → Buff → State W T → Run (State W T × Buff)
    of_longs n call buf st = longs n buf >>= λ r. ok (reply (call r.0) st)

    -- The text of the four commands that add one, behind its length.
    abbrev pub with_text :
        ℕ → (List ℤ → List ℕ → Run (Call W)) → Buff → State W T → Run (State W T × Buff)
    with_text n call buf st = do
      r ← longs (suc n) buf
      text ← decode_text (nth n r.0) (decode_string r.1)
      c ← call r.0 text
      ok (reply c st)

    abbrev pub coordinates : ℤ × ℤ → Buff
    coordinates (y, x) = tuple_header 2 ∷ long y ∷ long x ∷ []

    -- The switch of `control`, behind init_state; an unknown command answers nothing.
    unfoldable pub operate : Command → Buff → State W T → Run (State W T × Buff)
    operate do_endwin buf st = ok (reply endwin st)
    operate do_initscr buf st = ok (open_screen st)
    operate do_refresh buf st = ok (reply refresh st)
    operate do_cbreak buf st = ok (reply cbreak st)
    operate do_nocbreak buf st = ok (reply nocbreak st)
    operate do_echo buf st = ok (reply echo st)
    operate do_noecho buf st = ok (reply noecho st)
    operate do_addch buf st = of_longs 1 (λ z. addch (nth 0 z)) buf st
    operate do_addstr buf st = with_text 0 (λ z s. ok (addnstr s)) (skip_tuple_header buf) st
    operate do_move buf st =
        of_longs 2 (λ z. move (to_int (nth 0 z)) (to_int (nth 1 z))) (skip_tuple_header buf) st
    operate do_getyx buf st = do
      r ← longs 1 buf
      w ← window (nth 0 r.0) st
      ok (st, coordinates (curses.getyx w st.terminal))
    operate do_getmaxyx buf st = do
      r ← longs 1 buf
      w ← window (nth 0 r.0) st
      ok (st, coordinates (curses.getmaxyx w st.terminal))
    operate do_curs_set buf st = do
      r ← longs 1 buf
      ok ((reply (curs_set (to_int (nth 0 r.0))) st).0, atom (codes "ok") ∷ [])
    operate do_werase buf st = with_window 0 (λ w z. werase w) buf st
    operate do_has_colors buf st = ok (st, boolean (curses.has_colors st.terminal))
    operate do_start_color buf st = ok (reply start_color st)
    operate do_init_pair buf st =
        of_longs 3 (λ z. init_pair (to_int (nth 0 z)) (to_int (nth 1 z)) (to_int (nth 2 z)))
          (skip_tuple_header buf) st
    operate do_wattron buf st =
        with_window 1 (λ w z. wattron w (to_int (nth 0 z))) (skip_tuple_header buf) st
    operate do_wattroff buf st =
        with_window 1 (λ w z. wattroff w (to_int (nth 0 z))) (skip_tuple_header buf) st
    operate do_nl buf st = ok (reply nl st)
    operate do_nonl buf st = ok (reply nonl st)
    operate do_scrollok buf st = with_flag scrollok (skip_tuple_header buf) st
    operate do_mvaddch buf st =
        of_longs 3 (λ z. mvaddch (to_int (nth 0 z)) (to_int (nth 1 z)) (nth 2 z))
          (skip_tuple_header buf) st
    operate do_mvaddstr buf st =
        with_text 2 (λ z s. ok (mvaddnstr (to_int (nth 0 z)) (to_int (nth 1 z)) s))
          (skip_tuple_header buf) st
    operate do_newwin buf st = open_window (findfreewindowslot st) buf st
    operate do_delwin buf st = longs 1 buf >>= λ r. delete (nth 0 r.0) st
    operate do_wmove buf st =
        with_window 2 (λ w z. wmove w (to_int (nth 0 z)) (to_int (nth 1 z))) (skip_tuple_header buf)
          st
    operate do_waddstr buf st =
        with_text 1 (λ z s. window (nth 0 z) st >>= λ w. ok (waddnstr w s)) (skip_tuple_header buf)
          st
    operate do_waddch buf st = do
      r ← longs 1 (skip_tuple_header buf)
      w ← window (nth 0 r.0) st
      ok (reply (waddch w (decode_char r.1)) st)
    operate do_mvwaddstr buf st =
        with_text 3
          (λ z s.
            window (nth 0 z) st >>= λ w. ok (mvwaddnstr w (to_int (nth 1 z)) (to_int (nth 2 z)) s))
          (skip_tuple_header buf) st
    operate do_mvwaddch buf st = do
      r ← longs 3 (skip_tuple_header buf)
      w ← window (nth 0 r.0) st
      ok (reply (mvwaddch w (to_int (nth 1 r.0)) (to_int (nth 2 r.0)) (decode_char r.1)) st)
    operate do_wrefresh buf st = with_window 0 (λ w z. wrefresh w) buf st
    operate do_whline buf st =
        with_window 2 (λ w z. whline w (nth 0 z) (to_int (nth 1 z))) (skip_tuple_header buf) st
    operate do_wvline buf st =
        with_window 2 (λ w z. wvline w (nth 0 z) (to_int (nth 1 z))) (skip_tuple_header buf) st
    operate do_wborder buf st = with_window 8 wborder (skip_tuple_header buf) st
    operate do_box buf st =
        with_window 2 (λ w z. box w (nth 0 z) (nth 1 z)) (skip_tuple_header buf) st
    operate do_keypad buf st = with_flag keypad (skip_tuple_header buf) st
    operate unknown buf st = ok (st, [])

    -- init_state asserts that there is a version.
    unfoldable pub control : Command → Buff → State W T → Run (State W T × Buff)
    control command (version ∷ buf) st = operate command buf st >>= λ r. ok (r.0, version ∷ r.1)
    control command _ st = fault aborted

    -- The callback for a key: what it sends.
    unfoldable pub do_getch : State W T → State W T × Buff
    do_getch st =
        let r = curses.getch st.terminal in (record st { terminal = r.0 }, version ∷ long r.1 ∷ [])
