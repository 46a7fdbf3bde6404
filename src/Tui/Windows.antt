-- ===== src/Tui/Windows.antt =====
-- `setupWindow` of src/tui.cpp: the windows that ncurses is asked for.
use kddv.Base.{
  ◌≡◌, ℕ, suc, ◌+◌, ◌-◌, ◌<◌, ◌≤◌, ℤ, pos, negsuc, ◌-ℤ◌, Bool, false, ◌&&◌, List, [], ◌∷◌, length,
  leb, ltb, if◌then◌else◌, arith,
}
use kddv.Text.{Text, text}

-- The arguments of `newwin`, in its order; `msg.size()` is unsigned, but the difference comes out
-- as an `int` again.
pub record NewWindow : Type 0 where
  pub rows : ℤ
  pub columns : ℤ
  pub first_row : ℤ
  pub first_column : ℤ

abbrev pub instructions : Text
instructions = text "Quit: q, Left: <, Right: >"

unfoldable pub main_window : ℕ → ℕ → NewWindow
main_window screen_rows screen_cols = record {
  rows = pos screen_rows -ℤ pos 1;
  columns = pos screen_cols;
  first_row = pos 0;
  first_column = pos 0;
}

unfoldable pub instructions_window : ℕ → ℕ → NewWindow
instructions_window screen_rows screen_cols = record {
  rows = pos 1;
  columns = pos (length instructions);
  first_row = pos screen_rows -ℤ pos 1;
  first_column = pos screen_cols -ℤ pos (length instructions);
}

unfoldable pub status_window : ℕ → ℕ → NewWindow
status_window screen_rows screen_cols = record {
  rows = pos 1;
  columns = pos screen_cols -ℤ pos (length instructions);
  first_row = pos screen_rows -ℤ pos 1;
  first_column = pos 0;
}

-- On a screen of the size that `getmaxyx` gives.
unfoldable pub setup_window : ℕ → ℕ → List NewWindow
unfolding main_window instructions_window status_window
setup_window screen_rows screen_cols =
    main_window screen_rows screen_cols
    ∷ instructions_window screen_rows screen_cols
    ∷ status_window screen_rows screen_cols
    ∷ []

-- Whether `n` is one of the `size` numbers from `first` on.
abbrev within : ℤ → ℤ → ℕ → Bool
within (pos first) (pos size) n = leb first n && ltb n (first + size)
within (pos first) (negsuc size) n = false
within (negsuc first) size n = false

abbrev pub covers : NewWindow → ℕ → ℕ → Bool
covers w row column = within w.first_row w.rows row && within w.first_column w.columns column

-- How many of the windows have the cell.
abbrev pub covering : List NewWindow → ℕ → ℕ → ℕ
covering [] row column = 0
covering (w ∷ ws) row column =
    let others = covering ws row column in if covers w row column then suc others else others

below : (m n : ℕ) → n ≤ m → pos m -ℤ pos n ≡ pos (m - n)
unfolding ◌-ℤ◌
below m n h = ground arith

-- On a screen of at least two rows and 27 columns each cell of the screen belongs to one of the
-- three windows and to no other, and none of the windows goes beyond the screen.
pub setup_window_tiles :
    (screen_rows screen_cols row column : ℕ)
    → 1 < screen_rows
    → 26 < screen_cols
    → covering (setup_window screen_rows screen_cols) row column
      ≡ (if ltb row screen_rows && ltb column screen_cols then 1 else 0)
unfolding setup_window
setup_window_tiles screen_rows screen_cols row column high wide =
    rw (below screen_rows 1 (omega arith), below screen_cols 26 (omega arith)) (ground arith)
