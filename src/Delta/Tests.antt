-- ===== src/Delta/Tests.antt =====
-- The theorems on src/common/grid_delta.cpp at concrete screens.
use ckmux.Prelude.{
  ℕ, zero, suc, ◌*◌, ◌≤◌, ◌<◌, ◌≡◌, refl, true, false, List, [], ◌∷◌, ◌++◌, length, arith,
}
use ckmux.Prelude.Int.{pos}
use ckmux.Proto.Tests.Plain.{plain, Color, Cell, plain_style}
use ckmux.Proto.Tests.Comparing.{plain-tests, plain-CellTestsLaws}
use ckmux.Proto.Grid.{GridOp}
use ckmux.Delta.State.{
  area, first_cursor, GridCursor, StyleLib, GridState, scrollback_lines, scrollback_cells,
  push_scrollback_line, push_scrollback_lines, resize_state, padded, scrollback_width,
}
use ckmux.Delta.State.History.{IsLaid, IsKept, newest, push_scrollback_line-IsKept}
use ckmux.Delta.Rows.{row_of}
use ckmux.Delta.Diff.{GridView, RowDamage, examined, names_row, damage_empty, diff, full_repaint}
use ckmux.Delta.Diff.View.{IsView, shows, apply_delta-full_repaint}
use ckmux.Delta.Diff.Exact.{apply_delta-diff}
use ckmux.Delta.Apply.{apply_delta}
use ckmux.Delta.Apply.Delivers.{screen}
use ckmux.Delta.Apply.Mirror.{IsMirror}
use ckmux.Delta.Apply.Valid.{apply_delta-IsMirror}
use ckmux.Delta.Compare.{same_cells, same_state, SameTerminal, same_state-SameTerminal}
use ckmux.Delta.Repaint.{same_cell}
use ckmux.Delta.Encode.{encode_grid, decode_grid}
use ckmux.Delta.Encode.RoundTrip.{decode_grid-encode_grid, decode_grid-sized}

abbrev styles : StyleLib plain
styles = record {
  default_style = plain_style;
  underline = λ s. 0;
  underline_color = λ s. Color.default_color;
}

abbrev cell : ℕ → Cell
cell letter = record { grapheme = letter ∷ []; width = pos 1; style = plain_style }

abbrev line : ℕ → List Cell
line letter = cell letter ∷ cell letter ∷ []

abbrev corner : GridCursor
corner = record { column = 2; row = 2; style = 1; visible = 1; blink = 0 }

-- Three rows of two columns, with a history of one line.
abbrev before : GridState plain
before = record {
  cells = screen 2 3;
  grid = line 97 ++ (line 98 ++ line 99);
  scrollback = line 96;
  scrollback_start = 0;
  max_scrollback_lines = 2;
  cursor = first_cursor;
  modes = 5;
  title = 97 ∷ [];
}

-- The last two rows have moved up, and the cursor.
abbrev after : GridView plain
after = record {
  cells = screen 2 3;
  grid = line 97 ++ (line 99 ++ line 100);
  cursor = corner;
  modes = 3;
  title = 98 ∷ [];
}

abbrev report : List RowDamage
report =
    record { first = pos 0; last = pos 0 }
    ∷ record { first = pos 0; last = pos 2 }
    ∷ record { first = pos 0; last = pos 2 }
    ∷ []

after-IsView : IsView plain 2 3 after
after-IsView = record {
  some_columns = omega arith;
  columns = omega arith;
  some_rows = omega arith;
  rows = omega arith;
  cells = refl;
  grid = refl;
  cursor_row = omega arith;
  cursor_column = omega arith;
  modes = omega arith;
}

report-right :
    (row : ℕ)
    → row < 3
    → examined report row ≡ false
    → row_of before.grid 2 row ≡ row_of after.grid 2 row
unfolding examined names_row damage_empty row_of
report-right zero h e = refl
report-right (suc zero) h e = cc
report-right (suc (suc zero)) h e = cc
report-right (suc (suc (suc n))) h e = absurd (omega arith)

apply_delta-diff_example :
    apply_delta plain styles
      (diff plain styles plain-tests before after (line 97 ∷ []) report)
      before
    ≡ record {
      accepted = true;
      mirror =
          shows plain
            (push_scrollback_lines plain styles
              (resize_state plain styles before (screen 2 3))
              (line 97 ∷ []))
            after;
    }
apply_delta-diff_example =
    apply_delta-diff plain styles plain-tests plain-CellTestsLaws 2 3 after after-IsView before refl
      (line 97 ∷ []) report (omega arith) ((omega arith, omega arith), tt) (λ same. report-right)

apply_delta-full_repaint_example :
    apply_delta plain styles (full_repaint plain styles plain-tests after []) before ≡ record {
      accepted = true;
      mirror =
          shows plain
            (push_scrollback_lines plain styles (resize_state plain styles before (screen 2 3)) [])
            after;
    }
apply_delta-full_repaint_example =
    apply_delta-full_repaint plain styles plain-tests plain-CellTestsLaws 2 3 after after-IsView
      before [] refl tt

before-IsLaid : IsLaid plain styles before 1
before-IsLaid = record { size = refl; start = omega arith }

push_scrollback_line-IsKept_example :
    (n : ℕ) × IsKept plain styles
      (push_scrollback_line plain styles before (line 97))
      (newest (before.max_scrollback_lines * scrollback_width plain styles before) (
        scrollback_cells plain styles before
        ++ padded plain styles (scrollback_width plain styles before) (line 97)))
      n
push_scrollback_line-IsKept_example =
    push_scrollback_line-IsKept plain styles before (line 97) 1 (omega arith) before-IsLaid

before-IsMirror : IsMirror plain styles before
before-IsMirror = record {
  width = 2;
  height = 3;
  cells = refl;
  grid = refl;
  cursor_column = omega arith;
  cursor_row = omega arith;
  history = record { total = 1; laid = before-IsLaid; live = omega arith; dead = omega arith };
}

-- A scroll in order, and a cursor that is not.
abbrev hostile : List (GridOp plain)
hostile =
    GridOp.scroll (record { top = 0; bottom = 3; lines = pos 1 })
    ∷ GridOp.cursor (record { column = 0; row = 3; style = 0; visible = 1; blink = 0 })
    ∷ []

apply_delta-IsMirror_example :
    IsMirror plain styles (apply_delta plain styles hostile before).mirror
    × ((apply_delta plain styles hostile before).accepted ≡ false
        → (apply_delta plain styles hostile before).mirror ≡ before)
apply_delta-IsMirror_example = apply_delta-IsMirror plain styles hostile before before-IsMirror

decode_grid-encode_grid_example :
    decode_grid plain (encode_grid plain plain-tests before) (screen 2 3) before
    ≡ record { accepted = true; state = record before { cells = before.cells; grid = before.grid } }
decode_grid-encode_grid_example =
    decode_grid-encode_grid plain plain-tests plain-CellTestsLaws before before 2 3 (omega arith)
      (omega arith) refl refl

decode_grid-sized_example :
    ((decode_grid plain [] (screen 2 3) before).accepted ≡ true
      → (length (decode_grid plain [] (screen 2 3) before).state.grid ≡ area (screen 2 3))
        × (area (screen 2 3) ≤ 1000000))
    × ((decode_grid plain [] (screen 2 3) before).accepted ≡ false
        → (decode_grid plain [] (screen 2 3) before).state ≡ before)
decode_grid-sized_example = decode_grid-sized plain [] (screen 2 3) before

-- The same terminal with a dead line in front of its history.
abbrev reclaimed_later : GridState plain
reclaimed_later = record before { scrollback = line 95 ++ line 96; scrollback_start = 1 }

same_state-SameTerminal_example : SameTerminal plain styles before reclaimed_later
unfolding same_state same_cells same_cell scrollback_cells scrollback_lines
same_state-SameTerminal_example =
    same_state-SameTerminal plain styles plain-tests plain-CellTestsLaws before reclaimed_later refl
