-- ===== src/Server/Tests.antt =====
-- The theorems on src/server/diff_engine.cpp and src/client/mirror.cpp at a concrete terminal.
use ckmux.Prelude.{ℕ, zero, suc, ◌<◌, ◌≡◌, refl, true, false, none, List, [], ◌∷◌, ◌++◌, arith}
use ckmux.Prelude.Int.{pos}
use ckmux.Proto.Enums.{PrinterState, PrinterMode, PrinterScope}
use ckmux.Proto.Tests.Plain.{plain, Color, Cell, plain_style}
use ckmux.Proto.Tests.Comparing.{plain-tests, plain-CellTestsLaws}
use ckmux.Delta.State.{first_cursor, StyleLib, GridState}
use ckmux.Delta.Rows.{row_of}
use ckmux.Delta.Diff.{examined, names_row, damage_empty, view_of}
use ckmux.Delta.Apply.Delivers.{screen}
use ckmux.Client.Mirror.{TerminalMirror}
use ckmux.Server.Differ.{Reading, TerminalDiffer, hints_of, row_hints, flush}
use ckmux.Server.Differ.Follows.{InSync, IsReading}
use ckmux.Server.Differ.Ticks.{Followed, flush-Followed}

abbrev styles : StyleLib plain
styles = record {
  default_style = plain_style;
  underline = λ s. 0;
  underline_color = λ s. Color.default_color;
}

abbrev line : ℕ → List Cell
line letter = record { grapheme = letter ∷ []; width = pos 1; style = plain_style } ∷ []

-- What the server believes, with no history.
abbrev believed : GridState plain
believed = record {
  cells = screen 1 2;
  grid = line 97 ++ line 98;
  scrollback = [];
  scrollback_start = 0;
  max_scrollback_lines = 0;
  cursor = first_cursor;
  modes = 0;
  title = [];
}

abbrev differ : TerminalDiffer plain
differ = record {
  believed = believed;
  sequence = 7;
  needs_snapshot = false;
  history_diverged = false;
}

-- The client shows the same, and keeps a line.
abbrev mirror : TerminalMirror plain
mirror = record {
  state = record believed { scrollback = line 96; max_scrollback_lines = 5 };
  diagnostics = [];
  sequence = 7;
  gaps = 0;
  clipboard_serial = 0;
  clipboard_text = [];
  printer_bytes = 0;
  printer_jobs = 0;
  printer_active = false;
  printer_state = PrinterState.idle;
  printer_mode = PrinterMode.ask;
  printer_scope = PrinterScope.global;
  print_jobs = [];
  needs_snapshot = false;
  exited = false;
  hold = false;
  custom_title = [];
  bell_marked = false;
  activity_marked = false;
  bell_serial = 0;
  activity_serial = 0;
  exit_status = none;
}

-- The second row has changed, and a line has scrolled away.
abbrev reading : Reading plain
reading = record {
  view = record {
    cells = screen 1 2;
    grid = line 97 ++ line 99;
    cursor = record { column = 1; row = 1; style = 0; visible = 1; blink = 0 };
    modes = 4;
    title = 99 ∷ [];
  };
  any = true;
  full = false;
  rows = record { first = pos 0; last = pos 0 } ∷ record { first = pos 0; last = pos 1 } ∷ [];
  scrollback_pushed = 1;
  scrollback = line 95 ++ line 97;
}

reading-named :
    (row : ℕ)
    → row < 2
    → examined (hints_of plain styles plain-tests reading) row ≡ false
    → row_of believed.grid 1 row ≡ row_of reading.view.grid 1 row
unfolding examined names_row damage_empty row_of row_hints
reading-named zero h e = refl
reading-named (suc zero) h e = cc
reading-named (suc (suc n)) h e = absurd (omega arith)

reading-IsReading : IsReading plain styles plain-tests 1 2 believed reading
reading-IsReading = record {
  view = record {
    some_columns = omega arith;
    columns = omega arith;
    some_rows = omega arith;
    rows = omega arith;
    cells = refl;
    grid = refl;
    cursor_row = omega arith;
    cursor_column = omega arith;
    modes = omega arith;
  };
  named = λ same. reading-named;
}

mirror-InSync : InSync plain styles plain-tests believed 7 mirror
unfolding view_of
mirror-InSync = record { screen = refl; grid = refl; modes = omega arith; sequence = refl }

flush-Followed_example :
    Followed plain styles plain-tests reading.view mirror
      (flush plain styles plain-tests differ 3 reading)
flush-Followed_example =
    flush-Followed plain styles plain-tests plain-CellTestsLaws 1 2 3 mirror differ reading
      mirror-InSync reading-IsReading refl refl
