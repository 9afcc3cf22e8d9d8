-- ===== src/Client/Tests.antt =====
-- The theorems on src/client/mirror.cpp at a concrete mirror.
use ckmux.Prelude.{◌+◌, ◌%◌, ◌^◌, ◌≡◌, refl, true, false, none, [], ◌∷◌, arith}
use ckmux.Prelude.Int.{pos, negsuc}
use ckmux.Proto.Enums.{PrinterState, PrinterMode, PrinterScope, DiagnosticKind}
use ckmux.Proto.Runs.{to_runs, to_runs_loop, push_cell, extends}
use ckmux.Proto.State.{TerminalState}
use ckmux.Proto.Tests.Comparing.{plain-tests, plain-CellTestsLaws}
use ckmux.Proto.Deltas.{GridDelta}
use ckmux.Proto.Grid.{GridOp}
use ckmux.Proto.Tests.Plain.{plain, Color, plain_style}
use ckmux.Delta.State.{first_cursor, StyleLib}
use ckmux.Delta.Diff.{GridView, view_of}
use ckmux.Delta.Diff.View.{IsView}
use ckmux.Delta.Apply.Delivers.{screen}
use ckmux.Delta.Apply.Mirror.{IsMirror}
use ckmux.Client.Mirror.{TerminalMirror, apply, adopt}
use ckmux.Client.Mirror.Adopted.{SaysView, adopt-view}
use ckmux.Client.Mirror.Refusal.{apply-IsMirror}

abbrev styles : StyleLib plain
styles = record {
  default_style = plain_style;
  underline = λ s. 0;
  underline_color = λ s. Color.default_color;
}

abbrev single : TerminalMirror plain
single = record {
  state = record {
    cells = screen 1 1;
    grid = record { grapheme = 97 ∷ []; width = pos 1; style = plain_style } ∷ [];
    scrollback = [];
    scrollback_start = 0;
    max_scrollback_lines = 5;
    cursor = first_cursor;
    modes = 0;
    title = [];
  };
  diagnostics = [];
  sequence = 7;
  gaps = 0;
  clipboard_serial = 0;
  clipboard_text = [];
  printer_bytes = 0;
  printer_jobs = 0;
  printer_active = false;
  printer_state = PrinterState.idle;
  printer_mode = PrinterMode.ask;
  printer_scope = PrinterScope.global;
  print_jobs = [];
  needs_snapshot = false;
  exited = false;
  hold = false;
  custom_title = [];
  bell_marked = false;
  activity_marked = false;
  bell_serial = 0;
  activity_serial = 0;
  exit_status = none;
}

single-IsMirror : IsMirror plain styles single.state
single-IsMirror = record {
  width = 1;
  height = 1;
  cells = refl;
  grid = refl;
  cursor_column = omega arith;
  cursor_row = omega arith;
  history = record {
    total = 0;
    laid = record { size = refl; start = omega arith };
    live = omega arith;
    dead = omega arith;
  };
}

-- The next number, and a cursor past the last row.
abbrev below : GridDelta plain
below = record {
  term = 3;
  seq = 8;
  ops = GridOp.cursor (record { column = 0; row = 1; style = 0; visible = 1; blink = 0 }) ∷ [];
}

apply-IsMirror_example :
    IsMirror plain styles (apply plain styles single below).mirror.state
    × (((apply plain styles single below).accepted ≡ false
          → ((apply plain styles single below).mirror.state ≡ single.state)
            × (((apply plain styles single below).mirror.sequence ≡ single.sequence)
                × ((apply plain styles single below).mirror.needs_snapshot ≡ true)))
        × ((apply plain styles single below).accepted ≡ true
            → (below.seq ≡ (single.sequence + 1) % 2 ^ 32)
              × ((apply plain styles single below).mirror.sequence ≡ below.seq)))
apply-IsMirror_example = apply-IsMirror plain styles single below single-IsMirror

-- A screen of one letter, with a title.
abbrev lettered : GridView plain
lettered = record {
  cells = screen 1 1;
  grid = record { grapheme = 98 ∷ []; width = pos 1; style = plain_style } ∷ [];
  cursor = first_cursor;
  modes = 5;
  title = 115 ∷ [];
}

lettered-IsView : IsView plain 1 1 lettered
lettered-IsView = record {
  some_columns = omega arith;
  columns = omega arith;
  some_rows = omega arith;
  rows = omega arith;
  cells = refl;
  grid = refl;
  cursor_row = omega arith;
  cursor_column = omega arith;
  modes = omega arith;
}

-- What a server says of it, with a line of history.
abbrev said : TerminalState plain
said = record {
  term = 3;
  index = 0;
  title = 115 ∷ [];
  custom_title = [];
  flags = 0;
  columns = 1;
  rows = 1;
  rect = record { x = pos 0; y = pos 0; width = 1; height = 1 };
  z_order = 0;
  zoomed = 0;
  tile = record { x = 0; y = 0; width = 65535; height = 65535 };
  cursor = record { column = 0; row = 0; style = 0; visible = 1; blink = 0 };
  modes = 5;
  grid =
      record {
        run_length = 1;
        cell = record { grapheme = 98 ∷ []; width = pos 1; style = plain_style };
      }
      ∷ [];
  scrollback =
      (record {
        run_length = 1;
        cell = record { grapheme = 97 ∷ []; width = pos 1; style = plain_style };
      }
        ∷ [])
      ∷ [];
  images = [];
  printer_mode = PrinterMode.ask;
  printer_scope = PrinterScope.session;
  printer_state = PrinterState.idle;
  printer_bytes = 0;
  print_jobs = [];
  clipboard_serial = 0;
  exited = 0;
  exit_status = negsuc 0;
  hold = 0;
  diagnostic_kind = DiagnosticKind.child_exited;
  diagnostic = [];
  bell_serial = 0;
  activity_serial = 0;
}

said-SaysView : SaysView plain styles plain-tests 1 1 lettered said
unfolding to_runs to_runs_loop push_cell extends
said-SaysView = record {
  columns = refl;
  rows = refl;
  grid = refl;
  column = refl;
  row = refl;
  style = refl;
  visible = refl;
  blink = refl;
  modes = refl;
  title = refl;
}

adopt-view_example :
    ((adopt plain styles single said).accepted ≡ true)
    × ((view_of plain styles plain-tests (adopt plain styles single said).mirror.state ≡ lettered)
        × (((adopt plain styles single said).mirror.needs_snapshot ≡ false)
            × ((adopt plain styles single said).mirror.sequence ≡ 0)))
adopt-view_example =
    adopt-view plain styles plain-tests plain-CellTestsLaws 1 1 single lettered said lettered-IsView
      said-SaysView
