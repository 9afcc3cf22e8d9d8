-- ===== src/Proto/Tests/Snapshot.antt =====
-- An answer to an attach, for the tests of src/common/proto.cpp.
use ckmux.Prelude.{[], ◌∷◌, arith}
use ckmux.Prelude.Int.{pos, negsuc}
use ckmux.Proto.Enums.{PrinterMode, PrinterScope, PrinterState, PrintJobKind, DiagnosticKind}
use ckmux.Proto.State.{TerminalState}
use ckmux.Proto.State.RoundTrip.{FitsTerminalState}
use ckmux.Proto.Attaching.{Attached}
use ckmux.Proto.Attaching.RoundTrip.{FitsAttached}
use ckmux.Proto.Tests.Plain.{plain}
use ckmux.Proto.Tests.Samples.{letter, letters-FitsRuns}

-- A terminal of three cells, with a line of history, an image and a print job.
abbrev terminal : TerminalState plain
terminal = record {
  term = 4;
  index = 1;
  title = 115 ∷ 104 ∷ [];
  custom_title = [];
  flags = 0;
  columns = 3;
  rows = 1;
  rect = record { x = negsuc 4; y = pos 2; width = 5; height = 3 };
  z_order = 0;
  zoomed = 0;
  tile = record { x = 0; y = 0; width = 32768; height = 65535 };
  cursor = record { column = 2; row = 0; style = 1; visible = 1; blink = 0 };
  modes = 5;
  grid = record { run_length = 3; cell = letter } ∷ [];
  scrollback = (record { run_length = 3; cell = letter } ∷ []) ∷ [];
  images = 77 ∷ [];
  printer_mode = PrinterMode.ask;
  printer_scope = PrinterScope.session;
  printer_state = PrinterState.idle;
  printer_bytes = 0;
  print_jobs =
      record { job = 1; kind = PrintJobKind.screen; bytes = 10; lines = 1; at = pos 7 } ∷ [];
  clipboard_serial = 0;
  exited = 1;
  exit_status = negsuc 0;
  hold = 1;
  diagnostic_kind = DiagnosticKind.child_exited;
  diagnostic = 98 ∷ 121 ∷ 101 ∷ [];
  bell_serial = 2;
  activity_serial = 3;
}

abbrev pub answer : Attached plain
answer = record {
  session = 1;
  snapshot = record {
    desktop_columns = 80;
    desktop_rows = 24;
    focused_term = 4;
    terminals = terminal ∷ [];
  };
}

terminal-FitsTerminalState : FitsTerminalState plain terminal
terminal-FitsTerminalState = record {
  term = omega arith;
  index = omega arith;
  title = omega arith;
  custom_title = omega arith;
  flags = omega arith;
  columns = omega arith;
  rows = omega arith;
  rect = record { x = omega arith; y = omega arith; width = omega arith; height = omega arith };
  z_order = omega arith;
  zoomed = omega arith;
  tile = record { x = omega arith; y = omega arith; width = omega arith; height = omega arith };
  cursor = record {
    column = omega arith;
    row = omega arith;
    style = omega arith;
    visible = omega arith;
    blink = omega arith;
  };
  modes = omega arith;
  grid = letters-FitsRuns;
  scrollback = record { count = omega arith; each = (letters-FitsRuns, tt) };
  images = record { count = omega arith; each = (omega arith, tt) };
  printer_bytes = omega arith;
  print_jobs = record {
    count = omega arith;
    each = (
      record { job = omega arith; bytes = omega arith; lines = omega arith; at = omega arith },
      tt,
    );
  };
  clipboard_serial = omega arith;
  exited = omega arith;
  exit_status = omega arith;
  hold = omega arith;
  diagnostic = omega arith;
  bell_serial = omega arith;
  activity_serial = omega arith;
}

pub answer-FitsAttached : FitsAttached plain answer
answer-FitsAttached = record {
  session = omega arith;
  snapshot = record {
    desktop_columns = omega arith;
    desktop_rows = omega arith;
    focused_term = omega arith;
    terminals = record { count = omega arith; each = (terminal-FitsTerminalState, tt) };
  };
}
