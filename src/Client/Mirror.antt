-- ===== src/Client/Mirror.antt =====
-- What a client holds of a terminal, and how the server's messages change it: `TerminalMirror` of
-- src/client/mirror.hpp and src/client/mirror.cpp, but for its pictures and what is to be drawn again.
pub mod Screen
pub mod Refusal
pub mod Adopted
use Prim.Native.Nat.{bit_and, max}
use ckmux.Prelude.{
  ℕ, zero, suc, ◌+◌, ◌%◌, ◌^◌, Bool, true, false, ◌||◌, not, Option, none, some, List, [], ◌∷◌,
  ◌++◌, length, ltb, ◌==◌, if◌then◌else◌,
}
use ckmux.Prelude.Int.{ℤ, pos}
use ckmux.Proto.CellLib.{CellLib}
use ckmux.Proto.Cells.{CellRun}
use ckmux.Proto.Limits.{max_grid_columns, max_grid_rows}
use ckmux.Proto.Enums.{PrinterState, PrinterMode, PrinterScope, DiagnosticKind}
use ckmux.Proto.Shapes.{PrintJobInfo}
use ckmux.Proto.Runs.{total_cells, from_runs}
use ckmux.Proto.State.{TerminalState}
use ckmux.Proto.Deltas.{GridDelta}
use ckmux.Proto.Events.{TermMeta, TermClosed, ClipboardSet, TermDiagnostic}
use ckmux.Proto.Printing.{PrintState, PrintJobAdded}
use ckmux.Delta.State.{
  Size, extent, GridCursor, StyleLib, GridState, blank_state, push_scrollback_line,
  enforce_scrollback_capacity,
}
use ckmux.Delta.Apply.{apply_delta}
use ckmux.Delta.Encode.{decode_grid}

pub record Diagnostic : Type 0 where
  pub kind : DiagnosticKind
  pub text : List ℕ

-- The members, without their last underscore.
pub record TerminalMirror (L : CellLib) : Type 0 where
  pub state : GridState L
  pub diagnostics : List Diagnostic
  pub sequence : ℕ
  pub gaps : ℕ
  pub clipboard_serial : ℕ
  pub clipboard_text : List ℕ
  pub printer_bytes : ℕ
  pub printer_jobs : ℕ
  pub printer_active : Bool
  pub printer_state : PrinterState
  pub printer_mode : PrinterMode
  pub printer_scope : PrinterScope
  pub print_jobs : List PrintJobInfo
  pub needs_snapshot : Bool
  pub exited : Bool
  pub hold : Bool
  pub custom_title : List ℕ
  pub bell_marked : Bool
  pub activity_marked : Bool
  pub bell_serial : ℕ
  pub activity_serial : ℕ
  pub exit_status : Option ℤ

-- What a method returns, and the mirror after it.
pub record Taken (L : CellLib) : Type 0 where
  pub accepted : Bool
  pub mirror : TerminalMirror L

abbrev pub flag_bell : ℕ
flag_bell = 1

abbrev pub flag_activity : ℕ
flag_activity = 2

abbrev pub is_capturing : PrinterState → Bool
is_capturing PrinterState.capturing = true
is_capturing _ = false

module _ (L : CellLib) (k : StyleLib L) where
  -- The lines of a snapshot's history; one that is wider than the terminal, or empty, is passed over.
  unfoldable pub adopt_lines : GridState L → List (List (CellRun L)) → GridState L
  adopt_lines s [] = s
  adopt_lines s (line ∷ lines) =
      if total_cells L line == 0 || ltb (extent s.cells.width) (total_cells L line)
      then adopt_lines s lines
      else adopt_lines (push_scrollback_line L k s (from_runs L line)) lines

  -- The terminal's state, from a snapshot.
  unfoldable pub adopt_state : GridState L → TerminalState L → GridState L
  adopt_state s snapshot =
      let size : Size = record { width = pos snapshot.columns; height = pos snapshot.rows } in
      let blank = blank_state L k size s.max_scrollback_lines in
      let filled = (decode_grid L snapshot.grid size blank).state in
      record (adopt_lines filled snapshot.scrollback) {
        cursor = record {
          column = snapshot.cursor.column;
          row = snapshot.cursor.row;
          style = snapshot.cursor.style;
          visible = snapshot.cursor.visible;
          blink = snapshot.cursor.blink;
        };
        modes = snapshot.modes;
        title = snapshot.title;
      }

  unfoldable pub adopt : TerminalMirror L → TerminalState L → Taken L
  adopt m snapshot =
      let ended = not (snapshot.exited == 0) in
      if ltb max_grid_columns snapshot.columns || ltb max_grid_rows snapshot.rows
      then record { accepted = false; mirror = record m { needs_snapshot = true } }
      else record {
        accepted = true;
        mirror = record {
          state = adopt_state m.state snapshot;
          diagnostics =
              if length snapshot.diagnostic == 0
              then []
              else record { kind = snapshot.diagnostic_kind; text = snapshot.diagnostic } ∷ [];
          sequence = 0;
          gaps = m.gaps;
          clipboard_serial = max m.clipboard_serial snapshot.clipboard_serial;
          clipboard_text = [];
          printer_bytes = snapshot.printer_bytes;
          printer_jobs = length snapshot.print_jobs;
          printer_active = is_capturing snapshot.printer_state;
          printer_state = snapshot.printer_state;
          printer_mode = snapshot.printer_mode;
          printer_scope = snapshot.printer_scope;
          print_jobs = snapshot.print_jobs;
          needs_snapshot = false;
          exited = if ended then true else m.exited;
          hold = if ended then not (snapshot.hold == 0) else m.hold;
          custom_title = snapshot.custom_title;
          bell_marked = not (bit_and snapshot.flags flag_bell == 0);
          activity_marked = not (bit_and snapshot.flags flag_activity == 0);
          bell_serial = snapshot.bell_serial;
          activity_serial = snapshot.activity_serial;
          exit_status = if ended then some snapshot.exit_status else m.exit_status;
        };
      }

  -- `apply` of a GridDelta.
  unfoldable pub apply : TerminalMirror L → GridDelta L → Taken L
  apply m delta =
      let applied = apply_delta L k delta.ops m.state in
      if not (delta.seq == (m.sequence + 1) % 2 ^ 32)
      then record {
        accepted = false;
        mirror = record m { gaps = (m.gaps + 1) % 2 ^ 64; needs_snapshot = true };
      }
      else if not applied.accepted
      then record {
        accepted = false;
        mirror = record m { state = applied.mirror; needs_snapshot = true };
      }
      else record {
        accepted = true;
        mirror = record m { state = applied.mirror; sequence = delta.seq };
      }

  -- `open` of a terminal that starts.
  unfoldable pub open_terminal : TerminalMirror L → Size → TerminalMirror L
  open_terminal m cells = record m {
    state = blank_state L k cells m.state.max_scrollback_lines;
    sequence = 0;
    needs_snapshot = false;
    exited = false;
    hold = false;
    exit_status = none;
    bell_marked = false;
    activity_marked = false;
    printer_active = false;
    printer_bytes = 0;
    printer_jobs = 0;
    diagnostics = [];
  }

  unfoldable pub set_history_limit : TerminalMirror L → ℕ → TerminalMirror L
  set_history_limit m lines = record m {
    state = enforce_scrollback_capacity L k (record m.state { max_scrollback_lines = lines });
  }

  -- `apply` of the other messages.
  unfoldable pub apply_meta : TerminalMirror L → TermMeta → TerminalMirror L
  apply_meta m meta = record m {
    state = record m.state { title = meta.title };
    custom_title = meta.custom_title;
    bell_marked = not (bit_and meta.flags flag_bell == 0);
    activity_marked = not (bit_and meta.flags flag_activity == 0);
    bell_serial = meta.bell_serial;
    activity_serial = meta.activity_serial;
  }

  unfoldable pub apply_closed : TerminalMirror L → TermClosed → TerminalMirror L
  apply_closed m closed = record m {
    exited = not (closed.exited == 0);
    hold = not (closed.hold == 0);
    exit_status = if closed.exited == 0 then none else some closed.exit_status;
  }

  unfoldable pub apply_clipboard : TerminalMirror L → ClipboardSet → TerminalMirror L
  apply_clipboard m clipboard = record m {
    clipboard_text = clipboard.text;
    clipboard_serial = (m.clipboard_serial + 1) % 2 ^ 64;
  }

  unfoldable pub apply_printing : TerminalMirror L → PrintState → TerminalMirror L
  apply_printing m printing = record m {
    printer_active = is_capturing printing.state;
    printer_state = printing.state;
    printer_mode = printing.mode;
    printer_bytes = printing.bytes;
    printer_jobs = printing.jobs;
  }

  unfoldable pub apply_diagnostic : TerminalMirror L → TermDiagnostic → TerminalMirror L
  apply_diagnostic m said = record m {
    diagnostics = record { kind = said.kind; text = said.text } ∷ [];
  }

  -- The job that is announced again replaces itself.
  unfoldable pub restated : List PrintJobInfo → PrintJobInfo → List PrintJobInfo
  restated [] job = job ∷ []
  restated (held ∷ jobs) job =
      let rest = restated jobs job in if held.job == job.job then job ∷ jobs else held ∷ rest

  unfoldable pub add_print_job : TerminalMirror L → PrintJobAdded → TerminalMirror L
  add_print_job m added =
      let jobs = restated m.print_jobs added.job in
      record m { print_jobs = jobs; printer_jobs = length jobs }
