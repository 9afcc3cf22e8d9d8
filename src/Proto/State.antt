-- ===== src/Proto/State.antt =====
-- The state of a terminal as a snapshot carries it (src/common/proto.hpp), as
-- src/common/proto.cpp writes and reads it, and the size that it predicts for it.
pub mod RoundTrip
use ckmux.Prelude.{ℕ, ◌+◌, ◌*◌, List, length}
use ckmux.Prelude.Int.{ℤ}
use ckmux.Proto.Wire.{Put, ◌▸◌, Get, ◌>>=◌, pure}
use ckmux.Proto.Writer
use ckmux.Proto.Reader
use ckmux.Proto.CellLib.{CellLib}
use ckmux.Proto.Enums.{
  DiagnosticKind, diagnostic_kind_code, diagnostic_kind_of, PrinterScope, printer_scope_code,
  printer_scope_of, PrinterMode, printer_mode_code, printer_mode_of, PrinterState,
  printer_state_code, printer_state_of,
}
use ckmux.Proto.Cells.{CellRun, write_runs, read_runs, write_lines, read_lines}
use ckmux.Proto.Cells.Size.{runs_size, lines_size}
use ckmux.Proto.Shapes.{
  Rect, write_rect, read_rect, TileFraction, write_tile_fraction, read_tile_fraction, CursorOp,
  write_cursor_op, read_cursor_op, PrintJobInfo, write_print_jobs, read_print_jobs, write_ids,
  read_ids,
}

pub record TerminalState (L : CellLib) : Type 0 where
  pub term : ℕ
  pub index : ℕ
  pub title : List ℕ
  pub custom_title : List ℕ
  pub flags : ℕ
  pub columns : ℕ
  pub rows : ℕ
  pub rect : Rect
  pub z_order : ℕ
  pub zoomed : ℕ
  pub tile : TileFraction
  pub cursor : CursorOp
  pub modes : ℕ
  pub grid : List (CellRun L)
  pub scrollback : List (List (CellRun L))
  pub images : List ℕ
  pub printer_mode : PrinterMode
  pub printer_scope : PrinterScope
  pub printer_state : PrinterState
  pub printer_bytes : ℕ
  pub print_jobs : List PrintJobInfo
  pub clipboard_serial : ℕ
  pub exited : ℕ
  pub exit_status : ℤ
  pub hold : ℕ
  pub diagnostic_kind : DiagnosticKind
  pub diagnostic : List ℕ
  pub bell_serial : ℕ
  pub activity_serial : ℕ

unfoldable pub write_terminal_state : (L : CellLib) → TerminalState L → Put
write_terminal_state L m =
    Writer.u64 m.term
    ▸ Writer.u16 m.index
    ▸ Writer.str m.title
    ▸ Writer.str m.custom_title
    ▸ Writer.u8 m.flags
    ▸ Writer.u16 m.columns
    ▸ Writer.u16 m.rows
    ▸ write_rect m.rect
    ▸ Writer.u16 m.z_order
    ▸ Writer.u8 m.zoomed
    ▸ write_tile_fraction m.tile
    ▸ write_cursor_op m.cursor
    ▸ Writer.u32 m.modes
    ▸ write_runs L m.grid
    ▸ write_lines L m.scrollback
    ▸ write_ids m.images
    ▸ Writer.u8 (printer_mode_code m.printer_mode)
    ▸ Writer.u8 (printer_scope_code m.printer_scope)
    ▸ Writer.u8 (printer_state_code m.printer_state)
    ▸ Writer.u32 m.printer_bytes
    ▸ write_print_jobs m.print_jobs
    ▸ Writer.u64 m.clipboard_serial
    ▸ Writer.u8 m.exited
    ▸ Writer.i32 m.exit_status
    ▸ Writer.u8 m.hold
    ▸ Writer.u8 (diagnostic_kind_code m.diagnostic_kind)
    ▸ Writer.str m.diagnostic
    ▸ Writer.u32 m.bell_serial
    ▸ Writer.u32 m.activity_serial

unfoldable pub read_terminal_state : (L : CellLib) → Get (TerminalState L)
read_terminal_state L = do
  term ← Reader.u64
  index ← Reader.u16
  title ← Reader.str
  custom_title ← Reader.str
  flags ← Reader.u8
  columns ← Reader.u16
  rows ← Reader.u16
  rect ← read_rect
  z_order ← Reader.u16
  zoomed ← Reader.u8
  tile ← read_tile_fraction
  cursor ← read_cursor_op
  modes ← Reader.u32
  grid ← read_runs L
  scrollback ← read_lines L
  images ← read_ids
  printer_mode ← Reader.enum_u8 printer_mode_of 2
  printer_scope ← Reader.enum_u8 printer_scope_of 2
  printer_state ← Reader.enum_u8 printer_state_of 3
  printer_bytes ← Reader.u32
  print_jobs ← read_print_jobs
  clipboard_serial ← Reader.u64
  exited ← Reader.u8
  exit_status ← Reader.i32
  hold ← Reader.u8
  diagnostic_kind ← Reader.enum_u8 diagnostic_kind_of 3
  diagnostic ← Reader.str
  bell_serial ← Reader.u32
  activity_serial ← Reader.u32
  pure (record {
    term = term;
    index = index;
    title = title;
    custom_title = custom_title;
    flags = flags;
    columns = columns;
    rows = rows;
    rect = rect;
    z_order = z_order;
    zoomed = zoomed;
    tile = tile;
    cursor = cursor;
    modes = modes;
    grid = grid;
    scrollback = scrollback;
    images = images;
    printer_mode = printer_mode;
    printer_scope = printer_scope;
    printer_state = printer_state;
    printer_bytes = printer_bytes;
    print_jobs = print_jobs;
    clipboard_serial = clipboard_serial;
    exited = exited;
    exit_status = exit_status;
    hold = hold;
    diagnostic_kind = diagnostic_kind;
    diagnostic = diagnostic;
    bell_serial = bell_serial;
    activity_serial = activity_serial;
  })

-- encoded_size(const TerminalState&)
unfoldable pub state_size : (L : CellLib) → TerminalState L → ℕ
state_size L state =
    89
    + length state.title
    + length state.custom_title
    + length state.diagnostic
    + runs_size L state.grid
    + lines_size L state.scrollback
    + 8 * length state.images
    + 25 * length state.print_jobs

unfoldable pub write_terminal_states : (L : CellLib) → List (TerminalState L) → Put
write_terminal_states L = Writer.counted (write_terminal_state L)

-- 97 bytes is a state whose strings, grid, history, images, jobs and diagnostic are empty.
unfoldable pub read_terminal_states : (L : CellLib) → Get (List (TerminalState L))
read_terminal_states L = do entries ← Reader.count 97; Reader.repeat entries (read_terminal_state L)
