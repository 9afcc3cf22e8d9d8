-- ===== src/Proto/State/RoundTrip.antt =====
-- A terminal's state is read as the wire carries it, and takes the bytes that were predicted.
use ckmux.Prelude.{◌+◌, ◌^◌, ◌<◌, List, length, arith, All, All-map, All-all}
use mathlib.Core.List.{map}
use ckmux.Prelude.Int.{magnitude}
use ckmux.Proto.CellLib.{CellLib}
use ckmux.Proto.Carried.{carried_state}
use ckmux.Proto.Codes.{Codes, Codes-seq, Codes-last, Codes-resize}
use ckmux.Proto.Codes.Numbers.{Codes-u8, Codes-u16, Codes-u32, Codes-u64, Codes-i32, Codes-str}
use ckmux.Proto.Codes.Entries.{Codes-each_as, Codes-count, total}
use ckmux.Proto.Enums.RoundTrip.{
  Codes-diagnostic_kind, Codes-printer_scope, Codes-printer_mode, Codes-printer_state,
}
use ckmux.Proto.Cells.RoundTrip.{Codes-runs, Codes-lines}
use ckmux.Proto.Cells.Fits.{FitsRuns, FitsLines}
use ckmux.Proto.Cells.Size.{runs_size, lines_size}
use ckmux.Proto.Shapes.RoundTrip.{
  FitsRect, Codes-rect, FitsTileFraction, Codes-tile_fraction, FitsCursorOp, Codes-cursor_op,
  FitsPrintJobs, Codes-print_jobs, FitsIds, Codes-ids,
}
use ckmux.Proto.State.{TerminalState, write_terminal_state, read_terminal_state, state_size}
use ckmux.Proto.State.{write_terminal_states, read_terminal_states}

pub record FitsTerminalState (L : CellLib) (m : TerminalState L) : Type 0 where
  pub term : m.term < 2 ^ 64
  pub index : m.index < 2 ^ 16
  pub title : length m.title < 2 ^ 16
  pub custom_title : length m.custom_title < 2 ^ 16
  pub flags : m.flags < 256
  pub columns : m.columns < 2 ^ 16
  pub rows : m.rows < 2 ^ 16
  pub rect : FitsRect m.rect
  pub z_order : m.z_order < 2 ^ 16
  pub zoomed : m.zoomed < 256
  pub tile : FitsTileFraction m.tile
  pub cursor : FitsCursorOp m.cursor
  pub modes : m.modes < 2 ^ 32
  pub grid : FitsRuns L m.grid
  pub scrollback : FitsLines L m.scrollback
  pub images : FitsIds m.images
  pub printer_bytes : m.printer_bytes < 2 ^ 32
  pub print_jobs : FitsPrintJobs m.print_jobs
  pub clipboard_serial : m.clipboard_serial < 2 ^ 64
  pub exited : m.exited < 256
  pub exit_status : magnitude m.exit_status < 2 ^ 31
  pub hold : m.hold < 256
  pub diagnostic : length m.diagnostic < 2 ^ 16
  pub bell_serial : m.bell_serial < 2 ^ 32
  pub activity_serial : m.activity_serial < 2 ^ 32

pub Codes-terminal_state :
    (L : CellLib) (m : TerminalState L)
    → FitsTerminalState L m
    → Codes (write_terminal_state L m) (read_terminal_state L) (carried_state L m) (state_size L m)
unfolding write_terminal_state read_terminal_state state_size
Codes-terminal_state L m h =
    Codes-resize _
      (Codes-seq _ (Codes-u64 m.term h.term) (
        Codes-seq _ (Codes-u16 m.index h.index) (
          Codes-seq _ (Codes-str m.title h.title) (
            Codes-seq _ (Codes-str m.custom_title h.custom_title) (
              Codes-seq _ (Codes-u8 m.flags h.flags) (
                Codes-seq _ (Codes-u16 m.columns h.columns) (
                  Codes-seq _ (Codes-u16 m.rows h.rows) (
                    Codes-seq _ (Codes-rect m.rect h.rect) (
                      Codes-seq _ (Codes-u16 m.z_order h.z_order) (
                        Codes-seq _ (Codes-u8 m.zoomed h.zoomed) (
                          Codes-seq _ (Codes-tile_fraction m.tile h.tile) (
                            Codes-seq _ (Codes-cursor_op m.cursor h.cursor) (
                              Codes-seq _ (Codes-u32 m.modes h.modes) (
                                Codes-seq _ (Codes-runs L m.grid h.grid) (
                                  Codes-seq _ (Codes-lines L m.scrollback h.scrollback) (
                                    Codes-seq _ (Codes-ids m.images h.images) (
                                      Codes-seq _ (Codes-printer_mode m.printer_mode) (
                                        Codes-seq _ (Codes-printer_scope m.printer_scope) (
                                          Codes-seq _ (Codes-printer_state m.printer_state) (
                                            Codes-seq _ (Codes-u32 m.printer_bytes h.printer_bytes)
                                              (Codes-seq _
                                                (Codes-print_jobs m.print_jobs h.print_jobs)
                                                (Codes-seq _
                                                  (Codes-u64 m.clipboard_serial h.clipboard_serial)
                                                  (Codes-seq _ (Codes-u8 m.exited h.exited) (
                                                    Codes-seq _
                                                      (Codes-i32 m.exit_status h.exit_status)
                                                      (Codes-seq _ (Codes-u8 m.hold h.hold) (
                                                        Codes-seq _
                                                          (Codes-diagnostic_kind m.diagnostic_kind)
                                                          (Codes-seq _
                                                            (Codes-str m.diagnostic h.diagnostic)
                                                            (Codes-seq _
                                                            (Codes-u32 m.bell_serial h.bell_serial)
                                                            (Codes-last _ (
                                                            Codes-u32 m.activity_serial
                                                            h.activity_serial))))))))))))))))))))))))))))))
      (omega (arith))

pub record FitsTerminalStates (L : CellLib) (xs : List (TerminalState L)) : Type 0 where
  pub count : length xs < 2 ^ 32
  pub each : All (FitsTerminalState L) xs

pub Codes-terminal_states :
    (L : CellLib) (xs : List (TerminalState L))
    → FitsTerminalStates L xs
    → Codes
        (write_terminal_states L xs)
        (read_terminal_states L)
        (map (carried_state L) xs)
        (4 + total (state_size L) xs)
unfolding write_terminal_states read_terminal_states state_size runs_size lines_size
Codes-terminal_states L xs h =
    Codes-count _ _ _ 97 xs h.count (omega arith) (All-all (λ x. omega arith) xs)
      (Codes-each_as _ _ _ _ xs (All-map (Codes-terminal_state L) xs h.each))
