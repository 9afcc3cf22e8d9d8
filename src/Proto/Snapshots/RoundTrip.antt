-- ===== src/Proto/Snapshots/RoundTrip.antt =====
-- A snapshot is read as the wire carries it, and takes the bytes that were predicted.
use ckmux.Prelude.{◌^◌, ◌<◌, arith}
use ckmux.Proto.CellLib.{CellLib}
use ckmux.Proto.Carried.{carried_snapshot}
use ckmux.Proto.Codes.{Codes, Codes-seq, Codes-last, Codes-resize}
use ckmux.Proto.Codes.Numbers.{Codes-u16, Codes-u64}
use ckmux.Proto.State.RoundTrip.{FitsTerminalStates, Codes-terminal_states}
use ckmux.Proto.Snapshots.{Snapshot, write_snapshot, read_snapshot, snapshot_size}

pub record FitsSnapshot (L : CellLib) (m : Snapshot L) : Type 0 where
  pub desktop_columns : m.desktop_columns < 2 ^ 16
  pub desktop_rows : m.desktop_rows < 2 ^ 16
  pub focused_term : m.focused_term < 2 ^ 64
  pub terminals : FitsTerminalStates L m.terminals

pub Codes-snapshot :
    (L : CellLib) (m : Snapshot L)
    → FitsSnapshot L m
    → Codes (write_snapshot L m) (read_snapshot L) (carried_snapshot L m) (snapshot_size L m)
unfolding write_snapshot read_snapshot snapshot_size
Codes-snapshot L m h =
    Codes-resize _
      (Codes-seq _ (Codes-u16 m.desktop_columns h.desktop_columns) (
        Codes-seq _ (Codes-u16 m.desktop_rows h.desktop_rows) (
          Codes-seq _ (Codes-u64 m.focused_term h.focused_term)
            (Codes-last _ (Codes-terminal_states L m.terminals h.terminals)))))
      (omega (arith))
