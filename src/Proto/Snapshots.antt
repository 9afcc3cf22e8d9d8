-- ===== src/Proto/Snapshots.antt =====
-- The snapshot that an attach answers with (src/common/proto.hpp), as src/common/proto.cpp writes
-- and reads it.
pub mod RoundTrip
use ckmux.Prelude.{ℕ, ◌+◌, List}
use ckmux.Proto.Wire.{Put, ◌▸◌, Get, ◌>>=◌, pure}
use ckmux.Proto.Writer
use ckmux.Proto.Reader
use ckmux.Proto.CellLib.{CellLib}
use ckmux.Proto.Codes.Entries.{total}
use ckmux.Proto.State.{state_size, TerminalState, write_terminal_states, read_terminal_states}

pub record Snapshot (L : CellLib) : Type 0 where
  pub desktop_columns : ℕ
  pub desktop_rows : ℕ
  pub focused_term : ℕ
  pub terminals : List (TerminalState L)

unfoldable pub write_snapshot : (L : CellLib) → Snapshot L → Put
write_snapshot L m =
    Writer.u16 m.desktop_columns
    ▸ Writer.u16 m.desktop_rows
    ▸ Writer.u64 m.focused_term
    ▸ write_terminal_states L m.terminals

unfoldable pub read_snapshot : (L : CellLib) → Get (Snapshot L)
read_snapshot L = do
  desktop_columns ← Reader.u16
  desktop_rows ← Reader.u16
  focused_term ← Reader.u64
  terminals ← read_terminal_states L
  pure (record {
    desktop_columns = desktop_columns;
    desktop_rows = desktop_rows;
    focused_term = focused_term;
    terminals = terminals;
  })

-- encoded_size(const Snapshot&)
unfoldable pub snapshot_size : (L : CellLib) → Snapshot L → ℕ
snapshot_size L snapshot = 16 + total (state_size L) snapshot.terminals
