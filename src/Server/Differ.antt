-- ===== src/Server/Differ.antt =====
-- What the server believes that a terminal's watchers hold, and the change it sends in a tick:
-- `TerminalDiffer::flush` of src/server/diff_engine.cpp. The terminal is ckVision's; what a tick
-- reads of it is a record.
pub mod Lines
pub mod Follows
pub mod Ticks
use Prim.Native.Nat.{min, max}
use ckmux.Prelude.{
  ℕ, ◌+◌, ◌-◌, ◌*◌, ◌/◌, ◌%◌, ◌^◌, Bool, true, false, ◌&&◌, not, Option, none, some, List, [], ◌∷◌,
  length, take, drop, ltb, ◌==◌, if◌then◌else◌,
}
use ckmux.Prelude.Int.{ℤ}
use ckmux.Proto.CellLib.{CellLib}
use ckmux.Proto.Grid.{GridOp}
use ckmux.Proto.Deltas.{GridDelta}
use ckmux.Proto.Runs.{CellTests}
use ckmux.Delta.State.{Size, extent, same_size, StyleLib, GridState, rows_of}
use ckmux.Delta.Diff.{GridView, RowDamage, diff, full_repaint}
use ckmux.Delta.Apply.{Applied, apply_delta}

abbrev pub max_history_lines_per_delta : ℕ
max_history_lines_per_delta = 256

-- What a tick reads: the view, the damage, and the history.
pub record Reading (L : CellLib) : Type 0 where
  pub view : GridView L
  pub any : Bool
  pub full : Bool
  pub rows : List RowDamage
  pub scrollback_pushed : ℕ
  pub scrollback : List L.Cell

-- The members, without their last underscore.
pub record TerminalDiffer (L : CellLib) : Type 0 where
  pub believed : GridState L
  pub sequence : ℕ
  pub needs_snapshot : Bool
  pub history_diverged : Bool

-- What `flush` returns, and the differ after it.
pub record Flushed (L : CellLib) : Type 0 where
  pub delta : Option (GridDelta L)
  pub differ : TerminalDiffer L

unfoldable pub row_hints : List RowDamage → ℤ → List RowDamage
row_hints rows height = take (extent height) rows

module _ (L : CellLib) where
  unfoldable pub state_of : GridView L → GridState L
  state_of view = record {
    cells = view.cells;
    grid = view.grid;
    scrollback = [];
    scrollback_start = 0;
    max_scrollback_lines = 0;
    cursor = view.cursor;
    modes = view.modes;
    title = view.title;
  }

  unfoldable pub newest_history_lines : List L.Cell → ℤ → ℕ → List (List L.Cell)
  newest_history_lines history columns count =
      let width = max 1 (extent columns) in
      let available = length history / width in
      let taken = min count available in
      if count == 0 then [] else rows_of taken width (drop ((available - taken) * width) history)

module _ (L : CellLib) (k : StyleLib L) (t : CellTests L) where
  abbrev pub hints_of : Reading L → List RowDamage
  hints_of r = if r.full then [] else row_hints r.rows r.view.cells.height

  -- The operations of a tick, and the belief after them.
  unfoldable pub changes : GridState L → Reading L → List (List L.Cell) → List (GridOp L)
  changes believed r pushed =
      let ops = diff L k t believed r.view pushed (hints_of r) in
      if not (same_size believed.cells r.view.cells)
      then full_repaint L k t r.view pushed
      else if not (apply_delta L k ops believed).accepted
      then full_repaint L k t r.view pushed
      else ops

  unfoldable pub belief : GridState L → Reading L → List (List L.Cell) → GridState L
  belief believed r pushed =
      let applied = apply_delta L k (diff L k t believed r.view pushed (hints_of r)) believed in
      if not (same_size believed.cells r.view.cells)
      then state_of L r.view
      else if not applied.accepted
      then state_of L r.view
      else applied.mirror

  -- A delta with nothing in it is not sent, and has no number.
  unfoldable pub send : TerminalDiffer L → ℕ → List (GridOp L) → Flushed L
  send d id [] = record { delta = none; differ = d }
  send d id (op ∷ ops) =
      let sequence = (d.sequence + 1) % 2 ^ 32 in
      record {
        delta = some (record { term = id; seq = sequence; ops = op ∷ ops });
        differ = record d { sequence = sequence };
      }

  unfoldable pub flush : TerminalDiffer L → ℕ → Reading L → Flushed L
  flush d id r =
      let flooded = ltb max_history_lines_per_delta r.scrollback_pushed in
      let noted : TerminalDiffer L = record d {
        history_diverged = if flooded then true else d.history_diverged;
      } in
      let pushed =
        if flooded
        then []
        else newest_history_lines L r.scrollback r.view.cells.width r.scrollback_pushed in
      if not r.any
      then record { delta = none; differ = d }
      else if not flooded && d.history_diverged
      then record { delta = none; differ = record d { needs_snapshot = true } }
      else send (record noted { believed = belief d.believed r pushed }) id
          (changes d.believed r pushed)
