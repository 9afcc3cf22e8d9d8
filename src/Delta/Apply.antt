-- ===== src/Delta/Apply.antt =====
-- `apply_delta` of src/common/grid_delta.cpp: operations are checked in full against the size as it
-- will be when each is reached, and then performed. Widths are not negative.
pub mod Delivers
pub mod Repainted
pub mod Mirror
pub mod Valid
use Prim.Native.Nat.{bit_and, bit_or}
use ckmux.Prelude.{
  ℕ, zero, suc, ◌+◌, ◌-◌, ◌*◌, ◌^◌, Bool, true, false, ◌&&◌, ◌||◌, not, Option, none, some, List,
  [], ◌∷◌, length, leb, ltb, ◌==◌, if◌then◌else◌,
}
use ckmux.Prelude.Int.{ℤ, pos, negsuc}
use ckmux.Proto.CellLib.{CellLib}
use ckmux.Proto.Cells.{CellRun}
use ckmux.Proto.Limits.{max_grid_columns, max_grid_rows}
use ckmux.Proto.Shapes.{CursorOp}
use ckmux.Proto.GridOps.{ScrollOp, CellsOp, ModesOp, TitleOp, ScrollbackPushOp, ResizeOp}
use ckmux.Proto.Grid.{GridOp}
use ckmux.Proto.Runs.{total_cells, from_runs}
use ckmux.Delta.State.{
  Size, extent, area, GridCursor, StyleLib, GridState, resize_state, push_scrollback_line,
}
use ckmux.Delta.Rows.{abs, copy_to, shift_rows}

-- What `apply_delta` returns, and the mirror after it.
pub record Applied (L : CellLib) : Type 0 where
  pub accepted : Bool
  pub mirror : GridState L

-- n > z
abbrev pub exceeds : ℕ → ℤ → Bool
exceeds n (pos m) = ltb m n
exceeds n (negsuc m) = true

-- n >= z
abbrev pub reaches : ℕ → ℤ → Bool
reaches n (pos m) = leb m n
reaches n (negsuc m) = true

module _ (L : CellLib) where
  -- Every line has a cell, and no more than the width.
  unfoldable pub check_lines : ℕ → List (List (CellRun L)) → Bool
  check_lines width [] = true
  check_lines width (line ∷ lines) =
      not (total_cells L line == 0)
      && not (ltb width (total_cells L line))
      && check_lines width lines

  -- The size after an operation that is in order.
  unfoldable pub check_op : Size → GridOp L → Option Size
  check_op size (GridOp.resize op) =
      if op.columns == 0
        || op.rows == 0
        || ltb max_grid_columns op.columns
        || ltb max_grid_rows op.rows
      then none
      else some (record { width = pos op.columns; height = pos op.rows })
  check_op size (GridOp.scroll op) =
      if ltb op.bottom op.top
        || exceeds op.bottom size.height
        || ltb (op.bottom - op.top) (abs op.lines)
      then none
      else some size
  check_op size (GridOp.cells op) =
      if reaches op.row size.height
        || exceeds op.column size.width
        || ltb (extent size.width - op.column) (total_cells L op.runs)
      then none
      else some size
  check_op size (GridOp.cursor op) =
      if reaches op.row size.height || exceeds op.column size.width then none else some size
  check_op size (GridOp.scrollback_push op) =
      if check_lines (extent size.width) op.lines then some size else none
  check_op size (GridOp.modes op) = some size
  check_op size (GridOp.title op) = some size

  unfoldable pub check_ops : Size → List (GridOp L) → Option Size
  check_ops size [] = some size
  check_ops size (op ∷ ops) = elim (check_op size op) [
    | none ↦ none
    | some after ↦ check_ops after ops
  ]

  abbrev pub accepted : Option Size → Bool
  accepted none = false
  accepted (some size) = true

module _ (L : CellLib) (k : StyleLib L) where
  unfoldable pub push_runs : GridState L → List (List (CellRun L)) → GridState L
  push_runs s [] = s
  push_runs s (line ∷ lines) = push_runs (push_scrollback_line L k s (from_runs L line)) lines

  -- `(modes & ~changed_mask) | (values & changed_mask)`, in 32 bits.
  unfoldable pub merge_modes : ℕ → ModesOp → ℕ
  merge_modes modes op =
      bit_or (bit_and modes (2 ^ 32 - 1 - op.changed_mask)) (bit_and op.values op.changed_mask)

  unfoldable pub perform_op : GridState L → GridOp L → GridState L
  perform_op s (GridOp.resize op) =
      resize_state L k s (record { width = pos op.columns; height = pos op.rows })
  perform_op s (GridOp.scrollback_push op) =
      if s.max_scrollback_lines == 0 then s else push_runs s op.lines
  perform_op s (GridOp.scroll op) = record s {
    grid = shift_rows L k (extent s.cells.width) op.top op.bottom op.lines s.grid;
  }
  perform_op s (GridOp.cells op) = record s {
    grid = copy_to (op.row * extent s.cells.width + op.column) (from_runs L op.runs) s.grid;
  }
  perform_op s (GridOp.cursor op) = record s {
    cursor = record {
      column = op.column;
      row = op.row;
      style = op.style;
      visible = op.visible;
      blink = op.blink;
    };
  }
  perform_op s (GridOp.modes op) = record s { modes = merge_modes s.modes op }
  perform_op s (GridOp.title op) = record s { title = op.title }

  unfoldable pub perform_ops : GridState L → List (GridOp L) → GridState L
  perform_ops s [] = s
  perform_ops s (op ∷ ops) = perform_ops (perform_op s op) ops

  unfoldable pub apply_delta : List (GridOp L) → GridState L → Applied L
  apply_delta ops s =
      if length s.grid == area s.cells && accepted L (check_ops L s.cells ops)
      then record { accepted = true; mirror = perform_ops s ops }
      else record { accepted = false; mirror = s }
