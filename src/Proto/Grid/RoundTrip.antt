-- ===== src/Proto/Grid/RoundTrip.antt =====
-- A grid's changes are read as the wire carries them.
use ckmux.Prelude.{ℕ, ◌+◌, ◌^◌, ◌≤◌, ◌<◌, List, length, arith, All, All-map, All-all}
use mathlib.Core.List.{map}
use ckmux.Proto.CellLib.{CellLib}
use ckmux.Proto.Carried.{carried_op}
use ckmux.Proto.Codes.{Codes, Codes-seq, Codes-last}
use ckmux.Proto.Codes.Entries.{Codes-each_as, Codes-count, total}
use ckmux.Proto.Enums.{GridOpTag}
use ckmux.Proto.Enums.RoundTrip.{Codes-grid_op_tag}
use ckmux.Proto.Cells.Size.{runs_size, lines_size}
use ckmux.Proto.Shapes.RoundTrip.{FitsCursorOp, Codes-cursor_op}
use ckmux.Proto.GridOps.RoundTrip.{
  FitsScrollOp, Codes-scroll_op, FitsCellsOp, Codes-cells_op, FitsModesOp, Codes-modes_op,
  FitsTitleOp, Codes-title_op, FitsScrollbackPushOp, Codes-scrollback_push_op, FitsResizeOp,
  Codes-resize_op,
}
use ckmux.Proto.Grid.{
  write_grid_ops, read_grid_ops, GridOp, write_grid_op, grid_op_of, read_grid_op,
}

abbrev pub FitsGridOp : (L : CellLib) → GridOp L → Type 0
FitsGridOp L (GridOp.scroll op) = FitsScrollOp op
FitsGridOp L (GridOp.cells op) = FitsCellsOp L op
FitsGridOp L (GridOp.cursor op) = FitsCursorOp op
FitsGridOp L (GridOp.modes op) = FitsModesOp op
FitsGridOp L (GridOp.title op) = FitsTitleOp op
FitsGridOp L (GridOp.scrollback_push op) = FitsScrollbackPushOp L op
FitsGridOp L (GridOp.resize op) = FitsResizeOp op

-- The bytes of an operation, its tag included.
abbrev pub grid_op_size : (L : CellLib) → GridOp L → ℕ
grid_op_size L (GridOp.scroll op) = 1 + (2 + (2 + 2))
grid_op_size L (GridOp.cells op) = 1 + (2 + (2 + runs_size L op.runs))
grid_op_size L (GridOp.cursor op) = 1 + (2 + (2 + (1 + (1 + 1))))
grid_op_size L (GridOp.modes op) = 1 + (4 + 4)
grid_op_size L (GridOp.title op) = 1 + ((2 + length op.title))
grid_op_size L (GridOp.scrollback_push op) = 1 + (lines_size L op.lines)
grid_op_size L (GridOp.resize op) = 1 + (2 + 2)

pub Codes-grid_op :
    (L : CellLib) (op : GridOp L)
    → FitsGridOp L op
    → Codes (write_grid_op L op) (read_grid_op L) (carried_op L op) (grid_op_size L op)
unfolding write_grid_op read_grid_op grid_op_of
Codes-grid_op L (GridOp.scroll op) h =
    Codes-seq _ (Codes-grid_op_tag GridOpTag.scroll) (Codes-last _ (Codes-scroll_op op h))
Codes-grid_op L (GridOp.cells op) h =
    Codes-seq _ (Codes-grid_op_tag GridOpTag.cells) (Codes-last _ (Codes-cells_op L op h))
Codes-grid_op L (GridOp.cursor op) h =
    Codes-seq _ (Codes-grid_op_tag GridOpTag.cursor) (Codes-last _ (Codes-cursor_op op h))
Codes-grid_op L (GridOp.modes op) h =
    Codes-seq _ (Codes-grid_op_tag GridOpTag.modes) (Codes-last _ (Codes-modes_op op h))
Codes-grid_op L (GridOp.title op) h =
    Codes-seq _ (Codes-grid_op_tag GridOpTag.title) (Codes-last _ (Codes-title_op op h))
Codes-grid_op L (GridOp.scrollback_push op) h =
    Codes-seq _ (Codes-grid_op_tag GridOpTag.scrollback_push)
      (Codes-last _ (Codes-scrollback_push_op L op h))
Codes-grid_op L (GridOp.resize op) h =
    Codes-seq _ (Codes-grid_op_tag GridOpTag.resize) (Codes-last _ (Codes-resize_op op h))

pub grid_op_size-ge : (L : CellLib) (op : GridOp L) → 3 ≤ grid_op_size L op
unfolding lines_size
grid_op_size-ge L (GridOp.scroll op) = omega arith
grid_op_size-ge L (GridOp.cells op) = omega arith
grid_op_size-ge L (GridOp.cursor op) = omega arith
grid_op_size-ge L (GridOp.modes op) = omega arith
grid_op_size-ge L (GridOp.title op) = omega arith
grid_op_size-ge L (GridOp.scrollback_push op) = omega arith
grid_op_size-ge L (GridOp.resize op) = omega arith

pub record FitsGridOps (L : CellLib) (xs : List (GridOp L)) : Type 0 where
  pub count : length xs < 2 ^ 32
  pub each : All (FitsGridOp L) xs

pub Codes-grid_ops :
    (L : CellLib) (xs : List (GridOp L))
    → FitsGridOps L xs
    → Codes
        (write_grid_ops L xs)
        (read_grid_ops L)
        (map (carried_op L) xs)
        (4 + total (grid_op_size L) xs)
unfolding write_grid_ops read_grid_ops
Codes-grid_ops L xs h =
    Codes-count _ _ _ 3 xs h.count (omega arith) (All-all (grid_op_size-ge L) xs)
      (Codes-each_as _ _ _ _ xs (All-map (Codes-grid_op L) xs h.each))
