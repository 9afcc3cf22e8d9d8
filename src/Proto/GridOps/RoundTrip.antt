-- ===== src/Proto/GridOps/RoundTrip.antt =====
-- The operations on a grid are read as the wire carries them.
use ckmux.Prelude.{◌+◌, ◌^◌, ◌<◌, length}
use ckmux.Prelude.Int.{magnitude}
use ckmux.Proto.CellLib.{CellLib}
use ckmux.Proto.Carried.{carried_runs, carried_lines}
use ckmux.Proto.Codes.{Codes, Codes-seq, Codes-last}
use ckmux.Proto.Codes.Numbers.{Codes-u16, Codes-u32, Codes-i16, Codes-str}
use ckmux.Proto.Cells.RoundTrip.{Codes-runs, Codes-lines}
use ckmux.Proto.Cells.Fits.{FitsRuns, FitsLines}
use ckmux.Proto.Cells.Size.{runs_size, lines_size}
use ckmux.Proto.GridOps.{
  ScrollOp, write_scroll_op, read_scroll_op, CellsOp, write_cells_op, read_cells_op, ModesOp,
  write_modes_op, read_modes_op, TitleOp, write_title_op, read_title_op, ScrollbackPushOp,
  write_scrollback_push_op, read_scrollback_push_op, ResizeOp, write_resize_op, read_resize_op,
}

pub record FitsScrollOp (m : ScrollOp) : Type 0 where
  pub top : m.top < 2 ^ 16
  pub bottom : m.bottom < 2 ^ 16
  pub lines : magnitude m.lines < 2 ^ 15

pub Codes-scroll_op :
    (m : ScrollOp) → FitsScrollOp m → Codes (write_scroll_op m) read_scroll_op m (2 + (2 + (2)))
unfolding write_scroll_op read_scroll_op
Codes-scroll_op m h =
    (Codes-seq _ (Codes-u16 m.top h.top)
      (Codes-seq _ (Codes-u16 m.bottom h.bottom) (Codes-last _ (Codes-i16 m.lines h.lines))))

pub record FitsCellsOp (L : CellLib) (m : CellsOp L) : Type 0 where
  pub row : m.row < 2 ^ 16
  pub column : m.column < 2 ^ 16
  pub runs : FitsRuns L m.runs

pub Codes-cells_op :
    (L : CellLib) (m : CellsOp L)
    → FitsCellsOp L m
    → Codes
        (write_cells_op L m)
        (read_cells_op L)
        (record m { runs = carried_runs L m.runs })
        (2 + (2 + (runs_size L m.runs)))
unfolding write_cells_op read_cells_op
Codes-cells_op L m h =
    (Codes-seq _ (Codes-u16 m.row h.row)
      (Codes-seq _ (Codes-u16 m.column h.column) (Codes-last _ (Codes-runs L m.runs h.runs))))

pub record FitsModesOp (m : ModesOp) : Type 0 where
  pub changed_mask : m.changed_mask < 2 ^ 32
  pub values : m.values < 2 ^ 32

pub Codes-modes_op :
    (m : ModesOp) → FitsModesOp m → Codes (write_modes_op m) read_modes_op m (4 + (4))
unfolding write_modes_op read_modes_op
Codes-modes_op m h =
    (Codes-seq _ (Codes-u32 m.changed_mask h.changed_mask)
      (Codes-last _ (Codes-u32 m.values h.values)))

pub record FitsTitleOp (m : TitleOp) : Type 0 where
  pub title : length m.title < 2 ^ 16

pub Codes-title_op :
    (m : TitleOp) → FitsTitleOp m → Codes (write_title_op m) read_title_op m ((2 + length m.title))
unfolding write_title_op read_title_op
Codes-title_op m h = (Codes-last _ (Codes-str m.title h.title))

pub record FitsScrollbackPushOp (L : CellLib) (m : ScrollbackPushOp L) : Type 0 where
  pub lines : FitsLines L m.lines

pub Codes-scrollback_push_op :
    (L : CellLib) (m : ScrollbackPushOp L)
    → FitsScrollbackPushOp L m
    → Codes
        (write_scrollback_push_op L m)
        (read_scrollback_push_op L)
        (record m { lines = carried_lines L m.lines })
        (lines_size L m.lines)
unfolding write_scrollback_push_op read_scrollback_push_op
Codes-scrollback_push_op L m h = (Codes-last _ (Codes-lines L m.lines h.lines))

pub record FitsResizeOp (m : ResizeOp) : Type 0 where
  pub columns : m.columns < 2 ^ 16
  pub rows : m.rows < 2 ^ 16

pub Codes-resize_op :
    (m : ResizeOp) → FitsResizeOp m → Codes (write_resize_op m) read_resize_op m (2 + (2))
unfolding write_resize_op read_resize_op
Codes-resize_op m h =
    (Codes-seq _ (Codes-u16 m.columns h.columns) (Codes-last _ (Codes-u16 m.rows h.rows)))
