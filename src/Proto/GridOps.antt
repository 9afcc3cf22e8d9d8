-- ===== src/Proto/GridOps.antt =====
-- The operations on a grid (src/common/proto.hpp), as src/common/proto.cpp writes and reads them.
pub mod RoundTrip
use ckmux.Prelude.{ℕ, List}
use ckmux.Prelude.Int.{ℤ}
use ckmux.Proto.Wire.{Put, ◌▸◌, Get, ◌>>=◌, pure}
use ckmux.Proto.Writer
use ckmux.Proto.Reader
use ckmux.Proto.CellLib.{CellLib}
use ckmux.Proto.Cells.{CellRun, write_runs, read_runs, write_lines, read_lines}

pub record ScrollOp : Type 0 where
  pub top : ℕ
  pub bottom : ℕ
  pub lines : ℤ

unfoldable pub write_scroll_op : ScrollOp → Put
write_scroll_op m = Writer.u16 m.top ▸ Writer.u16 m.bottom ▸ Writer.i16 m.lines

unfoldable pub read_scroll_op : Get ScrollOp
read_scroll_op = do
  top ← Reader.u16
  bottom ← Reader.u16
  lines ← Reader.i16
  pure (record { top = top; bottom = bottom; lines = lines })

pub record CellsOp (L : CellLib) : Type 0 where
  pub row : ℕ
  pub column : ℕ
  pub runs : List (CellRun L)

unfoldable pub write_cells_op : (L : CellLib) → CellsOp L → Put
write_cells_op L m = Writer.u16 m.row ▸ Writer.u16 m.column ▸ write_runs L m.runs

unfoldable pub read_cells_op : (L : CellLib) → Get (CellsOp L)
read_cells_op L = do
  row ← Reader.u16
  column ← Reader.u16
  runs ← read_runs L
  pure (record { row = row; column = column; runs = runs })

pub record ModesOp : Type 0 where
  pub changed_mask : ℕ
  pub values : ℕ

unfoldable pub write_modes_op : ModesOp → Put
write_modes_op m = Writer.u32 m.changed_mask ▸ Writer.u32 m.values

unfoldable pub read_modes_op : Get ModesOp
read_modes_op = do
  changed_mask ← Reader.u32
  values ← Reader.u32
  pure (record { changed_mask = changed_mask; values = values })

pub record TitleOp : Type 0 where
  pub title : List ℕ

unfoldable pub write_title_op : TitleOp → Put
write_title_op m = Writer.str m.title

unfoldable pub read_title_op : Get TitleOp
read_title_op = do title ← Reader.str; pure (record { title = title })

pub record ScrollbackPushOp (L : CellLib) : Type 0 where
  pub lines : List (List (CellRun L))

unfoldable pub write_scrollback_push_op : (L : CellLib) → ScrollbackPushOp L → Put
write_scrollback_push_op L m = write_lines L m.lines

unfoldable pub read_scrollback_push_op : (L : CellLib) → Get (ScrollbackPushOp L)
read_scrollback_push_op L = do lines ← read_lines L; pure (record { lines = lines })

pub record ResizeOp : Type 0 where
  pub columns : ℕ
  pub rows : ℕ

unfoldable pub write_resize_op : ResizeOp → Put
write_resize_op m = Writer.u16 m.columns ▸ Writer.u16 m.rows

unfoldable pub read_resize_op : Get ResizeOp
read_resize_op = do
  columns ← Reader.u16
  rows ← Reader.u16
  pure (record { columns = columns; rows = rows })
