-- ===== src/Proto/Grid.antt =====
-- A grid's changes: tagged operations in sequence (src/common/proto.hpp), as src/common/proto.cpp
-- writes and reads them.
pub mod RoundTrip
use ckmux.Prelude.{List}
use ckmux.Proto.Wire.{Put, ◌▸◌, Get, ◌>>=◌, pure}
use ckmux.Proto.Writer
use ckmux.Proto.Reader
use ckmux.Proto.CellLib.{CellLib}
use ckmux.Proto.Enums.{GridOpTag, grid_op_tag_code, grid_op_tag_of}
use ckmux.Proto.Shapes.{CursorOp, write_cursor_op, read_cursor_op}
use ckmux.Proto.GridOps.{
  ScrollOp, write_scroll_op, read_scroll_op, CellsOp, write_cells_op, read_cells_op, ModesOp,
  write_modes_op, read_modes_op, TitleOp, write_title_op, read_title_op, ScrollbackPushOp,
  write_scrollback_push_op, read_scrollback_push_op, ResizeOp, write_resize_op, read_resize_op,
}

pub data GridOp (L : CellLib) : Type 0 where
  scroll : ScrollOp → GridOp L
  cells : CellsOp L → GridOp L
  cursor : CursorOp → GridOp L
  modes : ModesOp → GridOp L
  title : TitleOp → GridOp L
  scrollback_push : ScrollbackPushOp L → GridOp L
  resize : ResizeOp → GridOp L

unfoldable pub write_grid_op : (L : CellLib) → GridOp L → Put
write_grid_op L (GridOp.scroll op) =
    Writer.u8 (grid_op_tag_code GridOpTag.scroll) ▸ write_scroll_op op
write_grid_op L (GridOp.cells op) =
    Writer.u8 (grid_op_tag_code GridOpTag.cells) ▸ write_cells_op L op
write_grid_op L (GridOp.cursor op) =
    Writer.u8 (grid_op_tag_code GridOpTag.cursor) ▸ write_cursor_op op
write_grid_op L (GridOp.modes op) = Writer.u8 (grid_op_tag_code GridOpTag.modes) ▸ write_modes_op op
write_grid_op L (GridOp.title op) = Writer.u8 (grid_op_tag_code GridOpTag.title) ▸ write_title_op op
write_grid_op L (GridOp.scrollback_push op) =
    Writer.u8 (grid_op_tag_code GridOpTag.scrollback_push) ▸ write_scrollback_push_op L op
write_grid_op L (GridOp.resize op) =
    Writer.u8 (grid_op_tag_code GridOpTag.resize) ▸ write_resize_op op

-- The switch on the tag.
unfoldable pub grid_op_of : (L : CellLib) → GridOpTag → Get (GridOp L)
grid_op_of L GridOpTag.scroll = do op ← read_scroll_op; pure (GridOp.scroll op)
grid_op_of L GridOpTag.cells = do op ← read_cells_op L; pure (GridOp.cells op)
grid_op_of L GridOpTag.cursor = do op ← read_cursor_op; pure (GridOp.cursor op)
grid_op_of L GridOpTag.modes = do op ← read_modes_op; pure (GridOp.modes op)
grid_op_of L GridOpTag.title = do op ← read_title_op; pure (GridOp.title op)
grid_op_of L GridOpTag.scrollback_push = do
  op ← read_scrollback_push_op L
  pure (GridOp.scrollback_push op)
grid_op_of L GridOpTag.resize = do op ← read_resize_op; pure (GridOp.resize op)

unfoldable pub read_grid_op : (L : CellLib) → Get (GridOp L)
read_grid_op L = do tag ← Reader.enum_u8 grid_op_tag_of 6; grid_op_of L tag

unfoldable pub write_grid_ops : (L : CellLib) → List (GridOp L) → Put
write_grid_ops L = Writer.counted (write_grid_op L)

unfoldable pub read_grid_ops : (L : CellLib) → Get (List (GridOp L))
read_grid_ops L = do entries ← Reader.count 3; Reader.repeat entries (read_grid_op L)
