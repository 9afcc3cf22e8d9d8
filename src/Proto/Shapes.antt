-- ===== src/Proto/Shapes.antt =====
-- The rectangles, tile shares, cursors and print jobs of src/common/proto.hpp, as
-- src/common/proto.cpp writes and reads them.
pub mod RoundTrip
use ckmux.Prelude.{ℕ, List}
use ckmux.Prelude.Int.{ℤ}
use ckmux.Proto.Wire.{Put, ◌▸◌, Get, ◌>>=◌, pure}
use ckmux.Proto.Writer
use ckmux.Proto.Reader
use ckmux.Proto.Enums.{PrintJobKind, print_job_kind_code, print_job_kind_of}

pub record Rect : Type 0 where
  pub x : ℤ
  pub y : ℤ
  pub width : ℕ
  pub height : ℕ

unfoldable pub write_rect : Rect → Put
write_rect m = Writer.i16 m.x ▸ Writer.i16 m.y ▸ Writer.u16 m.width ▸ Writer.u16 m.height

unfoldable pub read_rect : Get Rect
read_rect = do
  x ← Reader.i16
  y ← Reader.i16
  width ← Reader.u16
  height ← Reader.u16
  pure (record { x = x; y = y; width = width; height = height })

pub record TileFraction : Type 0 where
  pub x : ℕ
  pub y : ℕ
  pub width : ℕ
  pub height : ℕ

unfoldable pub write_tile_fraction : TileFraction → Put
write_tile_fraction m = Writer.u16 m.x ▸ Writer.u16 m.y ▸ Writer.u16 m.width ▸ Writer.u16 m.height

unfoldable pub read_tile_fraction : Get TileFraction
read_tile_fraction = do
  x ← Reader.u16
  y ← Reader.u16
  width ← Reader.u16
  height ← Reader.u16
  pure (record { x = x; y = y; width = width; height = height })

pub record CursorOp : Type 0 where
  pub column : ℕ
  pub row : ℕ
  pub style : ℕ
  pub visible : ℕ
  pub blink : ℕ

unfoldable pub write_cursor_op : CursorOp → Put
write_cursor_op m =
    Writer.u16 m.column
    ▸ Writer.u16 m.row
    ▸ Writer.u8 m.style
    ▸ Writer.u8 m.visible
    ▸ Writer.u8 m.blink

unfoldable pub read_cursor_op : Get CursorOp
read_cursor_op = do
  column ← Reader.u16
  row ← Reader.u16
  style ← Reader.u8
  visible ← Reader.u8
  blink ← Reader.u8
  pure (record { column = column; row = row; style = style; visible = visible; blink = blink })

pub record PrintJobInfo : Type 0 where
  pub job : ℕ
  pub kind : PrintJobKind
  pub bytes : ℕ
  pub lines : ℕ
  pub at : ℤ

unfoldable pub write_print_job_info : PrintJobInfo → Put
write_print_job_info m =
    Writer.u64 m.job
    ▸ Writer.u8 (print_job_kind_code m.kind)
    ▸ Writer.u32 m.bytes
    ▸ Writer.u32 m.lines
    ▸ Writer.i64 m.at

unfoldable pub read_print_job_info : Get PrintJobInfo
read_print_job_info = do
  job ← Reader.u64
  kind ← Reader.enum_u8 print_job_kind_of 3
  bytes ← Reader.u32
  lines ← Reader.u32
  at ← Reader.i64
  pure (record { job = job; kind = kind; bytes = bytes; lines = lines; at = at })

unfoldable pub write_print_jobs : List PrintJobInfo → Put
write_print_jobs = Writer.counted write_print_job_info

unfoldable pub read_print_jobs : Get (List PrintJobInfo)
read_print_jobs = do entries ← Reader.count 25; Reader.repeat_all entries read_print_job_info

unfoldable pub write_ids : List ℕ → Put
write_ids = Writer.counted Writer.u64

unfoldable pub read_ids : Get (List ℕ)
read_ids = do entries ← Reader.count 8; Reader.repeat_all entries Reader.u64
