-- ===== src/Proto/Images.antt =====
-- The messages about images (src/common/proto.hpp), as src/common/proto.cpp
-- writes and reads them.
pub mod RoundTrip
use ckmux.Prelude.{ℕ, List}
use ckmux.Prelude.Int.{ℤ}
use ckmux.Proto.Wire.{Put, ◌▸◌, Get, ◌>>=◌, pure}
use ckmux.Proto.Writer
use ckmux.Proto.Reader
use ckmux.Proto.Limits.{max_chunk_payload_bytes}
use ckmux.Proto.Shapes.{Rect, write_rect, read_rect}

pub record ImageRef : Type 0 where
  pub id : ℕ

unfoldable pub write_image_ref : ImageRef → Put
write_image_ref m = Writer.u64 m.id

unfoldable pub read_image_ref : Get ImageRef
read_image_ref = do id ← Reader.u64; pure (record { id = id })

pub record ImageAddBegin : Type 0 where
  pub id : ℕ
  pub width : ℕ
  pub height : ℕ

unfoldable pub write_image_add_begin : ImageAddBegin → Put
write_image_add_begin m = Writer.u64 m.id ▸ Writer.u16 m.width ▸ Writer.u16 m.height

unfoldable pub read_image_add_begin : Get ImageAddBegin
read_image_add_begin = do
  id ← Reader.u64
  width ← Reader.u16
  height ← Reader.u16
  pure (record { id = id; width = width; height = height })

pub record ImageChunk : Type 0 where
  pub id : ℕ
  pub seq : ℕ
  pub bytes : List ℕ

unfoldable pub write_image_chunk : ImageChunk → Put
write_image_chunk m = Writer.u64 m.id ▸ Writer.u32 m.seq ▸ Writer.blob m.bytes

unfoldable pub read_image_chunk : Get ImageChunk
read_image_chunk = do
  id ← Reader.u64
  seq ← Reader.u32
  bytes ← Reader.blob max_chunk_payload_bytes
  pure (record { id = id; seq = seq; bytes = bytes })

pub record ImagePlace : Type 0 where
  pub term : ℕ
  pub id : ℕ
  pub cells : Rect
  pub pixel_offset_x : ℤ
  pub pixel_offset_y : ℤ

unfoldable pub write_image_place : ImagePlace → Put
write_image_place m =
    Writer.u64 m.term
    ▸ Writer.u64 m.id
    ▸ write_rect m.cells
    ▸ Writer.i16 m.pixel_offset_x
    ▸ Writer.i16 m.pixel_offset_y

unfoldable pub read_image_place : Get ImagePlace
read_image_place = do
  term ← Reader.u64
  id ← Reader.u64
  cells ← read_rect
  pixel_offset_x ← Reader.i16
  pixel_offset_y ← Reader.i16
  pure (record {
    term = term;
    id = id;
    cells = cells;
    pixel_offset_x = pixel_offset_x;
    pixel_offset_y = pixel_offset_y;
  })

pub record ImageRemove : Type 0 where
  pub term : ℕ
  pub id : ℕ

unfoldable pub write_image_remove : ImageRemove → Put
write_image_remove m = Writer.u64 m.term ▸ Writer.u64 m.id

unfoldable pub read_image_remove : Get ImageRemove
read_image_remove = do term ← Reader.u64; id ← Reader.u64; pure (record { term = term; id = id })
