-- ===== src/Proto/Images/RoundTrip.antt =====
-- The messages about images are read as they were written.
use ckmux.Prelude.{◌+◌, ◌^◌, ◌≤◌, ◌<◌, length, arith}
use ckmux.Prelude.Int.{magnitude}
use ckmux.Proto.Limits.{max_chunk_payload_bytes}
use ckmux.Proto.Codes.{Codes, Codes-seq, Codes-last}
use ckmux.Proto.Codes.Numbers.{Codes-u16, Codes-u32, Codes-u64, Codes-i16, Codes-blob}
use ckmux.Proto.Shapes.RoundTrip.{FitsRect, Codes-rect}
use ckmux.Proto.Images.{
  ImageRef, write_image_ref, read_image_ref, ImageAddBegin, write_image_add_begin,
  read_image_add_begin, ImageChunk, write_image_chunk, read_image_chunk, ImagePlace,
  write_image_place, read_image_place, ImageRemove, write_image_remove, read_image_remove,
}

pub record FitsImageRef (m : ImageRef) : Type 0 where
  pub id : m.id < 2 ^ 64

pub Codes-image_ref :
    (m : ImageRef) → FitsImageRef m → Codes (write_image_ref m) read_image_ref m (8)
unfolding write_image_ref read_image_ref
Codes-image_ref m h = (Codes-last _ (Codes-u64 m.id h.id))

pub record FitsImageAddBegin (m : ImageAddBegin) : Type 0 where
  pub id : m.id < 2 ^ 64
  pub width : m.width < 2 ^ 16
  pub height : m.height < 2 ^ 16

pub Codes-image_add_begin :
    (m : ImageAddBegin)
    → FitsImageAddBegin m
    → Codes (write_image_add_begin m) read_image_add_begin m (8 + (2 + (2)))
unfolding write_image_add_begin read_image_add_begin
Codes-image_add_begin m h =
    (Codes-seq _ (Codes-u64 m.id h.id)
      (Codes-seq _ (Codes-u16 m.width h.width) (Codes-last _ (Codes-u16 m.height h.height))))

pub record FitsImageChunk (m : ImageChunk) : Type 0 where
  pub id : m.id < 2 ^ 64
  pub seq : m.seq < 2 ^ 32
  pub bytes : length m.bytes ≤ max_chunk_payload_bytes

pub Codes-image_chunk :
    (m : ImageChunk)
    → FitsImageChunk m
    → Codes (write_image_chunk m) read_image_chunk m (8 + (4 + ((4 + length m.bytes))))
unfolding write_image_chunk read_image_chunk
Codes-image_chunk m h =
    (Codes-seq _ (Codes-u64 m.id h.id) (
      Codes-seq _ (Codes-u32 m.seq h.seq)
        (Codes-last _ (Codes-blob max_chunk_payload_bytes m.bytes h.bytes (omega arith)))))

pub record FitsImagePlace (m : ImagePlace) : Type 0 where
  pub term : m.term < 2 ^ 64
  pub id : m.id < 2 ^ 64
  pub cells : FitsRect m.cells
  pub pixel_offset_x : magnitude m.pixel_offset_x < 2 ^ 15
  pub pixel_offset_y : magnitude m.pixel_offset_y < 2 ^ 15

pub Codes-image_place :
    (m : ImagePlace)
    → FitsImagePlace m
    → Codes (write_image_place m) read_image_place m (8 + (8 + (8 + (2 + (2)))))
unfolding write_image_place read_image_place
Codes-image_place m h =
    (Codes-seq _ (Codes-u64 m.term h.term) (
      Codes-seq _ (Codes-u64 m.id h.id) (
        Codes-seq _ (Codes-rect m.cells h.cells) (
          Codes-seq _ (Codes-i16 m.pixel_offset_x h.pixel_offset_x)
            (Codes-last _ (Codes-i16 m.pixel_offset_y h.pixel_offset_y))))))

pub record FitsImageRemove (m : ImageRemove) : Type 0 where
  pub term : m.term < 2 ^ 64
  pub id : m.id < 2 ^ 64

pub Codes-image_remove :
    (m : ImageRemove)
    → FitsImageRemove m
    → Codes (write_image_remove m) read_image_remove m (8 + (8))
unfolding write_image_remove read_image_remove
Codes-image_remove m h =
    (Codes-seq _ (Codes-u64 m.term h.term) (Codes-last _ (Codes-u64 m.id h.id)))
