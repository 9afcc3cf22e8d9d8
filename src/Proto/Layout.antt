-- ===== src/Proto/Layout.antt =====
-- Window arrangements (src/common/proto.hpp), as src/common/proto.cpp writes and reads them.
pub mod RoundTrip
use ckmux.Prelude.{ℕ, List}
use ckmux.Proto.Wire.{Put, ◌▸◌, Get, ◌>>=◌, pure}
use ckmux.Proto.Writer
use ckmux.Proto.Reader
use ckmux.Proto.Shapes.{
  Rect, write_rect, read_rect, TileFraction, write_tile_fraction, read_tile_fraction,
}

pub record LayoutEntry : Type 0 where
  pub term : ℕ
  pub rect : Rect
  pub z_order : ℕ
  pub zoomed : ℕ
  pub tile : TileFraction

unfoldable pub write_layout_entry : LayoutEntry → Put
write_layout_entry m =
    Writer.u64 m.term
    ▸ write_rect m.rect
    ▸ Writer.u16 m.z_order
    ▸ Writer.u8 m.zoomed
    ▸ write_tile_fraction m.tile

unfoldable pub read_layout_entry : Get LayoutEntry
read_layout_entry = do
  term ← Reader.u64
  rect ← read_rect
  z_order ← Reader.u16
  zoomed ← Reader.u8
  tile ← read_tile_fraction
  pure (record { term = term; rect = rect; z_order = z_order; zoomed = zoomed; tile = tile })

unfoldable pub write_layout_entries : List LayoutEntry → Put
write_layout_entries = Writer.counted write_layout_entry

unfoldable pub read_layout_entries : Get (List LayoutEntry)
read_layout_entries = do entries ← Reader.count 27; Reader.repeat entries read_layout_entry
