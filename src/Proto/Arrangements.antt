-- ===== src/Proto/Arrangements.antt =====
-- The two messages that carry an arrangement of windows, of src/common/proto.cpp.
pub mod RoundTrip
use ckmux.Prelude.{ℕ, List}
use ckmux.Proto.Wire.{Put, ◌▸◌, Get, ◌>>=◌, pure}
use ckmux.Proto.Writer
use ckmux.Proto.Reader
use ckmux.Proto.Layout.{LayoutEntry, write_layout_entries, read_layout_entries}

pub record SetLayout : Type 0 where
  pub entries : List LayoutEntry

unfoldable pub write_set_layout : SetLayout → Put
write_set_layout m = write_layout_entries m.entries

unfoldable pub read_set_layout : Get SetLayout
read_set_layout = do entries ← read_layout_entries; pure (record { entries = entries })

pub record LayoutDelta : Type 0 where
  pub session : ℕ
  pub entries : List LayoutEntry
  pub focused_term : ℕ
  pub desktop_columns : ℕ
  pub desktop_rows : ℕ

unfoldable pub write_layout_delta : LayoutDelta → Put
write_layout_delta m =
    Writer.u64 m.session
    ▸ write_layout_entries m.entries
    ▸ Writer.u64 m.focused_term
    ▸ Writer.u16 m.desktop_columns
    ▸ Writer.u16 m.desktop_rows

unfoldable pub read_layout_delta : Get LayoutDelta
read_layout_delta = do
  session ← Reader.u64
  entries ← read_layout_entries
  focused_term ← Reader.u64
  desktop_columns ← Reader.u16
  desktop_rows ← Reader.u16
  pure (record {
    session = session;
    entries = entries;
    focused_term = focused_term;
    desktop_columns = desktop_columns;
    desktop_rows = desktop_rows;
  })
