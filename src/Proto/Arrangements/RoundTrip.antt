-- ===== src/Proto/Arrangements/RoundTrip.antt =====
-- The two messages that carry an arrangement are read as they were written.
use ckmux.Prelude.{◌+◌, ◌*◌, ◌^◌, ◌<◌, length}
use ckmux.Proto.Codes.{Codes, Codes-seq, Codes-last}
use ckmux.Proto.Codes.Numbers.{Codes-u16, Codes-u64}
use ckmux.Proto.Layout.RoundTrip.{FitsLayoutEntries, Codes-layout_entries}
use ckmux.Proto.Arrangements.{
  SetLayout, write_set_layout, read_set_layout, LayoutDelta, write_layout_delta, read_layout_delta,
}

pub record FitsSetLayout (m : SetLayout) : Type 0 where
  pub entries : FitsLayoutEntries m.entries

pub Codes-set_layout :
    (m : SetLayout)
    → FitsSetLayout m
    → Codes (write_set_layout m) read_set_layout m ((4 + 27 * length m.entries))
unfolding write_set_layout read_set_layout
Codes-set_layout m h = (Codes-last _ (Codes-layout_entries m.entries h.entries))

pub record FitsLayoutDelta (m : LayoutDelta) : Type 0 where
  pub session : m.session < 2 ^ 64
  pub entries : FitsLayoutEntries m.entries
  pub focused_term : m.focused_term < 2 ^ 64
  pub desktop_columns : m.desktop_columns < 2 ^ 16
  pub desktop_rows : m.desktop_rows < 2 ^ 16

pub Codes-layout_delta :
    (m : LayoutDelta)
    → FitsLayoutDelta m
    → Codes
        (write_layout_delta m)
        read_layout_delta
        m
        (8 + ((4 + 27 * length m.entries) + (8 + (2 + (2)))))
unfolding write_layout_delta read_layout_delta
Codes-layout_delta m h =
    (Codes-seq _ (Codes-u64 m.session h.session) (
      Codes-seq _ (Codes-layout_entries m.entries h.entries) (
        Codes-seq _ (Codes-u64 m.focused_term h.focused_term) (
          Codes-seq _ (Codes-u16 m.desktop_columns h.desktop_columns)
            (Codes-last _ (Codes-u16 m.desktop_rows h.desktop_rows))))))
