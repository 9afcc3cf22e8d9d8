-- ===== src/Proto/Layout/RoundTrip.antt =====
-- Window arrangements are read as they were written.
use ckmux.Prelude.{◌+◌, ◌*◌, ◌^◌, ◌<◌, List, length, arith, All, All-map, All-all}
use ckmux.Proto.Codes.{Codes, Codes-seq, Codes-last, Codes-resize}
use ckmux.Proto.Codes.Numbers.{Codes-u8, Codes-u16, Codes-u64}
use ckmux.Proto.Codes.Entries.{Codes-each, Codes-count, total_const}
use ckmux.Proto.Shapes.RoundTrip.{FitsRect, Codes-rect, FitsTileFraction, Codes-tile_fraction}
use ckmux.Proto.Layout.{LayoutEntry, write_layout_entry, read_layout_entry}
use ckmux.Proto.Layout.{write_layout_entries, read_layout_entries}

pub record FitsLayoutEntry (m : LayoutEntry) : Type 0 where
  pub term : m.term < 2 ^ 64
  pub rect : FitsRect m.rect
  pub z_order : m.z_order < 2 ^ 16
  pub zoomed : m.zoomed < 256
  pub tile : FitsTileFraction m.tile

pub Codes-layout_entry :
    (m : LayoutEntry)
    → FitsLayoutEntry m
    → Codes (write_layout_entry m) read_layout_entry m (8 + (8 + (2 + (1 + (8)))))
unfolding write_layout_entry read_layout_entry
Codes-layout_entry m h =
    (Codes-seq _ (Codes-u64 m.term h.term) (
      Codes-seq _ (Codes-rect m.rect h.rect) (
        Codes-seq _ (Codes-u16 m.z_order h.z_order) (
          Codes-seq _ (Codes-u8 m.zoomed h.zoomed)
            (Codes-last _ (Codes-tile_fraction m.tile h.tile))))))

pub record FitsLayoutEntries (xs : List LayoutEntry) : Type 0 where
  pub count : length xs < 2 ^ 32
  pub each : All FitsLayoutEntry xs

pub Codes-layout_entries :
    (xs : List LayoutEntry)
    → FitsLayoutEntries xs
    → Codes (write_layout_entries xs) read_layout_entries xs (4 + 27 * length xs)
unfolding write_layout_entries read_layout_entries
Codes-layout_entries xs h =
    Codes-resize _
      (Codes-count _ _ _ 27 xs h.count (omega arith) (All-all (λ x. omega arith) xs)
        (Codes-each _ _ _ xs (All-map (Codes-layout_entry) xs h.each)))
      (omega (arith, total_const 27 xs))
