-- ===== src/Proto/Shapes/RoundTrip.antt =====
-- Rectangles, tile shares, cursors and print jobs are read as they were written.
use ckmux.Prelude.{ℕ, ◌+◌, ◌*◌, ◌^◌, ◌<◌, List, length, arith, All, All-map, All-all}
use ckmux.Prelude.Int.{magnitude}
use ckmux.Proto.Codes.{Codes, Codes-seq, Codes-last, Codes-resize}
use ckmux.Proto.Codes.Numbers.{Codes-u8, Codes-u16, Codes-u32, Codes-u64, Codes-i16, Codes-i64}
use ckmux.Proto.Codes.Entries.{Codes-each_all, Codes-count, total_const}
use ckmux.Proto.Enums.RoundTrip.{Codes-print_job_kind}
use ckmux.Proto.Shapes.{
  Rect, write_rect, read_rect, TileFraction, write_tile_fraction, read_tile_fraction, CursorOp,
  write_cursor_op, read_cursor_op, PrintJobInfo, write_print_job_info, read_print_job_info,
}
use ckmux.Proto.Shapes.{write_print_jobs, read_print_jobs}
use ckmux.Proto.Shapes.{write_ids, read_ids}

pub record FitsRect (m : Rect) : Type 0 where
  pub x : magnitude m.x < 2 ^ 15
  pub y : magnitude m.y < 2 ^ 15
  pub width : m.width < 2 ^ 16
  pub height : m.height < 2 ^ 16

pub Codes-rect : (m : Rect) → FitsRect m → Codes (write_rect m) read_rect m (2 + (2 + (2 + (2))))
unfolding write_rect read_rect
Codes-rect m h =
    (Codes-seq _ (Codes-i16 m.x h.x) (
      Codes-seq _ (Codes-i16 m.y h.y)
        (Codes-seq _ (Codes-u16 m.width h.width) (Codes-last _ (Codes-u16 m.height h.height)))))

pub record FitsTileFraction (m : TileFraction) : Type 0 where
  pub x : m.x < 2 ^ 16
  pub y : m.y < 2 ^ 16
  pub width : m.width < 2 ^ 16
  pub height : m.height < 2 ^ 16

pub Codes-tile_fraction :
    (m : TileFraction)
    → FitsTileFraction m
    → Codes (write_tile_fraction m) read_tile_fraction m (2 + (2 + (2 + (2))))
unfolding write_tile_fraction read_tile_fraction
Codes-tile_fraction m h =
    (Codes-seq _ (Codes-u16 m.x h.x) (
      Codes-seq _ (Codes-u16 m.y h.y)
        (Codes-seq _ (Codes-u16 m.width h.width) (Codes-last _ (Codes-u16 m.height h.height)))))

pub record FitsCursorOp (m : CursorOp) : Type 0 where
  pub column : m.column < 2 ^ 16
  pub row : m.row < 2 ^ 16
  pub style : m.style < 256
  pub visible : m.visible < 256
  pub blink : m.blink < 256

pub Codes-cursor_op :
    (m : CursorOp)
    → FitsCursorOp m
    → Codes (write_cursor_op m) read_cursor_op m (2 + (2 + (1 + (1 + (1)))))
unfolding write_cursor_op read_cursor_op
Codes-cursor_op m h =
    (Codes-seq _ (Codes-u16 m.column h.column) (
      Codes-seq _ (Codes-u16 m.row h.row) (
        Codes-seq _ (Codes-u8 m.style h.style)
          (Codes-seq _ (Codes-u8 m.visible h.visible) (Codes-last _ (Codes-u8 m.blink h.blink))))))

pub record FitsPrintJobInfo (m : PrintJobInfo) : Type 0 where
  pub job : m.job < 2 ^ 64
  pub bytes : m.bytes < 2 ^ 32
  pub lines : m.lines < 2 ^ 32
  pub at : magnitude m.at < 2 ^ 63

pub Codes-print_job_info :
    (m : PrintJobInfo)
    → FitsPrintJobInfo m
    → Codes (write_print_job_info m) read_print_job_info m (8 + (1 + (4 + (4 + (8)))))
unfolding write_print_job_info read_print_job_info
Codes-print_job_info m h =
    (Codes-seq _ (Codes-u64 m.job h.job) (
      Codes-seq _ (Codes-print_job_kind m.kind) (
        Codes-seq _ (Codes-u32 m.bytes h.bytes)
          (Codes-seq _ (Codes-u32 m.lines h.lines) (Codes-last _ (Codes-i64 m.at h.at))))))

pub record FitsPrintJobs (xs : List PrintJobInfo) : Type 0 where
  pub count : length xs < 2 ^ 32
  pub each : All FitsPrintJobInfo xs

pub Codes-print_jobs :
    (xs : List PrintJobInfo)
    → FitsPrintJobs xs
    → Codes (write_print_jobs xs) read_print_jobs xs (4 + 25 * length xs)
unfolding write_print_jobs read_print_jobs
Codes-print_jobs xs h =
    Codes-resize _
      (Codes-count _ _ _ 25 xs h.count (omega arith) (All-all (λ x. omega arith) xs)
        (Codes-each_all _ _ _ xs (All-map (Codes-print_job_info) xs h.each)))
      (omega (arith, total_const 25 xs))

pub record FitsIds (xs : List ℕ) : Type 0 where
  pub count : length xs < 2 ^ 32
  pub each : All (λ (id : ℕ). id < 2 ^ 64) xs

pub Codes-ids : (xs : List ℕ) → FitsIds xs → Codes (write_ids xs) read_ids xs (4 + 8 * length xs)
unfolding write_ids read_ids
Codes-ids xs h =
    Codes-resize _
      (Codes-count _ _ _ 8 xs h.count (omega arith) (All-all (λ x. omega arith) xs)
        (Codes-each_all _ _ _ xs (All-map (Codes-u64) xs h.each)))
      (omega (arith, total_const 8 xs))
