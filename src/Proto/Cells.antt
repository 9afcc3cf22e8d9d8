-- ===== src/Proto/Cells.antt =====
-- Colours, cells and runs of cells, as src/common/proto.cpp writes and reads them.
pub mod Fits
pub mod Size
pub mod RoundTrip
use Prim.Native.Nat.{min}
use ckmux.Prelude.{
  ℕ, ◌+◌, ◌*◌, ◌/◌, ◌%◌, ◌^◌, Bool, true, false, not, List, [], ◌∷◌, length, ltb, ◌==◌,
  if◌then◌else◌,
}
use ckmux.Prelude.Int.{ℤ, pos, negsuc}
use ckmux.Proto.Wire.{Put, ◌▸◌, Get, ◌>>=◌, ◌>>◌, pure}
use ckmux.Proto.Writer
use ckmux.Proto.Reader
use ckmux.Proto.Limits.{max_cell_text_bytes}
use ckmux.Proto.CellLib.{CellLib}

pub record CellRun (L : CellLib) : Type 0 where
  pub run_length : ℕ
  pub cell : L.Cell

-- static_cast<std::uint8_t>(std::clamp(width, 0, 255))
abbrev pub clamp_u8 : ℤ → ℕ
clamp_u8 (pos n) = min n 255
clamp_u8 (negsuc n) = 0

abbrev pub is_empty : List ℕ → Bool
is_empty [] = true
is_empty (x ∷ xs) = false

module _ (L : CellLib) where
  unfoldable pub write_color : L.Color → Put
  write_color value =
      if L.is_rgb value
      then Writer.u32 (2 * 2 ^ 24 + L.red value * 2 ^ 16 + L.green value * 2 ^ 8 + L.blue value)
      else if L.is_indexed value
      then Writer.u32 (1 * 2 ^ 24 + L.index value)
      else Writer.u32 0

  -- The switch on the top byte. A default colour carries nothing else, an indexed one its index.
  unfoldable pub color_of : ℕ → Get L.Color
  color_of value =
      if value / 2 ^ 24 == 0
      then (do Reader.fail_if (not (value % 2 ^ 24 == 0)); pure L.default_color)
      else if value / 2 ^ 24 == 1
      then (do Reader.fail_if (not (value / 2 ^ 8 % 2 ^ 16 == 0)); pure (L.indexed (value % 256)))
      else if value / 2 ^ 24 == 2
      then pure (L.rgb (value / 2 ^ 16 % 256) (value / 2 ^ 8 % 256) (value % 256))
      else (do Reader.fail; pure L.default_color)

  unfoldable pub read_color : Get L.Color
  unfolding color_of
  read_color = do value ← Reader.u32; color_of value

  unfoldable pub write_cell : L.Cell → Put
  unfolding write_color
  write_cell value =
      Writer.str (L.grapheme value)
      ▸ Writer.u8 (clamp_u8 (L.width value))
      ▸ write_color (L.fg (L.style value))
      ▸ write_color (L.bg (L.style value))
      ▸ Writer.u8 (L.attrs (L.style value))
      ▸ Writer.u16 0

  -- Width 0 with no text is the far half of a wide character; any other disagreement fails.
  unfoldable pub cell_of : List ℕ → ℕ → L.Style → Get L.Cell
  cell_of text width style r =
      if not r.ok
      then (L.empty_cell, r)
      else if width == 0
      then (if not (is_empty text)
          then (L.empty_cell, record r { ok = false })
          else (L.continuation style, r))
      else if is_empty text
      then (L.empty_cell, record r { ok = false })
      else (L.from_grapheme text style, r)

  unfoldable pub read_cell : Get L.Cell
  unfolding read_color cell_of
  read_cell = do
    text ← Reader.str
    Reader.fail_if (ltb max_cell_text_bytes (length text))
    width ← Reader.u8
    fg ← read_color
    bg ← read_color
    attrs ← Reader.u8
    reserved ← Reader.u16
    Reader.fail_if (not (reserved == 0))
    cell_of text width (L.make_style fg bg attrs)

  unfoldable pub write_run : CellRun L → Put
  unfolding write_cell
  write_run run = Writer.u16 run.run_length ▸ write_cell run.cell

  unfoldable pub read_run : Get (CellRun L)
  unfolding read_cell
  read_run = do
    run_length ← Reader.u16
    Reader.fail_if (run_length == 0)
    cell ← read_cell
    pure (record { run_length = run_length; cell = cell })

  unfoldable pub write_runs : List (CellRun L) → Put
  unfolding write_run
  write_runs = Writer.counted write_run

  unfoldable pub read_runs : Get (List (CellRun L))
  unfolding read_run
  read_runs = do entries ← Reader.count 16; Reader.repeat entries read_run

  unfoldable pub write_lines : List (List (CellRun L)) → Put
  unfolding write_runs
  write_lines = Writer.counted write_runs

  unfoldable pub read_lines : Get (List (List (CellRun L)))
  unfolding read_runs
  read_lines = do entries ← Reader.count 4; Reader.repeat_all entries read_runs
