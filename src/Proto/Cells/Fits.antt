-- ===== src/Proto/Cells/Fits.antt =====
-- Which colours, cells and runs src/common/proto.cpp can say: every number fits its C++ type, and
-- text and width agree as ckVision's two constructors of a cell make them.
use ckmux.Prelude.{ℕ, suc, ◌^◌, ◌≤◌, ◌<◌, ◌≡◌, ◌≢◌, ◌⊎◌, List, [], length, All}
use ckmux.Prelude.Int.{pos}
use ckmux.Proto.Limits.{max_cell_text_bytes}
use ckmux.Proto.CellLib.{CellLib}
use ckmux.Proto.Cells.{CellRun}

pub record FitsColor (L : CellLib) (c : L.Color) : Type 0 where
  pub red : L.red c < 256
  pub green : L.green c < 256
  pub blue : L.blue c < 256
  pub index : L.index c < 256

-- The far half of a wide character.
pub record IsContinuation (L : CellLib) (c : L.Cell) : Type 0 where
  pub width : L.width c ≡ pos 0
  pub text : L.grapheme c ≡ []

-- A cell that shows its text.
pub record IsGlyph (L : CellLib) (c : L.Cell) : Type 0 where
  pub columns : ℕ
  pub width : L.width c ≡ pos (suc columns)
  pub text : L.grapheme c ≢ []

pub record FitsCell (L : CellLib) (c : L.Cell) : Type 0 where
  pub text : length (L.grapheme c) ≤ max_cell_text_bytes
  pub fg : FitsColor L (L.fg (L.style c))
  pub bg : FitsColor L (L.bg (L.style c))
  pub attrs : L.attrs (L.style c) < 256
  pub shape : IsContinuation L c ⊎ IsGlyph L c

pub record FitsRun (L : CellLib) (run : CellRun L) : Type 0 where
  pub some_cells : 0 < run.run_length
  pub run_length : run.run_length < 2 ^ 16
  pub cell : FitsCell L run.cell

pub record FitsRuns (L : CellLib) (runs : List (CellRun L)) : Type 0 where
  pub count : length runs < 2 ^ 32
  pub each : All (FitsRun L) runs

pub record FitsLines (L : CellLib) (lines : List (List (CellRun L))) : Type 0 where
  pub count : length lines < 2 ^ 32
  pub each : All (FitsRuns L) lines
