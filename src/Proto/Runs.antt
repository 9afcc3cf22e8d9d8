-- ===== src/Proto/Runs.antt =====
-- Run-length encoding of a row of cells: `to_runs` and `from_runs` of src/common/proto.cpp. How
-- ckVision compares two styles is a parameter.
pub mod Fits
pub mod RoundTrip
pub mod Transfer
use ckmux.Prelude.{ℕ, ◌+◌, ◌%◌, ◌^◌, Bool, ◌&&◌, List, [], ◌∷◌, ◌++◌, ltb, if◌then◌else◌, replicate}
use mathlib.Core.List.{reverse}
use ckmux.Prelude.Int.{ℤ}
use ckmux.Proto.Limits.{max_grid_cells}
use ckmux.Proto.CellLib.{CellLib}
use ckmux.Proto.Cells.{CellRun}

-- The comparisons of graphemes, widths and styles.
pub record CellTests (L : CellLib) : Type 0 where
  pub same_text : List ℕ → List ℕ → Bool
  pub same_width : ℤ → ℤ → Bool
  pub same_style : L.Style → L.Style → Bool

module _ (L : CellLib) (t : CellTests L) where
  -- Whether a cell goes into the last run.
  unfoldable pub extends : CellRun L → L.Cell → Bool
  extends back cell =
      ltb back.run_length 0xffff
      && t.same_text (L.grapheme back.cell) (L.grapheme cell)
      && t.same_width (L.width back.cell) (L.width cell)
      && t.same_style (L.style back.cell) (L.style cell)

  -- One round of the loop; `++` on a std::uint16_t wraps. The runs are listed from the last, `runs.back()`, to the first.
  unfoldable pub push_cell : List (CellRun L) → L.Cell → List (CellRun L)
  unfolding extends
  push_cell [] cell = record { run_length = 1; cell = cell } ∷ []
  push_cell (back ∷ runs) cell =
      if extends back cell
      then record back { run_length = (back.run_length + 1) % 2 ^ 16 } ∷ runs
      else record { run_length = 1; cell = cell } ∷ back ∷ runs

  unfoldable pub to_runs_loop : List (CellRun L) → List L.Cell → List (CellRun L)
  to_runs_loop runs [] = runs
  to_runs_loop runs (cell ∷ cells) = to_runs_loop (push_cell runs cell) cells

  unfoldable pub to_runs : List L.Cell → List (CellRun L)
  to_runs cells = reverse (to_runs_loop [] cells)

module _ (L : CellLib) where
  unfoldable pub total_cells : List (CellRun L) → ℕ
  total_cells [] = 0
  total_cells (run ∷ runs) = run.run_length + total_cells runs

  unfoldable pub expand : List (CellRun L) → List L.Cell
  expand [] = []
  expand (run ∷ runs) = replicate run.run_length run.cell ++ expand runs

  unfoldable pub from_runs : List (CellRun L) → List L.Cell
  from_runs runs = if ltb max_grid_cells (total_cells runs) then [] else expand runs
