-- ===== src/Proto/Runs/Fits.antt =====
-- The runs that `to_runs` of src/common/proto.cpp makes can be said on the wire, and it makes as few
-- as it may.
use ckmux.Prelude.{
  ◌+◌, ◌^◌, ◌≤◌, ◌<◌, List, [], ◌∷◌, length, All, All-reverse, length-reverse, arith, Bool-cases,
  inl, inr,
}
use ckmux.Proto.CellLib.{CellLib}
use ckmux.Proto.Cells.{CellRun}
use ckmux.Proto.Cells.Fits.{FitsCell, FitsRun, FitsRuns}
use ckmux.Proto.Runs.{CellTests, extends, push_cell, to_runs_loop, to_runs}
use ckmux.Proto.Runs.RoundTrip.{extends-lt, extends-length}

module _ (L : CellLib) (t : CellTests L) where
  push_cell-fits :
      (runs : List (CellRun L)) (cell : L.Cell)
      → All (FitsRun L) runs
      → FitsCell L cell
      → All (FitsRun L) (push_cell L t runs cell)
  unfolding push_cell
  push_cell-fits [] cell h k =
      (record { some_cells = omega arith; run_length = omega arith; cell = k }, tt)
  push_cell-fits (back ∷ runs) cell (h, hs) k = elim (Bool-cases (extends L t back cell)) [
    | inl more ↦ rw more (
      record {
        some_cells = omega (arith, extends-length L t back cell more);
        run_length = omega (arith, extends-lt L t back cell more);
        cell = h.cell;
      },
      hs,
    )
    | inr other ↦
        rw other (record { some_cells = omega arith; run_length = omega arith; cell = k }, (h, hs))
  ]

  length-push_cell :
      (runs : List (CellRun L)) (cell : L.Cell) → length (push_cell L t runs cell) ≤ length runs + 1
  unfolding push_cell
  length-push_cell [] cell = omega arith
  length-push_cell (back ∷ runs) cell = elim (Bool-cases (extends L t back cell)) [
    | inl more ↦ rw more (omega arith)
    | inr other ↦ rw other (omega arith)
  ]

  to_runs_loop-fits :
      (runs : List (CellRun L)) (cells : List L.Cell)
      → All (FitsRun L) runs
      → All (FitsCell L) cells
      → All (FitsRun L) (to_runs_loop L t runs cells)
        × (length (to_runs_loop L t runs cells) ≤ length runs + length cells)
  unfolding to_runs_loop
  to_runs_loop-fits runs [] h k = (h, omega arith)
  to_runs_loop-fits runs (cell ∷ cells) h (k, ks) =
      let (fit, few) =
        to_runs_loop-fits (push_cell L t runs cell) cells (push_cell-fits runs cell h k) ks in
      (fit, omega (arith, few, length-push_cell runs cell))

  -- A row whose cells fit is made into runs that fit, and there are no more runs than cells.
  pub to_runs-FitsRuns :
      (cells : List L.Cell)
      → length cells < 2 ^ 32
      → All (FitsCell L) cells
      → FitsRuns L (to_runs L t cells) × (length (to_runs L t cells) ≤ length cells)
  unfolding to_runs
  to_runs-FitsRuns cells small fits =
      let (fit, few) = to_runs_loop-fits [] cells tt fits in
      let loop = to_runs_loop L t [] cells in
      (
        record {
          count = omega (arith, few, length-reverse loop);
          each = All-reverse (FitsRun L) loop fit;
        },
        omega (arith, few, length-reverse loop),
      )
