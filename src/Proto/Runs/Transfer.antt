-- ===== src/Proto/Runs/Transfer.antt =====
-- A row of cells from one end of the connection to the other: `to_runs`, `Writer::runs`,
-- `Reader::runs` and `from_runs` of src/common/proto.cpp.
use ckmux.Prelude.{ℕ, ◌≤◌, ◌≡◌, refl, true, List, ◌++◌, length, All, arith}
use ckmux.Proto.Wire.{ready}
use ckmux.Proto.Limits.{max_grid_cells}
use mathlib.Core.List.{map}
use ckmux.Proto.CellLib.{CellLib}
use ckmux.Proto.Cells.{write_runs, read_runs}
use ckmux.Proto.Cells.Fits.{FitsCell}
use ckmux.Proto.Cells.Size.{runs_size}
use ckmux.Proto.Cells.RoundTrip.{Codes-runs}
use ckmux.Proto.Codec.{empty_writer}
use ckmux.Proto.Carried.{carried_cell}
use ckmux.Proto.Runs.{CellTests, to_runs, from_runs}
use ckmux.Proto.Runs.RoundTrip.{CellTestsLaws, from_runs-carried_runs}
use ckmux.Proto.Runs.Fits.{to_runs-FitsRuns}

module _ (L : CellLib) (t : CellTests L) (sound : CellTestsLaws L t) where
  -- A row of no more cells than a grid may have, each of which fits, is written as its runs without a
  -- failure, in exactly the bytes predicted for them; read back, with any bytes behind, the runs
  -- expand to the row, each cell with a fresh style of its two colours and its attributes, and exactly
  -- those bytes are left.
  pub from_runs-read_runs :
      (cells : List L.Cell) (rest : List ℕ)
      → length cells ≤ max_grid_cells
      → All (FitsCell L) cells
      → (let sent = write_runs L (to_runs L t cells) empty_writer in
          let got = read_runs L (ready (sent.out ++ rest)) in
          (sent.ok ≡ true)
          × (length sent.out ≡ runs_size L (to_runs L t cells))
          × (from_runs L got.0 ≡ map (carried_cell L) cells)
          × (got.1 ≡ ready rest))
  from_runs-read_runs cells rest small fits =
      let c = Codes-runs L (to_runs L t cells) (to_runs-FitsRuns L t cells (omega arith) fits).0 in
      rw (c.writes empty_writer)
        (rw (c.reads rest) (refl, c.sized, from_runs-carried_runs L t sound cells small, refl))
