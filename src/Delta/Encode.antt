-- ===== src/Delta/Encode.antt =====
-- A whole grid as runs, for a snapshot: `encode_grid` and `decode_grid` of
-- src/common/grid_delta.cpp.
pub mod RoundTrip
use ckmux.Prelude.{ℕ, Bool, true, false, ◌||◌, not, List, leb, ltb, ◌==◌, if◌then◌else◌}
use ckmux.Prelude.Int.{ℤ, pos, negsuc}
use ckmux.Proto.CellLib.{CellLib}
use ckmux.Proto.Limits.{max_grid_columns, max_grid_rows}
use ckmux.Proto.Cells.{CellRun}
use ckmux.Proto.Runs.{CellTests, to_runs, total_cells, from_runs}
use ckmux.Delta.State.{Size, extent, area, GridState}

-- What `decode_grid` returns, and the state after it.
pub record DecodedGrid (L : CellLib) : Type 0 where
  pub accepted : Bool
  pub state : GridState L

abbrev pub negative : ℤ → Bool
negative (pos n) = false
negative (negsuc n) = true

unfoldable pub encode_grid : (L : CellLib) → CellTests L → GridState L → List (CellRun L)
encode_grid L t s = to_runs L t s.grid

unfoldable pub decode_grid : (L : CellLib) → List (CellRun L) → Size → GridState L → DecodedGrid L
decode_grid L runs cells s =
    if negative cells.width
      || negative cells.height
      || ltb max_grid_columns (extent cells.width)
      || ltb max_grid_rows (extent cells.height)
      || not (total_cells L runs == area cells)
    then record { accepted = false; state = s }
    else record { accepted = true; state = record s { cells = cells; grid = from_runs L runs } }
