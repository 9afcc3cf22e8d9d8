-- ===== src/Proto/Cells/Size.antt =====
-- What runs of cells will cost before they are written: `encoded_size` of src/common/proto.cpp.
use ckmux.Prelude.{ℕ, ◌+◌, List, length}
use ckmux.Proto.CellLib.{CellLib}
use ckmux.Proto.Cells.{CellRun}
use ckmux.Proto.Codes.Entries.{total}

-- encoded_size(const CellRun&)
unfoldable pub run_size : (L : CellLib) → CellRun L → ℕ
run_size L run = 16 + length (L.grapheme run.cell)

-- encoded_size(const std::vector<CellRun>&)
unfoldable pub runs_size : (L : CellLib) → List (CellRun L) → ℕ
unfolding run_size
runs_size L runs = 4 + total (run_size L) runs

-- encoded_size(const std::vector<std::vector<CellRun>>&)
unfoldable pub lines_size : (L : CellLib) → List (List (CellRun L)) → ℕ
unfolding runs_size
lines_size L lines = 4 + total (runs_size L) lines
