-- ===== src/Delta/Rows.antt =====
-- What src/common/grid_delta.cpp reads and moves in a grid: a row, a region's shift, a copy of cells.
use ckmux.Prelude.{
  ℕ, suc, ◌+◌, ◌-◌, ◌*◌, ◌||◌, List, ◌++◌, length, take, drop, replicate, leb, ◌==◌, if◌then◌else◌,
}
use ckmux.Prelude.Int.{ℤ, pos, negsuc}
use ckmux.Proto.CellLib.{CellLib}
use ckmux.Delta.State.{StyleLib, blank_cell}

-- std::abs
abbrev pub abs : ℤ → ℕ
abs (pos n) = n
abs (negsuc n) = suc n

module _ {ℓ} {A : Type ℓ} where
  unfoldable pub row_of : List A → ℕ → ℕ → List A
  row_of grid width row = take width (drop (row * width) grid)

  -- std::copy of `incoming` to `offset`.
  unfoldable pub copy_to : ℕ → List A → List A → List A
  copy_to offset incoming grid =
      take offset grid ++ (incoming ++ drop (offset + length incoming) grid)

module _ (L : CellLib) (k : StyleLib L) where
  -- The cells of a region after they have moved up, or down, by some lines, blank where none came.
  unfoldable pub moved : ℕ → ℕ → ℤ → List L.Cell → List L.Cell
  moved width height (pos lines) region =
      drop (lines * width) region ++ replicate (lines * width) (blank_cell L k)
  moved width height (negsuc lines) region =
      replicate (suc lines * width) (blank_cell L k) ++ take ((height - suc lines) * width) region

  unfoldable pub shift_rows : ℕ → ℕ → ℕ → ℤ → List L.Cell → List L.Cell
  shift_rows width top bottom lines grid =
      let height = bottom - top in
      let region = take (height * width) (drop (top * width) grid) in
      if leb bottom top || abs lines == 0
      then grid
      else if leb height (abs lines)
      then take (top * width) grid
        ++ (replicate (height * width) (blank_cell L k) ++ drop (bottom * width) grid)
      else take (top * width) grid
        ++ (moved width height lines region ++ drop (bottom * width) grid)
