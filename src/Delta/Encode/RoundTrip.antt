-- ===== src/Delta/Encode/RoundTrip.antt =====
-- What `encode_grid` writes, `decode_grid` of src/common/grid_delta.cpp reads, and nothing else than
-- a grid of the size that was said.
use native.Mathlib.Nat.{mul-le-mul}
use ckmux.Prelude.{
  ℕ, ◌*◌, ◌≤◌, ◌≡◌, refl, ap, ◌∙◌, true, false, ◌||◌, not, List, length, ltb, le→ltb_false, ==_refl,
  ◌==◌, Bool-cases, inl, inr, arith,
}
use ckmux.Proto.CellLib.{CellLib}
use ckmux.Proto.Limits.{max_grid_columns, max_grid_rows, max_grid_cells}
use ckmux.Proto.Cells.{CellRun}
use ckmux.Proto.Runs.{CellTests, to_runs, total_cells, from_runs}
use ckmux.Proto.Runs.RoundTrip.{
  CellTestsLaws, total_cells-to_runs, from_runs-to_runs, length-expand,
}
use ckmux.Delta.State.{Size, extent, area, GridState}
use ckmux.Delta.Apply.Delivers.{screen}
use ckmux.Delta.Encode.{encode_grid, decode_grid, negative}

few_cells : (w h : ℕ) → w ≤ max_grid_columns → h ≤ max_grid_rows → w * h ≤ max_grid_cells
few_cells w h a b = mul-le-mul a b

module _ (L : CellLib) where
  length-from_runs :
      (runs : List (CellRun L))
      → total_cells L runs ≤ max_grid_cells
      → length (from_runs L runs) ≡ total_cells L runs
  unfolding from_runs
  length-from_runs runs h =
      rw (le→ltb_false max_grid_cells (total_cells L runs) h) (length-expand L runs)

  -- A grid of a size that the protocol carries, said with its size, is read as it was, into any
  -- state, of which nothing else changes.
  pub decode_grid-encode_grid :
      (t : CellTests L)
      → CellTestsLaws L t
      → (s into : GridState L) (width height : ℕ) → width ≤ max_grid_columns
      → height ≤ max_grid_rows
      → s.cells ≡ screen width height
      → length s.grid ≡ area s.cells
      → decode_grid L (encode_grid L t s) s.cells into
        ≡ record { accepted = true; state = record into { cells = s.cells; grid = s.grid } }
  unfolding decode_grid encode_grid
  decode_grid-encode_grid t laws s into width height a b e f =
      let total : total_cells L (to_runs L t s.grid) ≡ width * height =
        total_cells-to_runs L t laws s.grid ∙ f ∙ ap area e in
      let cells : from_runs L (to_runs L t s.grid) ≡ s.grid =
        from_runs-to_runs L t laws s.grid (rw (f, e) (few_cells width height a b)) in
      rw
        (
          e,
          le→ltb_false max_grid_columns width a,
          le→ltb_false max_grid_rows height b,
          total,
          ==_refl (width * height),
          cells,
        )
        refl

  -- Whatever runs a peer sends, a state whose grid is read has a grid of the size that was said, and
  -- that size is one that the protocol carries; otherwise the state is as it was.
  pub decode_grid-sized :
      (runs : List (CellRun L)) (cells : Size) (s : GridState L)
      → ((decode_grid L runs cells s).accepted ≡ true
          → (length (decode_grid L runs cells s).state.grid ≡ area cells)
            × (area cells ≤ max_grid_cells))
        × ((decode_grid L runs cells s).accepted ≡ false → (decode_grid L runs cells s).state ≡ s)
  unfolding decode_grid
  decode_grid-sized runs cells s =
      let guard =
        negative cells.width
        || negative cells.height
        || ltb max_grid_columns (extent cells.width)
        || ltb max_grid_rows (extent cells.height)
        || not (total_cells L runs == area cells) in
      elim (Bool-cases guard) [
        | inl bad ↦ rw bad (λ e. cc, λ e. refl)
        | inr good ↦
            let total : total_cells L runs ≡ area cells = ground (arith) in
            let few : area cells ≤ max_grid_cells =
              few_cells (extent cells.width) (extent cells.height) (ground (arith))
                (ground (arith)) in
            rw good (λ e. (length-from_runs runs (rw total few) ∙ total, few), λ e. cc)
      ]
