-- ===== src/Proto/Runs/RoundTrip.antt =====
-- What `to_runs` and `from_runs` of src/common/proto.cpp do to a row, one after the other.
use ckmux.Prelude.{
  ℕ, zero, suc, ◌+◌, ◌%◌, ◌^◌, ◌≤◌, ◌<◌, ◌≡◌, refl, sym, ap, ◌∙◌, true, List, [], ◌∷◌, ◌++◌,
  append-nil, append_assoc, length, length-append, length-replicate, replicate, le→ltb_false, arith,
  Bool-cases, inl, inr,
}
use mathlib.Core.List.{reverse, reverse-cons, map, map-append}
use ckmux.Proto.Limits.{max_grid_cells}
use ckmux.Proto.CellLib.{CellLib}
use ckmux.Proto.Cells.{CellRun}
use ckmux.Proto.Carried.{carried_cell, carried_runs}
use ckmux.Proto.Runs.{
  CellTests, extends, push_cell, to_runs_loop, to_runs, total_cells, expand, from_runs,
}

-- The comparisons are sound: cells that agree in text, width and style are one cell.
pub record CellTestsLaws (L : CellLib) (t : CellTests L) : Type 0 where
  pub same_cell :
      (a b : L.Cell)
      → t.same_text (L.grapheme a) (L.grapheme b) ≡ true
      → t.same_width (L.width a) (L.width b) ≡ true
      → t.same_style (L.style a) (L.style b) ≡ true
      → a ≡ b

map-replicate {ℓ κ} :
    {A : Type ℓ} {B : Type κ} (f : A → B) (n : ℕ) (a : A)
    → map f (replicate n a) ≡ replicate n (f a)
map-replicate f zero a = refl
map-replicate f (suc n) a = ap (λ l. f a ∷ l) (map-replicate f n a)

replicate_snoc {ℓ} : {A : Type ℓ} (n : ℕ) (a : A) → replicate (suc n) a ≡ replicate n a ++ a ∷ []
replicate_snoc zero a = refl
replicate_snoc (suc n) a = ap (λ l. a ∷ l) (replicate_snoc n a)

module _ (L : CellLib) where
  pub length-expand : (runs : List (CellRun L)) → length (expand L runs) ≡ total_cells L runs
  unfolding expand total_cells
  length-expand [] = refl
  length-expand (run ∷ runs) = omega (
    arith,
    length-append (replicate run.run_length run.cell) (expand L runs),
    length-replicate run.run_length run.cell,
    length-expand runs,
  )

module _ (L : CellLib) where
  pub total_cells-map :
      (runs : List (CellRun L)) → total_cells L (carried_runs L runs) ≡ total_cells L runs
  unfolding total_cells
  total_cells-map [] = refl
  total_cells-map (run ∷ runs) = omega (arith, total_cells-map runs)

  expand-map :
      (runs : List (CellRun L))
      → expand L (carried_runs L runs) ≡ map (carried_cell L) (expand L runs)
  unfolding expand
  expand-map [] = refl
  expand-map (run ∷ runs) =
      ap (λ l. replicate run.run_length (carried_cell L run.cell) ++ l) (expand-map runs)
      ∙ ap (λ l. l ++ map (carried_cell L) (expand L runs))
          (sym (map-replicate (carried_cell L) run.run_length run.cell))
      ∙ sym (map-append (carried_cell L) (replicate run.run_length run.cell) (expand L runs))

module _ (L : CellLib) (t : CellTests L) where
  -- A run that is extended is not full.
  pub extends-lt :
      (back : CellRun L) (cell : L.Cell) → extends L t back cell ≡ true → back.run_length < 0xffff
  unfolding extends
  extends-lt back cell e = ground (arith)

  -- So its length does not wrap.
  pub extends-length :
      (back : CellRun L) (cell : L.Cell)
      → extends L t back cell ≡ true
      → (back.run_length + 1) % 2 ^ 16 ≡ suc back.run_length
  extends-length back cell e = omega (arith, extends-lt back cell e)

module _ (L : CellLib) (t : CellTests L) (laws : CellTestsLaws L t) where
  expand-append : (xs ys : List (CellRun L)) → expand L (xs ++ ys) ≡ expand L xs ++ expand L ys
  unfolding expand
  expand-append [] ys = refl
  expand-append (run ∷ xs) ys =
      ap (λ l. replicate run.run_length run.cell ++ l) (expand-append xs ys)
      ∙ sym (append_assoc (replicate run.run_length run.cell) (expand L xs) (expand L ys))

  -- The cells of runs that are listed from the last to the first.
  abbrev row : List (CellRun L) → List L.Cell
  row runs = expand L (reverse runs)

  row-cons :
      (run : CellRun L) (runs : List (CellRun L))
      → row (run ∷ runs) ≡ row runs ++ replicate run.run_length run.cell
  unfolding expand
  row-cons run runs =
      ap (expand L) (reverse-cons run runs)
      ∙ expand-append (reverse runs) (run ∷ [])
      ∙ ap (λ l. row runs ++ l) (append-nil (replicate run.run_length run.cell))

  -- A cell that extends a run is that run's cell.
  extends-same :
      (back : CellRun L) (cell : L.Cell) → extends L t back cell ≡ true → back.cell ≡ cell
  unfolding extends
  extends-same back cell e = ground (arith, laws.same_cell back.cell cell)

  row-push_cell :
      (runs : List (CellRun L)) (cell : L.Cell)
      → row (push_cell L t runs cell) ≡ row runs ++ cell ∷ []
  unfolding push_cell
  row-push_cell [] cell = row-cons (record { run_length = 1; cell = cell }) []
  row-push_cell (back ∷ runs) cell = elim (Bool-cases (extends L t back cell)) [
    | inl more ↦ rw more (
        rw
          (
            row-cons,
            row-cons,
            extends-length L t back cell more,
            replicate_snoc,
            append_assoc,
            extends-same back cell more,
          )
          refl)
    | inr other ↦ rw other (row-cons (record { run_length = 1; cell = cell }) (back ∷ runs))
  ]

  row-to_runs_loop :
      (runs : List (CellRun L)) (cells : List L.Cell)
      → row (to_runs_loop L t runs cells) ≡ row runs ++ cells
  unfolding to_runs_loop
  row-to_runs_loop runs [] = sym (append-nil (row runs))
  row-to_runs_loop runs (cell ∷ cells) =
      row-to_runs_loop (push_cell L t runs cell) cells
      ∙ ap (λ l. l ++ cells) (row-push_cell runs cell)
      ∙ append_assoc (row runs) (cell ∷ []) cells

  pub expand-to_runs : (cells : List L.Cell) → expand L (to_runs L t cells) ≡ cells
  unfolding to_runs expand
  expand-to_runs cells = row-to_runs_loop [] cells

  -- The cells that the runs of a row claim are as many as it has.
  pub total_cells-to_runs : (cells : List L.Cell) → total_cells L (to_runs L t cells) ≡ length cells
  total_cells-to_runs cells =
      sym (length-expand L (to_runs L t cells)) ∙ ap length (expand-to_runs cells)

  -- A row of no more cells than a grid may have is what its runs expand to.
  pub from_runs-to_runs :
      (cells : List L.Cell)
      → length cells ≤ max_grid_cells
      → from_runs L (to_runs L t cells) ≡ cells
  unfolding from_runs
  from_runs-to_runs cells h =
      rw (total_cells-to_runs cells, le→ltb_false max_grid_cells (length cells) h)
        (expand-to_runs cells)

  -- The same row after its runs were carried: each cell is, one by one.
  pub from_runs-carried_runs :
      (cells : List L.Cell)
      → length cells ≤ max_grid_cells
      → from_runs L (carried_runs L (to_runs L t cells)) ≡ map (carried_cell L) cells
  unfolding from_runs
  from_runs-carried_runs cells h =
      rw
        (
          total_cells-map L (to_runs L t cells),
          total_cells-to_runs cells,
          le→ltb_false max_grid_cells (length cells) h,
        )
        (expand-map L (to_runs L t cells) ∙ ap (map (carried_cell L)) (expand-to_runs cells))
