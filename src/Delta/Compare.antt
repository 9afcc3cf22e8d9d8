-- ===== src/Delta/Compare.antt =====
-- `same_state` of src/common/grid_delta.cpp: whether two mirrors hold the same terminal.
use ckmux.Prelude.{◌≡◌, refl, Bool, true, false, ◌&&◌, List, [], ◌∷◌, same_text, ◌==◌, arith}
use ckmux.Proto.CellLib.{CellLib}
use ckmux.Proto.Runs.{CellTests}
use ckmux.Proto.Runs.RoundTrip.{CellTestsLaws}
use ckmux.Delta.State.{same_size, same_cursor, StyleLib, GridState, scrollback_cells}
use ckmux.Delta.State.Screen.{same_size→eq}
use ckmux.Delta.Repaint.{same_cell}
use ckmux.Delta.Repaint.Coverage.{same_cell-eq}
use ckmux.Delta.Diff.Pieces.{same_text→eq, same_cursor→eq}

-- Lists of the same length and the same cells.
unfoldable pub same_cells : (L : CellLib) → CellTests L → List L.Cell → List L.Cell → Bool
same_cells L t [] [] = true
same_cells L t (a ∷ xs) (b ∷ ys) = same_cell L t a b && same_cells L t xs ys
same_cells L t _ _ = false

unfoldable pub same_state :
    (L : CellLib) → StyleLib L → CellTests L → GridState L → GridState L → Bool
same_state L k t a b =
    same_size a.cells b.cells
    && same_cursor a.cursor b.cursor
    && (a.modes == b.modes)
    && same_text a.title b.title
    && same_cells L t a.grid b.grid
    && same_cells L t (scrollback_cells L k a) (scrollback_cells L k b)

same_cells-eq :
    (L : CellLib) (t : CellTests L)
    → CellTestsLaws L t
    → (xs ys : List L.Cell) → same_cells L t xs ys ≡ true
    → xs ≡ ys
unfolding same_cells
same_cells-eq L t laws [] [] e = refl
same_cells-eq L t laws [] (b ∷ ys) e = cc
same_cells-eq L t laws (a ∷ xs) [] e = cc
same_cells-eq L t laws (a ∷ xs) (b ∷ ys) e =
    grind (arith, same_cell-eq L t laws a b, same_cells-eq L t laws xs ys)

-- All that a reader of a mirror sees, wherever the dead lines of its history end.
pub record SameTerminal (L : CellLib) (k : StyleLib L) (a b : GridState L) : Type 0 where
  pub cells : a.cells ≡ b.cells
  pub cursor : a.cursor ≡ b.cursor
  pub modes : a.modes ≡ b.modes
  pub title : a.title ≡ b.title
  pub grid : a.grid ≡ b.grid
  pub history : scrollback_cells L k a ≡ scrollback_cells L k b

-- If cells with the same text, width and style are the same, then mirrors that `same_state` calls the
-- same have the same size, cursor, modes, title, grid and live history.
pub same_state-SameTerminal :
    (L : CellLib) (k : StyleLib L) (t : CellTests L)
    → CellTestsLaws L t
    → (a b : GridState L) → same_state L k t a b ≡ true
    → SameTerminal L k a b
unfolding same_state
same_state-SameTerminal L k t laws a b e = record {
  cells = grind (arith, same_size→eq a.cells b.cells);
  cursor = grind (arith, same_cursor→eq a.cursor b.cursor);
  modes = ground (arith);
  title = grind (arith, same_text→eq a.title b.title);
  grid = grind (arith, same_cells-eq L t laws a.grid b.grid);
  history = grind (arith, same_cells-eq L t laws (scrollback_cells L k a) (scrollback_cells L k b));
}
