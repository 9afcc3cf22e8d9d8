-- ===== src/Delta/Diff.antt =====
-- `diff` and `full_repaint` of src/common/grid_delta.cpp: the operations that bring a mirror of one
-- state to another.
pub mod Changes
pub mod Pieces
pub mod View
pub mod Exact
use Prim.Native.Nat.{bit_xor}
use ckmux.Prelude.{
  ℕ, zero, suc, ◌+◌, ◌*◌, ◌%◌, ◌^◌, Bool, true, false, ◌&&◌, ◌||◌, not, Option, none, some, List,
  [], ◌∷◌, ◌++◌, length, replicate, same_text, leb, ltb, ◌==◌, if◌then◌else◌,
}
use ckmux.Prelude.Int.{ℤ, pos, negsuc, to_word, of_word}
use ckmux.Proto.CellLib.{CellLib}
use ckmux.Proto.Cells.{CellRun}
use ckmux.Proto.Shapes.{CursorOp}
use ckmux.Proto.GridOps.{ScrollOp, ModesOp, TitleOp, ScrollbackPushOp, ResizeOp}
use ckmux.Proto.Grid.{GridOp}
use ckmux.Proto.Runs.{CellTests, to_runs}
use ckmux.Delta.State.{
  Size, extent, area, same_size, GridCursor, same_cursor, StyleLib, GridState, blank_cell,
}
use ckmux.Delta.Rows.{row_of, shift_rows}
use ckmux.Delta.Hash.{row_hash}
use ckmux.Delta.Repaint.{emit_changed_row, every_row}
use ckmux.Delta.Search.{find_top, find_bottom, best_shift}

pub record GridView (L : CellLib) : Type 0 where
  pub cells : Size
  pub grid : List L.Cell
  pub cursor : GridCursor
  pub modes : ℕ
  pub title : List ℕ

pub record RowDamage : Type 0 where
  pub first : ℤ
  pub last : ℤ

-- first >= last
abbrev pub at_least : ℤ → ℤ → Bool
at_least (pos a) (pos b) = leb b a
at_least (pos a) (negsuc b) = true
at_least (negsuc a) (pos b) = false
at_least (negsuc a) (negsuc b) = leb a b

-- RowDamage::empty
unfoldable pub damage_empty : RowDamage → Bool
damage_empty damage = at_least damage.first damage.last

-- Whether a damage report names a row.
unfoldable pub names_row : List RowDamage → ℕ → Bool
names_row [] row = false
names_row (damage ∷ damaged) zero = not (damage_empty damage)
names_row (damage ∷ damaged) (suc row) = names_row damaged row

-- `examined`: every row without a report.
unfoldable pub examined : List RowDamage → ℕ → Bool
examined [] row = true
examined (damage ∷ damaged) row = names_row (damage ∷ damaged) row

module _ (L : CellLib) (k : StyleLib L) (t : CellTests L) where
  unfoldable pub emit_every_row : GridView L → List (GridOp L)
  emit_every_row current =
      if length current.grid == area current.cells
      then every_row L t (extent current.cells.width) (extent current.cells.height) 0 current.grid
      else []

  -- The repaint pass, for `count` rows from `row` on.
  unfoldable pub repaint_rows : ℕ → (ℕ → Bool) → ℕ → ℕ → List L.Cell → List L.Cell → List (GridOp L)
  repaint_rows width looked zero row mirror wanted = []
  repaint_rows width looked (suc count) row mirror wanted =
      let rest = repaint_rows width looked count (suc row) mirror wanted in
      if looked row
      then emit_changed_row L t (row % 2 ^ 16) (row_of mirror width row) (row_of wanted width row)
        ++ rest
      else rest

  -- The shift that is performed first.
  unfoldable pub emit_shift : ℕ → ℕ → Option ℤ → List (GridOp L)
  emit_shift top bottom none = []
  emit_shift top bottom (some lines) =
      GridOp.scroll (record {
        top = top % 2 ^ 16;
        bottom = bottom % 2 ^ 16;
        lines = of_word (2 ^ 15) (to_word (2 ^ 15) lines);
      })
      ∷ []

  -- What the mirror is known to hold after it, and which rows are then looked at.
  unfoldable pub shifted : ℕ → ℕ → ℕ → Option ℤ → List L.Cell → List L.Cell
  shifted width top bottom none held = held
  shifted width top bottom (some lines) held = shift_rows L k width top bottom lines held

  unfoldable pub looked_at : (ℕ → Bool) → ℕ → ℕ → Option ℤ → ℕ → Bool
  looked_at named top bottom none row = named row
  looked_at named top bottom (some lines) row = (leb top row && ltb row bottom) || named row

  unfoldable pub row_differs : ℕ → List L.Cell → List L.Cell → ℕ → Bool
  row_differs width held wanted row =
      not (row_hash L k (row_of held width row) == row_hash L k (row_of wanted width row))

  -- The changes of a grid that keeps its size.
  unfoldable pub emit_changes : ℕ → ℕ → (ℕ → Bool) → List L.Cell → List L.Cell → List (GridOp L)
  emit_changes width height named held wanted =
      let touched : ℕ → Bool = λ row. named row && row_differs width held wanted row in
      let top = find_top touched height 0 in
      let bottom = find_bottom touched top height in
      let lines =
        best_shift top bottom (λ row. row_hash L k (row_of held width row))
          (λ row. row_hash L k (row_of wanted width row))
          (row_hash L k (replicate width (blank_cell L k))) in
      emit_shift top bottom lines
      ++ repaint_rows width (looked_at named top bottom lines) height 0
          (shifted width top bottom lines held) wanted

  unfoldable pub same_geometry : GridState L → GridView L → Bool
  same_geometry previous current =
      same_size previous.cells current.cells
      && length previous.grid == area current.cells
      && length current.grid == area current.cells

  unfoldable pub emit_resize : Size → List (GridOp L)
  emit_resize cells =
      GridOp.resize
        (record { columns = extent cells.width % 2 ^ 16; rows = extent cells.height % 2 ^ 16 })
      ∷ []

  unfoldable pub runs_of_lines : List (List L.Cell) → List (List (CellRun L))
  runs_of_lines [] = []
  runs_of_lines (line ∷ lines) = to_runs L t line ∷ runs_of_lines lines

  unfoldable pub emit_push : List (List L.Cell) → List (GridOp L)
  emit_push [] = []
  emit_push (line ∷ lines) =
      GridOp.scrollback_push (record { lines = runs_of_lines (line ∷ lines) }) ∷ []

  unfoldable pub cursor_op : GridCursor → GridOp L
  cursor_op cursor = GridOp.cursor (record {
    column = cursor.column;
    row = cursor.row;
    style = cursor.style;
    visible = cursor.visible;
    blink = cursor.blink;
  })

  unfoldable pub emit_cursor : GridCursor → GridCursor → List (GridOp L)
  emit_cursor previous current = if same_cursor previous current then [] else cursor_op current ∷ []

  unfoldable pub emit_modes : ℕ → ℕ → List (GridOp L)
  emit_modes previous current =
      if previous == current
      then []
      else GridOp.modes (record { changed_mask = bit_xor previous current; values = current }) ∷ []

  unfoldable pub emit_title : List ℕ → List ℕ → List (GridOp L)
  emit_title previous current =
      if same_text previous current then [] else GridOp.title (record { title = current }) ∷ []

  unfoldable pub emit_grid : GridState L → GridView L → List RowDamage → List (GridOp L)
  emit_grid previous current damaged =
      if not (same_geometry previous current)
      then emit_every_row current
      else if ltb 0 (extent current.cells.width) && ltb 0 (extent current.cells.height)
      then emit_changes (extent current.cells.width) (extent current.cells.height)
          (examined damaged) previous.grid current.grid
      else []

  unfoldable pub diff :
      GridState L → GridView L → List (List L.Cell) → List RowDamage → List (GridOp L)
  diff previous current pushed damaged =
      (if same_geometry previous current then [] else emit_resize current.cells)
      ++ (emit_push pushed
          ++ (emit_grid previous current damaged
              ++ (emit_cursor previous.cursor current.cursor
                  ++ (emit_modes previous.modes current.modes
                      ++ emit_title previous.title current.title))))

  unfoldable pub full_repaint : GridView L → List (List L.Cell) → List (GridOp L)
  full_repaint current pushed =
      emit_resize current.cells
      ++ (emit_push pushed
          ++ (emit_every_row current
              ++ (cursor_op current.cursor
                  ∷ GridOp.modes (record { changed_mask = 0xffffffff; values = current.modes })
                  ∷ GridOp.title (record { title = current.title })
                  ∷ [])))

  -- The view of a whole state, and `diff` of two of them.
  unfoldable pub view_of : GridState L → GridView L
  view_of s = record {
    cells = s.cells;
    grid = s.grid;
    cursor = s.cursor;
    modes = s.modes;
    title = s.title;
  }

  unfoldable pub diff_states : GridState L → GridState L → List (List L.Cell) → List (GridOp L)
  diff_states previous current pushed = diff previous (view_of current) pushed []
