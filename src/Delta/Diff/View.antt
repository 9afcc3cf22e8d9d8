-- ===== src/Delta/Diff/View.antt =====
-- A mirror that performs what `full_repaint` of src/common/grid_delta.cpp sends holds what the server
-- has, whatever it held.
use ckmux.Prelude.{
  ℕ, ◌*◌, ◌^◌, ◌≤◌, ◌<◌, ◌≡◌, refl, sym, ap, ◌∙◌, inl, inr, true, List, [], ◌∷◌, ◌++◌, length,
  length-replicate, All, ==_refl, Bool-cases, arith,
}
use ckmux.Prelude.Grid.{from_first}
use ckmux.Proto.CellLib.{CellLib}
use ckmux.Proto.Grid.{GridOp}
use ckmux.Proto.Runs.{CellTests}
use ckmux.Proto.Runs.RoundTrip.{CellTestsLaws}
use ckmux.Delta.State.{
  area, same_size, StyleLib, GridState, relaid, resize_state, push_scrollback_lines,
}
use ckmux.Delta.State.Screen.{
  push_scrollback_lines-SameScreen, resize_state-same, resize_state-relaid, cells-resize_state,
  same_size→eq,
}
use ckmux.Delta.Repaint.{every_row}
use ckmux.Delta.Diff.{
  GridView, emit_resize, emit_push, emit_every_row, emit_cursor, emit_modes, emit_title,
  full_repaint,
}
use ckmux.Delta.Diff.Pieces.{
  IsLine, emit_resize-Delivers, emit_push-Delivers, cursor-Delivers, emit_cursor-Delivers,
  emit_modes-Delivers, all_modes-Delivers, title-Delivers, emit_title-Delivers,
}
use ckmux.Delta.Apply.{apply_delta}
use ckmux.Delta.Apply.Delivers.{
  screen, with_grid, Delivers, Delivers-same, Delivers-append, apply_delta-Delivers,
}
use ckmux.Delta.Apply.Repainted.{every_row-Delivers}

-- A view of a terminal of some columns and rows, no more than the protocol carries.
pub record IsView (L : CellLib) (width height : ℕ) (view : GridView L) : Type 0 where
  pub some_columns : 0 < width
  pub columns : width ≤ 1000
  pub some_rows : 0 < height
  pub rows : height ≤ 1000
  pub cells : view.cells ≡ screen width height
  pub grid : length view.grid ≡ height * width
  pub cursor_row : view.cursor.row < height
  pub cursor_column : view.cursor.column ≤ width
  pub modes : view.modes < 2 ^ 32

module _ (L : CellLib) where
  -- A mirror whose screen is the view's.
  abbrev pub shows : GridState L → GridView L → GridState L
  shows s view = record s {
    grid = view.grid;
    cursor = view.cursor;
    modes = view.modes;
    title = view.title;
  }

module _ (L : CellLib) (k : StyleLib L) (t : CellTests L) (laws : CellTestsLaws L t)
    (width height : ℕ) (current : GridView L) (view : IsView L width height current) where
  -- What follows the grid.
  pub rest-Delivers :
      (ops : List (GridOp L)) (s : GridState L) (previous : GridState L)
      → s.cells ≡ screen width height
      → (previous.cursor ≡ current.cursor → s.cursor ≡ current.cursor)
      → s.modes ≡ previous.modes
      → s.title ≡ previous.title
      → previous.modes < 2 ^ 32
      → Delivers L k ops s (with_grid L s current.grid)
      → Delivers L k
          (ops
            ++ (emit_cursor L k t previous.cursor current.cursor
                ++ (emit_modes L k t previous.modes current.modes
                    ++ emit_title L k t previous.title current.title)))
          s
          (shows L s current)
  rest-Delivers ops s previous size there modes title small grid =
      let s₁ = with_grid L s current.grid in
      let s₂ : GridState L = record s₁ { cursor = current.cursor } in
      let s₃ : GridState L = record s₂ { modes = current.modes } in
      Delivers-append L k ops _ s s₁ _ grid (
        Delivers-append L k _ _ s₁ s₂ _
          (emit_cursor-Delivers L k t laws s₁ width height previous.cursor current.cursor size
            view.cursor_row view.cursor_column there)
          (Delivers-append L k _ _ s₂ s₃ _
            (Delivers-same L k _ _ _ _ _ _ (ap (λ m. emit_modes L k t m current.modes) (sym modes))
              refl refl
              (emit_modes-Delivers L k t laws s₂ current.modes (rw modes small) view.modes))
            (Delivers-same L k _ _ _ _ _ _ (ap (λ m. emit_title L k t m current.title) (sym title))
              refl refl (emit_title-Delivers L k t laws s₃ current.title))))

  every : emit_every_row L k t current ≡ every_row L t width height 0 current.grid
  unfolding emit_every_row
  every =
      let full : length current.grid ≡ width * height = view.grid ∙ omega arith in
      rw (view.cells, full, ==_refl (width * height)) refl

  -- All rows, to a mirror of the right size.
  pub emit_every_row-Delivers :
      (s : GridState L)
      → s.cells ≡ screen width height
      → length s.grid ≡ height * width
      → Delivers L k (emit_every_row L k t current) s (with_grid L s current.grid)
  emit_every_row-Delivers s size has =
      Delivers-same L k _ _ _ _ _ _ every
        (ap (with_grid L s) (from_first width s.grid current.grid)) refl
        (every_row-Delivers L k t laws s width height size view.columns view.rows height 0 s.grid
          current.grid (omega arith) has view.grid)

  -- The mirror after a resize, whose history then takes the pushed lines in.
  abbrev pub resized : GridState L → List (List L.Cell) → GridState L
  resized s pushed = push_scrollback_lines L k (resize_state L k s current.cells) pushed

  pub cells-resized :
      (s : GridState L) (pushed : List (List L.Cell))
      → (resized s pushed).cells ≡ screen width height
  cells-resized s pushed =
      (push_scrollback_lines-SameScreen L k (resize_state L k s current.cells) pushed).cells
      ∙ cells-resize_state L k s current.cells
      ∙ view.cells

  -- After a resize to another size the grid is blank, and has that size.
  pub length-resized :
      (s : GridState L) (pushed : List (List L.Cell))
      → length s.grid ≡ area s.cells
      → length (resized s pushed).grid ≡ height * width
  unfolding relaid
  length-resized s pushed e =
      let pushes = push_scrollback_lines-SameScreen L k (resize_state L k s current.cells) pushed in
      elim (Bool-cases (same_size s.cells current.cells)) [
        | inl same ↦
            let there = same_size→eq s.cells current.cells same ∙ view.cells in
            let stays = resize_state-same L k s current.cells same in
            ap length (pushes.grid ∙ ap (λ r. r.grid) stays) ∙ e ∙ ap area there ∙ omega arith
        | inr other ↦
            ap length (pushes.grid ∙ (resize_state-relaid L k s current.cells other).grid)
            ∙ length-replicate (area current.cells) _
            ∙ ap area view.cells
            ∙ omega arith
      ]

  pub push-Delivers :
      (s : GridState L) (pushed : List (List L.Cell))
      → All (IsLine width) pushed
      → Delivers L k (emit_push L k t pushed) (resize_state L k s current.cells) (resized s pushed)
  push-Delivers s pushed lines =
      emit_push-Delivers L k t laws _ width height pushed
        (cells-resize_state L k s current.cells ∙ view.cells) view.columns lines

  pub resize-Delivers :
      (s : GridState L)
      → Delivers L k (emit_resize L k t current.cells) s (resize_state L k s current.cells)
  resize-Delivers s = rw view.cells (
      emit_resize-Delivers L k t laws s width height view.some_columns view.columns view.some_rows
        view.rows)

  -- For a view of 1 to 1000 columns and rows with the cursor in it, and pushed lines that have a cell
  -- and no more than a row: whatever a mirror held whose grid has its size, a full repaint is
  -- accepted, and then its screen is the view's, and its history its own at the view's size with the
  -- pushed lines behind.
  pub apply_delta-full_repaint :
      (s : GridState L) (pushed : List (List L.Cell))
      → length s.grid ≡ area s.cells
      → All (IsLine width) pushed
      → apply_delta L k (full_repaint L k t current pushed) s
        ≡ record { accepted = true; mirror = shows L (resized s pushed) current }
  unfolding full_repaint
  apply_delta-full_repaint s pushed sized lines =
      let size = cells-resized s pushed in
      let s₁ = with_grid L (resized s pushed) current.grid in
      let s₂ : GridState L = record s₁ { cursor = current.cursor } in
      let s₃ : GridState L = record s₂ { modes = current.modes } in
      apply_delta-Delivers L k _ s _ sized (
        Delivers-append L k _ _ _ _ _ (resize-Delivers s) (
          Delivers-append L k _ _ _ _ _ (push-Delivers s pushed lines) (
            Delivers-append L k _ _ _ s₁ _
              (emit_every_row-Delivers (resized s pushed) size (length-resized s pushed sized))
              (Delivers-append L k (_ ∷ []) _ s₁ s₂ _
                (cursor-Delivers L k t laws s₁ width height current.cursor size view.cursor_row
                  view.cursor_column)
                (Delivers-append L k (_ ∷ []) _ s₂ s₃ _
                  (all_modes-Delivers L k t laws s₂ current.modes view.modes)
                  (title-Delivers L k t laws s₃ current.title))))))
