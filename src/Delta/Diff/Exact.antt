-- ===== src/Delta/Diff/Exact.antt =====
-- A mirror that performs what `diff` of src/common/grid_delta.cpp sends holds what the server has.
use ckmux.Prelude.{
  ℕ, ◌-◌, ◌^◌, ◌≤◌, ◌<◌, ◌≡◌, refl, sym, ap, ◌∙◌, inl, inr, true, false, List, [], length, All,
  ==_refl, lt→ltb, if◌then◌else◌, Bool-cases, le→ltb_false, arith,
}
use ckmux.Proto.CellLib.{CellLib}
use ckmux.Proto.Runs.{CellTests}
use ckmux.Proto.Runs.RoundTrip.{CellTestsLaws}
use ckmux.Delta.State.{
  area, same_size, GridCursor, StyleLib, GridState, relaid, clamp_cursor, resize_state,
  push_scrollback_lines,
}
use ckmux.Delta.State.Screen.{
  push_scrollback_lines-SameScreen, resize_state-same, resize_state-relaid, same_size→eq,
}
use ckmux.Delta.Rows.{row_of}
use ckmux.Delta.Diff.{
  GridView, RowDamage, examined, same_geometry, emit_resize, emit_grid, emit_every_row,
  emit_changes, diff,
}
use ckmux.Delta.Diff.Changes.{emit_changes-Delivers}
use ckmux.Delta.Diff.Pieces.{IsLine}
use ckmux.Delta.Diff.View.{
  IsView, shows, rest-Delivers, emit_every_row-Delivers, resized, cells-resized, length-resized,
  push-Delivers, resize-Delivers,
}
use ckmux.Delta.Apply.{apply_delta}
use ckmux.Delta.Apply.Delivers.{
  screen, with_grid, Delivers, Delivers-nil, Delivers-same, Delivers-append, apply_delta-Delivers,
}

-- A cursor in a grid is where it is.
clamp_cursor-same :
    (width height : ℕ) (cursor : GridCursor)
    → cursor.column ≤ width
    → cursor.row < height
    → clamp_cursor (screen width height) cursor ≡ cursor
unfolding clamp_cursor
clamp_cursor-same width height cursor h k =
    rw (le→ltb_false width cursor.column h, le→ltb_false (height - 1) cursor.row (omega arith)) refl

module _ (L : CellLib) (k : StyleLib L) (t : CellTests L) (laws : CellTestsLaws L t)
    (width height : ℕ) (current : GridView L) (view : IsView L width height current)
    (previous : GridState L) (sized : length previous.grid ≡ area previous.cells) where
  same_geometry-size : same_geometry L k t previous current ≡ same_size previous.cells current.cells
  unfolding same_geometry
  same_geometry-size = elim (Bool-cases (same_size previous.cells current.cells)) [
    | inl same ↦
        let cells = same_size→eq previous.cells current.cells same in
        let full : length current.grid ≡ area current.cells =
          view.grid ∙ (omega arith) ∙ sym (ap area view.cells) in
        rw (same, sized, full, ap area cells, ==_refl (area current.cells)) refl
    | inr other ↦ rw other refl
  ]

  -- A cursor that is not sent is where it is wanted.
  cursor-resized :
      (pushed : List (List L.Cell))
      → previous.cursor ≡ current.cursor
      → (resized L k t laws width height current view previous pushed).cursor ≡ current.cursor
  unfolding relaid
  cursor-resized pushed e =
      (push_scrollback_lines-SameScreen L k (resize_state L k previous current.cells) pushed).cursor
      ∙ elim (Bool-cases (same_size previous.cells current.cells)) [
        | inl same ↦ ap (λ r. r.cursor) (resize_state-same L k previous current.cells same) ∙ e
        | inr other ↦
            (resize_state-relaid L k previous current.cells other).cursor
            ∙ ap (clamp_cursor current.cells) e
            ∙ ap (λ size. clamp_cursor size current.cursor) view.cells
            ∙ clamp_cursor-same width height current.cursor view.cursor_column view.cursor_row
      ]

  modes-resized : (resize_state L k previous current.cells).modes ≡ previous.modes
  unfolding relaid
  modes-resized = elim (Bool-cases (same_size previous.cells current.cells)) [
    | inl same ↦ ap (λ r. r.modes) (resize_state-same L k previous current.cells same)
    | inr other ↦ (resize_state-relaid L k previous current.cells other).modes
  ]

  title-resized : (resize_state L k previous current.cells).title ≡ previous.title
  unfolding relaid
  title-resized = elim (Bool-cases (same_size previous.cells current.cells)) [
    | inl same ↦ ap (λ r. r.title) (resize_state-same L k previous current.cells same)
    | inr other ↦ (resize_state-relaid L k previous current.cells other).title
  ]

  emit_grid-Delivers :
      (pushed : List (List L.Cell)) (damaged : List RowDamage)
      → (same_size previous.cells current.cells ≡ true
          → (row : ℕ) → row < height
          → examined damaged row ≡ false
          → row_of previous.grid width row ≡ row_of current.grid width row)
      → Delivers L k
          (emit_grid L k t previous current damaged)
          (resized L k t laws width height current view previous pushed)
          (with_grid L (resized L k t laws width height current view previous pushed) current.grid)
  unfolding emit_grid
  emit_grid-Delivers pushed damaged right =
      let s = resized L k t laws width height current view previous pushed in
      let size = cells-resized L k t laws width height current view previous pushed in
      elim (Bool-cases (same_size previous.cells current.cells)) [
        | inl same ↦
            let held : s.grid ≡ previous.grid =
              (push_scrollback_lines-SameScreen L k (resize_state L k previous current.cells)
                pushed).grid
              ∙ ap (λ r. r.grid) (resize_state-same L k previous current.cells same) in
            let ops : emit_grid L k t previous current damaged
                ≡ emit_changes L k t width height (examined damaged) previous.grid current.grid =
              rw
                (
                  same_geometry-size,
                  same,
                  view.cells,
                  lt→ltb 0 width view.some_columns,
                  lt→ltb 0 height view.some_rows,
                )
                refl in
            let has =
              sym (ap length held)
              ∙ length-resized L k t laws width height current view previous pushed sized in
            Delivers-same L k _ _ _ _ _ _ ops (ap (with_grid L s) held) refl (
              emit_changes-Delivers L k t laws s width height size view.columns view.rows
                (examined damaged) previous.grid current.grid has view.grid (right same))
        | inr other ↦
            let ops : emit_grid L k t previous current damaged ≡ emit_every_row L k t current =
              rw (same_geometry-size, other) refl in
            Delivers-same L k _ _ _ _ _ _ ops refl refl (
              emit_every_row-Delivers L k t laws width height current view s size
                (length-resized L k t laws width height current view previous pushed sized))
      ]

  -- The size is sent when it has changed.
  first-Delivers :
      Delivers L k
        (if same_geometry L k t previous current then [] else emit_resize L k t current.cells)
        previous
        (resize_state L k previous current.cells)
  first-Delivers = elim (Bool-cases (same_size previous.cells current.cells)) [
    | inl same ↦
        rw (same_geometry-size, same)
          (Delivers-same L k _ _ _ _ _ _ refl refl
            (resize_state-same L k previous current.cells same) (Delivers-nil L k previous))
    | inr other ↦
        rw (same_geometry-size, other)
          (resize-Delivers L k t laws width height current view previous)
  ]

  -- For a view of 1 to 1000 columns and rows with the cursor in it, pushed lines that have a cell and
  -- no more than a row, and a previous state whose grid has its size and whose modes have 32 bits: if
  -- the damage report names every row that differs, in case the size is the same, then a mirror that
  -- holds the previous state accepts the difference, and then its screen is the view's, and its
  -- history the previous one at the view's size with the pushed lines behind.
  pub apply_delta-diff :
      (pushed : List (List L.Cell)) (damaged : List RowDamage)
      → previous.modes < 2 ^ 32
      → All (IsLine width) pushed
      → (same_size previous.cells current.cells ≡ true
          → (row : ℕ) → row < height
          → examined damaged row ≡ false
          → row_of previous.grid width row ≡ row_of current.grid width row)
      → apply_delta L k (diff L k t previous current pushed damaged) previous ≡ record {
        accepted = true;
        mirror =
            shows L
              (push_scrollback_lines L k (resize_state L k previous current.cells) pushed)
              current;
      }
  unfolding diff
  apply_delta-diff pushed damaged small lines right =
      let resizes = resize_state L k previous current.cells in
      let pushes = push_scrollback_lines-SameScreen L k resizes pushed in
      apply_delta-Delivers L k _ previous _ sized (
        Delivers-append L k _ _ _ _ _ first-Delivers (
          Delivers-append L k _ _ _ _ _
            (push-Delivers L k t laws width height current view previous pushed lines)
            (rest-Delivers L k t laws width height current view _ _ previous
              (cells-resized L k t laws width height current view previous pushed)
              (cursor-resized pushed) (pushes.modes ∙ modes-resized) (pushes.title ∙ title-resized)
              small (emit_grid-Delivers pushed damaged right))))
