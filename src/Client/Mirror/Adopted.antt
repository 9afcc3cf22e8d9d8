-- ===== src/Client/Mirror/Adopted.antt =====
-- Adopting a snapshot, TerminalMirror::adopt of src/client/mirror.cpp.
use ckmux.Prelude.{
  ℕ, ◌*◌, ◌≡◌, refl, sym, ap, ◌∙◌, true, false, ◌||◌, List, [], ◌∷◌, length, ltb, ◌==◌,
  le→ltb_false, Bool-cases, inl, inr, arith,
}
use ckmux.Proto.CellLib.{CellLib}
use ckmux.Proto.Cells.{CellRun}
use ckmux.Proto.Limits.{max_grid_columns, max_grid_rows}
use ckmux.Proto.Runs.{CellTests, to_runs, total_cells, from_runs}
use ckmux.Proto.Runs.RoundTrip.{CellTestsLaws}
use ckmux.Proto.State.{TerminalState}
use ckmux.Delta.State.{Size, extent, StyleLib, GridState, blank_state, push_scrollback_line}
use ckmux.Delta.State.Screen.{
  SameScreen, SameScreen-same, SameScreen-trans, push_scrollback_line-SameScreen,
}
use ckmux.Delta.Diff.{GridView, view_of}
use ckmux.Delta.Diff.View.{IsView}
use ckmux.Delta.Apply.Delivers.{screen}
use ckmux.Delta.Encode.{DecodedGrid, encode_grid, decode_grid}
use ckmux.Delta.Encode.RoundTrip.{decode_grid-encode_grid}
use ckmux.Client.Mirror.{TerminalMirror, adopt_lines, adopt_state, adopt}

module _ (L : CellLib) (k : StyleLib L) (t : CellTests L) where
  -- A snapshot of a view: its size, its grid as runs, its cursor, its modes and its title.
  pub record SaysView (width height : ℕ) (view : GridView L) (snapshot : TerminalState L)
      : Type 0 where
    pub columns : snapshot.columns ≡ width
    pub rows : snapshot.rows ≡ height
    pub grid : snapshot.grid ≡ to_runs L t view.grid
    pub column : snapshot.cursor.column ≡ view.cursor.column
    pub row : snapshot.cursor.row ≡ view.cursor.row
    pub style : snapshot.cursor.style ≡ view.cursor.style
    pub visible : snapshot.cursor.visible ≡ view.cursor.visible
    pub blink : snapshot.cursor.blink ≡ view.cursor.blink
    pub modes : snapshot.modes ≡ view.modes
    pub title : snapshot.title ≡ view.title

  adopt_lines-SameScreen :
      (s : GridState L) (lines : List (List (CellRun L))) → SameScreen L s (adopt_lines L k s lines)
  unfolding adopt_lines
  adopt_lines-SameScreen s [] = SameScreen-same L k _ _ _ _ _ _ _ _ _ _
  adopt_lines-SameScreen s (line ∷ lines) =
      elim (Bool-cases
        (total_cells L line == 0 || ltb (extent s.cells.width) (total_cells L line))) [
          | inl wrong ↦ rw wrong (adopt_lines-SameScreen s lines)
          | inr good ↦ rw good (
              SameScreen-trans L k s (push_scrollback_line L k s (from_runs L line)) _
                (push_scrollback_line-SameScreen L k s (from_runs L line))
                (adopt_lines-SameScreen (push_scrollback_line L k s (from_runs L line)) lines))
        ]

  abbrev view_with : GridView L → Size → List L.Cell → GridView L
  view_with view cells grid = record {
    cells = cells;
    grid = grid;
    cursor = view.cursor;
    modes = view.modes;
    title = view.title;
  }

  adopt_state-view :
      CellTestsLaws L t
      → (width height : ℕ) (s : GridState L) (view : GridView L) (snapshot : TerminalState L)
      → IsView L width height view
      → SaysView width height view snapshot
      → view_of L k t (adopt_state L k s snapshot) ≡ view
  unfolding adopt_state view_of encode_grid
  adopt_state-view laws width height s view snapshot h says =
      let blank = blank_state L k (screen width height) s.max_scrollback_lines in
      let source : GridState L = record blank { cells = screen width height; grid = view.grid } in
      let sized : length view.grid ≡ width * height = h.grid ∙ omega arith in
      let decoded =
        decode_grid-encode_grid L t laws source blank width height h.columns h.rows refl sized in
      let filled : (decode_grid L (to_runs L t view.grid) (screen width height) blank).state
          ≡ record blank { cells = screen width height; grid = view.grid } =
        ap (λ (d : DecodedGrid L). d.state) decoded in
      let lines =
        adopt_lines-SameScreen
          (decode_grid L (to_runs L t view.grid) (screen width height) blank).state
          snapshot.scrollback in
      rw
        (
          says.columns,
          says.rows,
          says.grid,
          says.column,
          says.row,
          says.style,
          says.visible,
          says.blink,
          says.modes,
          says.title,
          lines.cells ∙ ap (λ (g : GridState L). g.cells) filled ∙ sym h.cells,
          lines.grid ∙ ap (λ (g : GridState L). g.grid) filled,
        )
        refl

  -- Given the laws of the tests for equal cells, a mirror takes a snapshot that says what a view of 1
  -- to 1000 columns and rows with the cursor in it shows, whatever the mirror held, and whatever
  -- lines of history come with the snapshot: its screen is the view's then, it needs no other
  -- snapshot, and its number is 0.
  pub adopt-view :
      CellTestsLaws L t
      → (width height : ℕ) (m : TerminalMirror L) (view : GridView L) (snapshot : TerminalState L)
      → IsView L width height view
      → SaysView width height view snapshot
      → ((adopt L k m snapshot).accepted ≡ true)
        × ((view_of L k t (adopt L k m snapshot).mirror.state ≡ view)
            × (((adopt L k m snapshot).mirror.needs_snapshot ≡ false)
                × ((adopt L k m snapshot).mirror.sequence ≡ 0)))
  unfolding adopt
  adopt-view laws width height m view snapshot h says =
      let narrow : ltb max_grid_columns snapshot.columns ≡ false =
        rw says.columns (le→ltb_false max_grid_columns width h.columns) in
      let flat : ltb max_grid_rows snapshot.rows ≡ false =
        rw says.rows (le→ltb_false max_grid_rows height h.rows) in
      rw (narrow, flat)
        (refl, (adopt_state-view laws width height m.state view snapshot h says, (refl, refl)))
