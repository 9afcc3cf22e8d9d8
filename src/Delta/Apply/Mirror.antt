-- ===== src/Delta/Apply/Mirror.antt =====
-- A mirror of src/common/grid_delta.cpp that is in order, and what keeps it so.
use ckmux.Prelude.{
  ℕ, ◌*◌, ◌≤◌, ◌<◌, ◌≡◌, refl, sym, ap, ◌∙◌, inl, inr, Bool, true, false, none, some, List, [], ◌∷◌,
  length, length-replicate, if◌then◌else◌, Bool-cases, arith,
}
use Prim.Native.Nat.{max}
use ckmux.Proto.CellLib.{CellLib}
use ckmux.Proto.Cells.{CellRun}
use ckmux.Proto.Runs.{from_runs}
use ckmux.Delta.State.{
  GridCursor, Size, extent, same_size, StyleLib, GridState, clamp_cursor, relaid, resize_state,
  push_scrollback_line, push_scrollback_lines,
}
use ckmux.Delta.State.Screen.{
  SameScreen, push_scrollback_lines-SameScreen, resize_state-relaid, resize_state-same,
}
use ckmux.Delta.State.History.{
  HasHistory, push_scrollback_lines-HasHistory, resize_state-HasHistory,
}
use ckmux.Delta.Apply.{push_runs}
use ckmux.Delta.Apply.Delivers.{screen}

clamp_cursor-column :
    (width height : ℕ) (cursor : GridCursor)
    → width ≤ 1000
    → (clamp_cursor (screen width height) cursor).column ≤ width
unfolding clamp_cursor
clamp_cursor-column width height cursor h = ground arith

clamp_cursor-row :
    (width height : ℕ) (cursor : GridCursor)
    → 0 < height
    → height ≤ 1000
    → (clamp_cursor (screen width height) cursor).row < height
unfolding clamp_cursor
clamp_cursor-row width height cursor a h = ground arith

pub some_size : (a b : Size) → some a ≡ some b → a ≡ b
some_size a b e = cc

-- What a guard that lets an operation pass says.
pub passed :
    (guard : Bool) (size after : Size)
    → (if guard then none else some size) ≡ some after
    → (guard ≡ false) × (size ≡ after)
passed true size after e = cc
passed false size after e = (refl, some_size size after e)

module _ (L : CellLib) (k : StyleLib L) where
  -- A mirror that is in order.
  pub record IsMirror (s : GridState L) : Type 0 where
    pub width : ℕ
    pub height : ℕ
    pub cells : s.cells ≡ screen width height
    pub grid : length s.grid ≡ height * width
    pub cursor_column : s.cursor.column ≤ width
    pub cursor_row : s.cursor.row < height
    pub history : HasHistory L k s

  -- The history is that of the buffer, its start, the capacity and the width.
  pub same_history :
      (s after : GridState L)
      → after.cells ≡ s.cells
      → after.scrollback ≡ s.scrollback
      → after.scrollback_start ≡ s.scrollback_start
      → after.max_scrollback_lines ≡ s.max_scrollback_lines
      → HasHistory L k s
      → HasHistory L k after
  same_history s after a b c d h = record {
    total = h.total;
    laid = record {
      size =
          ap length b ∙ h.laid.size ∙ ap (λ (n : Size). h.total * max 1 (extent n.width)) (sym a);
      start = rw c h.laid.start;
    };
    live = rw (c, d) h.live;
    dead = rw (c, d) h.dead;
  }

  -- The screen does not see a push.
  SameScreen-IsMirror :
      (s after : GridState L)
      → SameScreen L s after
      → HasHistory L k after
      → IsMirror s
      → IsMirror after
  SameScreen-IsMirror s after same history h = record {
    width = h.width;
    height = h.height;
    cells = same.cells ∙ h.cells;
    grid = ap length same.grid ∙ h.grid;
    cursor_column = rw (ap (λ c. c.column) same.cursor) h.cursor_column;
    cursor_row = rw (ap (λ c. c.row) same.cursor) h.cursor_row;
    history = history;
  }

  lines_of : List (List (CellRun L)) → List (List L.Cell)
  lines_of [] = []
  lines_of (line ∷ lines) = from_runs L line ∷ lines_of lines

  push_runs-lines :
      (s : GridState L) (lines : List (List (CellRun L)))
      → push_runs L k s lines ≡ push_scrollback_lines L k s (lines_of lines)
  unfolding push_runs push_scrollback_lines lines_of
  push_runs-lines s [] = refl
  push_runs-lines s (line ∷ lines) =
      push_runs-lines (push_scrollback_line L k s (from_runs L line)) lines

  pub push_runs-IsMirror :
      (s : GridState L) (lines : List (List (CellRun L)))
      → IsMirror s
      → IsMirror (push_runs L k s lines)
  push_runs-IsMirror s lines h = rw (push_runs-lines s lines) (
      SameScreen-IsMirror s _ (push_scrollback_lines-SameScreen L k s (lines_of lines))
        (push_scrollback_lines-HasHistory L k s (lines_of lines) h.history) h)

  pub cells-push_runs :
      (s : GridState L) (lines : List (List (CellRun L))) → (push_runs L k s lines).cells ≡ s.cells
  cells-push_runs s lines =
      ap (λ r. r.cells) (push_runs-lines s lines)
      ∙ (push_scrollback_lines-SameScreen L k s (lines_of lines)).cells

  -- A resize to a size that is checked.
  pub resize_state-IsMirror :
      (s : GridState L) (width height : ℕ)
      → 0 < height
      → width ≤ 1000
      → height ≤ 1000
      → IsMirror s
      → IsMirror (resize_state L k s (screen width height))
  unfolding relaid
  resize_state-IsMirror s width height a b c h =
      elim (Bool-cases (same_size s.cells (screen width height))) [
        | inl same ↦ rw (resize_state-same L k s (screen width height) same) h
        | inr other ↦
            let kept = resize_state-relaid L k s (screen width height) other in
            record {
              width = width;
              height = height;
              cells = kept.cells;
              grid = ap length kept.grid ∙ length-replicate (width * height) _ ∙ omega arith;
              cursor_column =
                  rw (ap (λ c. c.column) kept.cursor) (clamp_cursor-column width height s.cursor b);
              cursor_row =
                  rw (ap (λ c. c.row) kept.cursor) (clamp_cursor-row width height s.cursor a c);
              history = resize_state-HasHistory L k s (screen width height) h.history;
            }
      ]

  -- A screen with other cells, as many as before.
  pub with_cells-IsMirror :
      (s : GridState L) (grid : List L.Cell)
      → length grid ≡ length s.grid
      → IsMirror s
      → IsMirror (record s { grid = grid })
  with_cells-IsMirror s grid e h = record {
    width = h.width;
    height = h.height;
    cells = h.cells;
    grid = e ∙ h.grid;
    cursor_column = h.cursor_column;
    cursor_row = h.cursor_row;
    history = same_history s _ refl refl refl refl h.history;
  }
