-- ===== src/Delta/State.antt =====
-- What a mirror holds of a terminal, and its history: `GridState` of src/common/grid_delta.hpp with
-- the functions of src/common/grid_delta.cpp that resize it and push lines into its history. A
-- buffer is the list of its cells, row after row.
pub mod Screen
pub mod History
use Prim.Native.Nat.{max}
use ckmux.Prelude.{
  ℕ, zero, suc, ◌+◌, ◌-◌, ◌*◌, ◌/◌, ◌%◌, ◌^◌, Bool, true, false, ◌&&◌, List, [], ◌∷◌, ◌++◌, length,
  take, drop, replicate, leb, ltb, ◌==◌, if◌then◌else◌,
}
use ckmux.Prelude.Int.{ℤ, pos, negsuc}
use ckmux.Proto.CellLib.{CellLib}

-- `ckv::Size` (cvision/core/geometry.hpp), two ints.
pub record Size : Type 0 where
  pub width : ℤ
  pub height : ℤ

-- std::max(0, value)
abbrev pub extent : ℤ → ℕ
extent (pos n) = n
extent (negsuc n) = 0

abbrev pub same_int : ℤ → ℤ → Bool
same_int (pos a) (pos b) = a == b
same_int (negsuc a) (negsuc b) = a == b
same_int _ _ = false

abbrev pub same_size : Size → Size → Bool
same_size a b = same_int a.width b.width && same_int a.height b.height

-- The cells that a grid of a size has.
abbrev pub area : Size → ℕ
area cells = extent cells.width * extent cells.height

pub record GridCursor : Type 0 where
  pub column : ℕ
  pub row : ℕ
  pub style : ℕ
  pub visible : ℕ
  pub blink : ℕ

abbrev pub same_cursor : GridCursor → GridCursor → Bool
same_cursor a b =
    (a.column == b.column)
    && (a.row == b.row)
    && (a.style == b.style)
    && (a.visible == b.visible)
    && (a.blink == b.blink)

abbrev pub first_cursor : GridCursor
first_cursor = record { column = 0; row = 0; style = 0; visible = 1; blink = 0 }

-- What else of ckVision's style is needed: a fresh one, and its underline.
pub record StyleLib (L : CellLib) : Type 0 where
  pub default_style : L.Style
  pub underline : L.Style → ℕ
  pub underline_color : L.Style → L.Color

pub record GridState (L : CellLib) : Type 0 where
  pub cells : Size
  pub grid : List L.Cell
  pub scrollback : List L.Cell
  -- In lines, not cells: what is before it in the buffer is dead.
  pub scrollback_start : ℕ
  pub max_scrollback_lines : ℕ
  pub cursor : GridCursor
  pub modes : ℕ
  pub title : List ℕ

-- `count` rows of `width` cells each, from the front.
abbrev pub rows_of {ℓ} : {A : Type ℓ} → ℕ → ℕ → List A → List (List A)
rows_of zero width cells = []
rows_of (suc count) width cells = take width cells ∷ rows_of count width (drop width cells)

-- The cursor comes with the grid.
unfoldable pub clamp_cursor : Size → GridCursor → GridCursor
clamp_cursor cells cursor =
    let last_column = extent cells.width in
    let last_row = extent cells.height - 1 in
    record cursor {
      column = if ltb last_column cursor.column then last_column % 2 ^ 16 else cursor.column;
      row = if ltb last_row cursor.row then last_row % 2 ^ 16 else cursor.row;
    }

module _ (L : CellLib) (k : StyleLib L) where
  abbrev pub blank_cell : L.Cell
  blank_cell = L.from_grapheme (32 ∷ []) k.default_style

  unfoldable pub blank_state : Size → ℕ → GridState L
  blank_state cells max_scrollback_lines = record {
    cells = cells;
    grid = replicate (area cells) blank_cell;
    scrollback = [];
    scrollback_start = 0;
    max_scrollback_lines = max_scrollback_lines;
    cursor = first_cursor;
    modes = 0;
    title = [];
  }

  abbrev pub scrollback_width : GridState L → ℕ
  scrollback_width s = max 1 (extent s.cells.width)

  unfoldable pub scrollback_lines : GridState L → ℕ
  scrollback_lines s =
      let total = length s.scrollback / scrollback_width s in
      if ltb s.scrollback_start total then total - s.scrollback_start else 0

  unfoldable pub scrollback_cells : GridState L → List L.Cell
  scrollback_cells s =
      let lines = scrollback_lines s in
      let width = scrollback_width s in
      if lines == 0
      then []
      else take (lines * width) (drop (s.scrollback_start * width) s.scrollback)

  -- The dead prefix grows by what is over the capacity.
  unfoldable pub forget_oldest : GridState L → GridState L
  forget_oldest s =
      let live = scrollback_lines s in
      if ltb s.max_scrollback_lines live
      then record s { scrollback_start = s.scrollback_start + (live - s.max_scrollback_lines) }
      else s

  -- It is erased once it is as large as what is kept.
  unfoldable pub reclaim : GridState L → GridState L
  reclaim s =
      if leb (scrollback_lines s) s.scrollback_start && ltb 0 s.scrollback_start
      then record s {
        scrollback = drop (s.scrollback_start * scrollback_width s) s.scrollback;
        scrollback_start = 0;
      }
      else s

  unfoldable pub enforce_scrollback_capacity : GridState L → GridState L
  enforce_scrollback_capacity s =
      if s.max_scrollback_lines == 0
      then record s { scrollback = []; scrollback_start = 0 }
      else reclaim (forget_oldest s)

  -- A line of `width` cells, padded with blanks or cut.
  unfoldable pub padded : ℕ → List L.Cell → List L.Cell
  padded zero line = []
  padded (suc width) [] = blank_cell ∷ padded width []
  padded (suc width) (cell ∷ line) = cell ∷ padded width line

  unfoldable pub push_scrollback_line : GridState L → List L.Cell → GridState L
  push_scrollback_line s line =
      if s.max_scrollback_lines == 0
      then s
      else enforce_scrollback_capacity
          (record s { scrollback = s.scrollback ++ padded (scrollback_width s) line })

  unfoldable pub push_scrollback_lines : GridState L → List (List L.Cell) → GridState L
  push_scrollback_lines s [] = s
  push_scrollback_lines s (line ∷ lines) = push_scrollback_lines (push_scrollback_line s line) lines

  -- The size, with a blank grid.
  unfoldable pub relaid : Size → GridState L → GridState L
  relaid cells s = record s {
    cells = cells;
    grid = replicate (area cells) blank_cell;
    cursor = clamp_cursor cells s.cursor;
  }

  -- A history of another width is taken out, and pushed back line by line.
  unfoldable pub resize_state : GridState L → Size → GridState L
  resize_state s cells =
      let width = scrollback_width s in
      let history = scrollback_cells s in
      let emptied : GridState L = record s { scrollback = []; scrollback_start = 0 } in
      if same_size s.cells cells
      then s
      else if same_int s.cells.width cells.width
      then enforce_scrollback_capacity (relaid cells s)
      else push_scrollback_lines (relaid cells emptied)
          (rows_of (length history / width) width history)
