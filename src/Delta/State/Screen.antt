-- ===== src/Delta/State/Screen.antt =====
-- Lines pushed into the history leave the screen as it was: src/common/grid_delta.cpp.
use ckmux.Prelude.{
  ℕ, ◌≡◌, refl, ap, ◌∙◌, true, false, ◌&&◌, List, [], ◌∷◌, leb, ltb, ◌==◌, ==→eq, Bool-cases, inl,
  inr, arith,
}
use ckmux.Prelude.Int.{ℤ, pos, negsuc}
use ckmux.Proto.CellLib.{CellLib}
use ckmux.Delta.State.{
  Size, same_size, same_int, GridCursor, StyleLib, GridState, scrollback_lines, forget_oldest,
  reclaim, enforce_scrollback_capacity, push_scrollback_line, push_scrollback_lines, relaid,
  resize_state,
}

-- All but the history.
pub record SameScreen (L : CellLib) (s after : GridState L) : Type 0 where
  pub cells : after.cells ≡ s.cells
  pub grid : after.grid ≡ s.grid
  pub max_scrollback_lines : after.max_scrollback_lines ≡ s.max_scrollback_lines
  pub cursor : after.cursor ≡ s.cursor
  pub modes : after.modes ≡ s.modes
  pub title : after.title ≡ s.title

pub same_int→eq : (a b : ℤ) → same_int a b ≡ true → a ≡ b
same_int→eq (pos a) (pos b) e = ap pos (==→eq a b e)
same_int→eq (pos a) (negsuc b) e = cc
same_int→eq (negsuc a) (pos b) e = cc
same_int→eq (negsuc a) (negsuc b) e = ap negsuc (==→eq a b e)

pub same_size→eq : (a b : Size) → same_size a b ≡ true → a ≡ b
same_size→eq a b e = grind (arith, same_int→eq a.width b.width, same_int→eq a.height b.height)

module _ (L : CellLib) (k : StyleLib L) where
  pub SameScreen-same :
      (cells : Size) (grid old new : List L.Cell) (start start' max modes : ℕ) (cursor : GridCursor)
      (title : List ℕ)
      → SameScreen L
          (record {
            cells = cells;
            grid = grid;
            scrollback = old;
            scrollback_start = start;
            max_scrollback_lines = max;
            cursor = cursor;
            modes = modes;
            title = title;
          })
          (record {
            cells = cells;
            grid = grid;
            scrollback = new;
            scrollback_start = start';
            max_scrollback_lines = max;
            cursor = cursor;
            modes = modes;
            title = title;
          })
  SameScreen-same cells grid old new start start' max modes cursor title = record {
    cells = refl;
    grid = refl;
    max_scrollback_lines = refl;
    cursor = refl;
    modes = refl;
    title = refl;
  }

  pub SameScreen-trans :
      (a b c : GridState L) → SameScreen L a b → SameScreen L b c → SameScreen L a c
  SameScreen-trans a b c x y = record {
    cells = y.cells ∙ x.cells;
    grid = y.grid ∙ x.grid;
    max_scrollback_lines = y.max_scrollback_lines ∙ x.max_scrollback_lines;
    cursor = y.cursor ∙ x.cursor;
    modes = y.modes ∙ x.modes;
    title = y.title ∙ x.title;
  }

  forget_oldest-SameScreen : (s : GridState L) → SameScreen L s (forget_oldest L k s)
  unfolding forget_oldest
  forget_oldest-SameScreen s =
      elim (Bool-cases (ltb s.max_scrollback_lines (scrollback_lines L k s))) [
        | inl over ↦ rw over (SameScreen-same _ _ _ _ _ _ _ _ _ _)
        | inr within ↦ rw within (SameScreen-same _ _ _ _ _ _ _ _ _ _)
      ]

  reclaim-SameScreen : (s : GridState L) → SameScreen L s (reclaim L k s)
  unfolding reclaim
  reclaim-SameScreen s =
      elim (Bool-cases
        (leb (scrollback_lines L k s) s.scrollback_start && ltb 0 s.scrollback_start)) [
          | inl dead ↦ rw dead (SameScreen-same _ _ _ _ _ _ _ _ _ _)
          | inr live ↦ rw live (SameScreen-same _ _ _ _ _ _ _ _ _ _)
        ]

  enforce_scrollback_capacity-SameScreen :
      (s : GridState L) → SameScreen L s (enforce_scrollback_capacity L k s)
  unfolding enforce_scrollback_capacity
  enforce_scrollback_capacity-SameScreen s = elim (Bool-cases (s.max_scrollback_lines == 0)) [
    | inl none_kept ↦ rw none_kept (SameScreen-same _ _ _ _ _ _ _ _ _ _)
    | inr kept ↦ rw kept (
        SameScreen-trans s (forget_oldest L k s) _ (forget_oldest-SameScreen s)
          (reclaim-SameScreen (forget_oldest L k s)))
  ]

  pub push_scrollback_line-SameScreen :
      (s : GridState L) (line : List L.Cell) → SameScreen L s (push_scrollback_line L k s line)
  unfolding push_scrollback_line
  push_scrollback_line-SameScreen s line = elim (Bool-cases (s.max_scrollback_lines == 0)) [
    | inl none_kept ↦ rw none_kept (SameScreen-same _ _ _ _ _ _ _ _ _ _)
    | inr kept ↦ rw kept (
        SameScreen-trans s _ _ (SameScreen-same _ _ _ _ _ _ _ _ _ _)
          (enforce_scrollback_capacity-SameScreen _))
  ]

  pub push_scrollback_lines-SameScreen :
      (s : GridState L) (lines : List (List L.Cell))
      → SameScreen L s (push_scrollback_lines L k s lines)
  unfolding push_scrollback_lines
  push_scrollback_lines-SameScreen s [] = SameScreen-same _ _ _ _ _ _ _ _ _ _
  push_scrollback_lines-SameScreen s (line ∷ lines) =
      SameScreen-trans s (push_scrollback_line L k s line) _
        (push_scrollback_line-SameScreen s line)
        (push_scrollback_lines-SameScreen (push_scrollback_line L k s line) lines)

  -- After a resize to another size, all but the history is that of `relaid`.
  pub resize_state-relaid :
      (s : GridState L) (cells : Size)
      → same_size s.cells cells ≡ false
      → SameScreen L (relaid L k cells s) (resize_state L k s cells)
  unfolding resize_state relaid
  resize_state-relaid s cells e = elim (Bool-cases (same_int s.cells.width cells.width)) [
    | inl same ↦ rw (e, same) (enforce_scrollback_capacity-SameScreen _)
    | inr other ↦
        rw (e, other)
          (SameScreen-trans _ _ _ (SameScreen-same _ _ _ _ _ _ _ _ _ _)
            (push_scrollback_lines-SameScreen _ _))
  ]

  -- A resize to the size there is does nothing.
  pub resize_state-same :
      (s : GridState L) (cells : Size)
      → same_size s.cells cells ≡ true
      → resize_state L k s cells ≡ s
  unfolding resize_state
  resize_state-same s cells e = rw e refl

  pub cells-resize_state :
      (s : GridState L) (cells : Size) → (resize_state L k s cells).cells ≡ cells
  unfolding relaid
  cells-resize_state s cells = elim (Bool-cases (same_size s.cells cells)) [
    | inl same ↦
        ap (λ r. r.cells) (resize_state-same s cells same) ∙ same_size→eq s.cells cells same
    | inr other ↦ (resize_state-relaid s cells other).cells
  ]
