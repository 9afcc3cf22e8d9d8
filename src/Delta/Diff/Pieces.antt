-- ===== src/Delta/Diff/Pieces.antt =====
-- What the other operations of `diff` in src/common/grid_delta.cpp make of a mirror: the size, the
-- history, the cursor, the modes and the title.
use ckmux.Prelude.{
  ℕ, ◌%◌, ◌^◌, ◌≤◌, ◌<◌, ◌≡◌, refl, sym, ap, ◌∙◌, inl, inr, true, some, List, [], ◌∷◌, length, All,
  same_text, ◌==◌, ==→eq, Bool-cases, le→ltb_false, lt→leb_false, lt→==_false, arith,
}
use ckmux.Prelude.Bits.{merge_changed, merge_all}
use ckmux.Proto.CellLib.{CellLib}
use ckmux.Proto.Cells.{CellRun}
use ckmux.Proto.Grid.{GridOp}
use ckmux.Proto.Runs.{CellTests}
use ckmux.Proto.Runs.RoundTrip.{CellTestsLaws, total_cells-to_runs, from_runs-to_runs}
use ckmux.Delta.State.{
  Size, extent, GridCursor, same_cursor, StyleLib, GridState, resize_state, push_scrollback_line,
  push_scrollback_lines,
}
use ckmux.Delta.State.Screen.{push_scrollback_lines-SameScreen, cells-resize_state}
use ckmux.Delta.Diff.{
  emit_resize, emit_push, runs_of_lines, cursor_op, emit_cursor, emit_modes, emit_title,
}
use ckmux.Delta.Apply.{check_op, check_lines, perform_op, push_runs, merge_modes}
use ckmux.Delta.Apply.Delivers.{screen, Delivers, Delivers-nil, Delivers-same, Delivers-one}

-- A line of the history has a cell, and no more than a row.
abbrev pub IsLine : {A : Type 0} → ℕ → List A → Type 0
IsLine width line = (0 < length line) × (length line ≤ width)

pub same_text→eq : (a b : List ℕ) → same_text a b ≡ true → a ≡ b
same_text→eq [] [] e = refl
same_text→eq [] (b ∷ ys) e = cc
same_text→eq (a ∷ xs) [] e = cc
same_text→eq (a ∷ xs) (b ∷ ys) e = grind (arith, ==→eq a b, same_text→eq xs ys)

pub same_cursor→eq : (a b : GridCursor) → same_cursor a b ≡ true → a ≡ b
same_cursor→eq a b e = grind (
  arith,
  ==→eq a.column b.column,
  ==→eq a.row b.row,
  ==→eq a.style b.style,
  ==→eq a.visible b.visible,
  ==→eq a.blink b.blink,
)

module _ (L : CellLib) (k : StyleLib L) (t : CellTests L) (laws : CellTestsLaws L t) where
  -- The size of a screen is one that a mirror takes.
  pub emit_resize-Delivers :
      (s : GridState L) (width height : ℕ)
      → 0 < width
      → width ≤ 1000
      → 0 < height
      → height ≤ 1000
      → Delivers L k
          (emit_resize L k t (screen width height))
          s
          (resize_state L k s (screen width height))
  unfolding emit_resize check_op perform_op
  emit_resize-Delivers s width height a b c d =
      let columns : width % 2 ^ 16 ≡ width = omega arith in
      let rows : height % 2 ^ 16 ≡ height = omega arith in
      Delivers-one L k _ _ _
        (rw
          (
            columns,
            rows,
            lt→==_false width 0 a,
            lt→==_false height 0 c,
            le→ltb_false 1000 width b,
            le→ltb_false 1000 height d,
            cells-resize_state L k s (screen width height),
          )
          refl)
        (rw (columns, rows) refl)

  check_lines-to_runs :
      (width : ℕ) (lines : List (List L.Cell))
      → All (IsLine width) lines
      → check_lines L width (runs_of_lines L k t lines) ≡ true
  unfolding check_lines runs_of_lines
  check_lines-to_runs width [] h = refl
  check_lines-to_runs width (line ∷ lines) ((a, b), h) =
      rw
        (
          total_cells-to_runs L t laws line,
          lt→==_false (length line) 0 a,
          le→ltb_false width (length line) b,
        )
        (check_lines-to_runs width lines h)

  push_runs-to_runs :
      (width : ℕ) (s : GridState L) (lines : List (List L.Cell))
      → width ≤ 1000
      → All (IsLine width) lines
      → push_runs L k s (runs_of_lines L k t lines) ≡ push_scrollback_lines L k s lines
  unfolding push_runs runs_of_lines push_scrollback_lines
  push_runs-to_runs width s [] narrow h = refl
  push_runs-to_runs width s (line ∷ lines) narrow ((a, b), h) =
      ap (λ cells. push_runs L k (push_scrollback_line L k s cells) (runs_of_lines L k t lines))
        (from_runs-to_runs L t laws line (omega arith))
      ∙ push_runs-to_runs width (push_scrollback_line L k s line) lines narrow h

  -- A mirror that keeps no history stays.
  push_scrollback_lines-none :
      (s : GridState L) (lines : List (List L.Cell))
      → (s.max_scrollback_lines == 0) ≡ true
      → push_scrollback_lines L k s lines ≡ s
  unfolding push_scrollback_lines push_scrollback_line
  push_scrollback_lines-none s [] e = refl
  push_scrollback_lines-none s (line ∷ lines) e =
      rw (e, push_scrollback_line) (push_scrollback_lines-none s lines e)

  check_op-push :
      (size : Size) (runs : List (List (CellRun L)))
      → check_lines L (extent size.width) runs ≡ true
      → check_op L size (GridOp.scrollback_push (record { lines = runs })) ≡ some size
  unfolding check_op
  check_op-push size runs e = rw e refl

  perform_op-push :
      (s : GridState L) (width : ℕ) (lines : List (List L.Cell))
      → width ≤ 1000
      → All (IsLine width) lines
      → perform_op L k s (GridOp.scrollback_push (record { lines = runs_of_lines L k t lines }))
        ≡ push_scrollback_lines L k s lines
  unfolding perform_op
  perform_op-push s width lines narrow h = elim (Bool-cases (s.max_scrollback_lines == 0)) [
    | inl none_kept ↦ rw none_kept (sym (push_scrollback_lines-none s lines none_kept))
    | inr kept ↦ rw kept (push_runs-to_runs width s lines narrow h)
  ]

  pub emit_push-Delivers :
      (s : GridState L) (width height : ℕ) (lines : List (List L.Cell))
      → s.cells ≡ screen width height
      → width ≤ 1000
      → All (IsLine width) lines
      → Delivers L k (emit_push L k t lines) s (push_scrollback_lines L k s lines)
  unfolding emit_push push_scrollback_lines
  emit_push-Delivers s width height [] size narrow h = Delivers-nil L k s
  emit_push-Delivers s width height (line ∷ lines) size narrow h =
      let runs = runs_of_lines L k t (line ∷ lines) in
      let after = push_scrollback_lines L k s (line ∷ lines) in
      let kept : after.cells ≡ s.cells =
        (push_scrollback_lines-SameScreen L k s (line ∷ lines)).cells in
      Delivers-one L k _ s after
        (rw kept
          (check_op-push s.cells runs (rw size (check_lines-to_runs width (line ∷ lines) h))))
        (perform_op-push s width (line ∷ lines) narrow h)

  pub cursor-Delivers :
      (s : GridState L) (width height : ℕ) (cursor : GridCursor)
      → s.cells ≡ screen width height
      → cursor.row < height
      → cursor.column ≤ width
      → Delivers L k (cursor_op L k t cursor ∷ []) s (record s { cursor = cursor })
  unfolding cursor_op check_op perform_op
  cursor-Delivers s width height cursor size low left =
      Delivers-one L k _ _ _
        (rw (size, lt→leb_false height cursor.row low, le→ltb_false width cursor.column left) refl)
        refl

  pub emit_cursor-Delivers :
      (s : GridState L) (width height : ℕ) (previous cursor : GridCursor)
      → s.cells ≡ screen width height
      → cursor.row < height
      → cursor.column ≤ width
      → (previous ≡ cursor → s.cursor ≡ cursor)
      → Delivers L k (emit_cursor L k t previous cursor) s (record s { cursor = cursor })
  unfolding emit_cursor
  emit_cursor-Delivers s width height previous cursor size low left same_there =
      elim (Bool-cases (same_cursor previous cursor)) [
        | inl same ↦ rw same (
            Delivers-same L k _ _ _ _ _ _ refl refl
              (ap (λ (c : GridCursor). record s { cursor = c })
                (sym (same_there (same_cursor→eq _ _ same))))
              (Delivers-nil L k s))
        | inr other ↦ rw other (cursor-Delivers s width height cursor size low left)
      ]

  pub emit_modes-Delivers :
      (s : GridState L) (modes : ℕ)
      → s.modes < 2 ^ 32
      → modes < 2 ^ 32
      → Delivers L k (emit_modes L k t s.modes modes) s (record s { modes = modes })
  unfolding emit_modes check_op perform_op merge_modes
  emit_modes-Delivers s modes a b = elim (Bool-cases (s.modes == modes)) [
    | inl same ↦ rw same (
        Delivers-same L k _ _ _ _ _ _ refl refl
          (ap (λ (m : ℕ). record s { modes = m }) (sym (==→eq _ _ same))) (Delivers-nil L k s))
    | inr other ↦ rw other (
        Delivers-one L k _ _ _ refl
          (ap (λ (m : ℕ). record s { modes = m }) (merge_changed s.modes modes a b)))
  ]

  pub all_modes-Delivers :
      (s : GridState L) (modes : ℕ)
      → modes < 2 ^ 32
      → Delivers L k
          (GridOp.modes (record { changed_mask = 0xffffffff; values = modes }) ∷ [])
          s
          (record s { modes = modes })
  unfolding check_op perform_op merge_modes
  all_modes-Delivers s modes b =
      Delivers-one L k _ _ _ refl
        (ap (λ (m : ℕ). record s { modes = m }) (merge_all s.modes modes b))

  pub title-Delivers :
      (s : GridState L) (title : List ℕ)
      → Delivers L k (GridOp.title (record { title = title }) ∷ []) s (record s { title = title })
  unfolding check_op perform_op
  title-Delivers s title = Delivers-one L k _ _ _ refl refl

  pub emit_title-Delivers :
      (s : GridState L) (title : List ℕ)
      → Delivers L k (emit_title L k t s.title title) s (record s { title = title })
  unfolding emit_title
  emit_title-Delivers s title = elim (Bool-cases (same_text s.title title)) [
    | inl same ↦ rw same (
        Delivers-same L k _ _ _ _ _ _ refl refl
          (ap (λ (m : List ℕ). record s { title = m }) (sym (same_text→eq _ _ same)))
          (Delivers-nil L k s))
    | inr other ↦ rw other (title-Delivers s title)
  ]
