-- ===== src/Delta/Diff/Changes.antt =====
-- What `diff` of src/common/grid_delta.cpp sends of a grid that keeps its size makes of the old grid
-- the new one, whatever the hashes say.
use ckmux.Prelude.{
  ℕ, ◌-◌, ◌*◌, ◌%◌, ◌^◌, ◌≤◌, ◌<◌, ◌≡◌, refl, ap, ◌∙◌, ◌⊎◌, inl, inr, Bool, false, ◌&&◌, Option,
  none, some, List, length, replicate, leb, leb_false→lt, Bool-cases, le→ltb_false, arith,
}
use native.Mathlib.Nat.{mul-le-mul_right}
use ckmux.Prelude.Grid.{from_first}
use ckmux.Prelude.Int.{ℤ, pos, negsuc, to_word, of_word, of_word-to_word_16}
use ckmux.Proto.CellLib.{CellLib}
use ckmux.Proto.Grid.{GridOp}
use ckmux.Proto.GridOps.{ScrollOp}
use ckmux.Proto.Runs.{CellTests}
use ckmux.Proto.Runs.RoundTrip.{CellTestsLaws}
use ckmux.Delta.State.{StyleLib, GridState, blank_cell}
use ckmux.Delta.Shift.{length-shift_rows, row_of-shift_rows}
use ckmux.Delta.Rows.{abs, row_of}
use ckmux.Delta.Hash.{row_hash}
use ckmux.Delta.Search.{find_top, find_bottom, best_shift}
use ckmux.Delta.Search.Bounds.{find_bottom-le, best_shift-bounds}
use ckmux.Delta.Diff.{emit_shift, shifted, looked_at, row_differs, emit_changes}
use ckmux.Delta.Apply.{check_op, perform_op}
use ckmux.Delta.Apply.Delivers.{
  screen, with_grid, Delivers, Delivers-nil, Delivers-same, Delivers-one, Delivers-append,
}
use ckmux.Delta.Apply.Repainted.{repaint_rows-Delivers}

-- A shift that fits is what its words on the wire say.
InReach : ℕ → ℕ → ℕ → Option ℤ → Type 0
InReach height top bottom none = Unit
InReach height top bottom (some lines) =
    (top < bottom) × ((bottom ≤ height) × (abs lines < bottom - top))

reach_of :
    {height top bottom : ℕ}
    → bottom ≤ height
    → (lines : Option ℤ) → ((l : ℤ) → lines ≡ some l → (top < bottom) × (abs l < bottom - top))
    → InReach height top bottom lines
unfolding InReach
reach_of h none f = tt
reach_of h (some l) f = let (a, b) = f l refl in (a, (h, b))

short_int : (lines : ℤ) → abs lines < 1000 → of_word (2 ^ 15) (to_word (2 ^ 15) lines) ≡ lines
short_int (pos n) h = of_word-to_word_16 (pos n) (omega arith)
short_int (negsuc n) h = of_word-to_word_16 (negsuc n) (omega arith)

module _ (L : CellLib) (k : StyleLib L) (t : CellTests L) (laws : CellTestsLaws L t)
    (s : GridState L) (width height : ℕ) (size : s.cells ≡ screen width height)
    (narrow : width ≤ 1000) (flat : height ≤ 1000) where
  check_op-scroll :
      (op : ScrollOp)
      → op.top < op.bottom
      → op.bottom ≤ height
      → abs op.lines < op.bottom - op.top
      → check_op L (screen width height) (GridOp.scroll op) ≡ some (screen width height)
  unfolding check_op
  check_op-scroll op a b c =
      rw
        (
          le→ltb_false op.bottom op.top (omega arith),
          le→ltb_false height op.bottom b,
          le→ltb_false (op.bottom - op.top) (abs op.lines) (omega arith),
        )
        refl

  emit_shift-Delivers :
      (top bottom : ℕ) (lines : Option ℤ) (held : List L.Cell)
      → InReach height top bottom lines
      → Delivers L k
          (emit_shift L k t top bottom lines)
          (with_grid L s held)
          (with_grid L s (shifted L k t width top bottom lines held))
  unfolding emit_shift shifted InReach perform_op
  emit_shift-Delivers top bottom none held h = Delivers-nil L k _
  emit_shift-Delivers top bottom (some lines) held (a, (b, c)) =
      let first : top % 2 ^ 16 ≡ top = omega arith in
      let end : bottom % 2 ^ 16 ≡ bottom = omega arith in
      let word = short_int lines (omega arith) in
      Delivers-one L k _ _ _ (rw (first, end, word, size) (check_op-scroll _ a b c))
        (ap (with_grid L s) (rw (first, end, word, size) refl))

  length-shifted :
      (top bottom : ℕ) (lines : Option ℤ) (held : List L.Cell)
      → InReach height top bottom lines
      → length held ≡ height * width
      → length (shifted L k t width top bottom lines held) ≡ height * width
  unfolding shifted InReach
  length-shifted top bottom none held h e = e
  length-shifted top bottom (some lines) held (a, (b, c)) e =
      length-shift_rows L k width top bottom lines held
        (omega (arith, mul-le-mul_right {m = bottom} {n = height} width b))
      ∙ e

  -- A row that is not looked at after the shift was not before it either, and has not moved.
  shifted-right :
      (named : ℕ → Bool) (top bottom : ℕ) (lines : Option ℤ) (held wanted : List L.Cell) (row : ℕ)
      → InReach height top bottom lines
      → length held ≡ height * width
      → (named row ≡ false → row_of held width row ≡ row_of wanted width row)
      → looked_at L k t named top bottom lines row ≡ false
      → row_of (shifted L k t width top bottom lines held) width row ≡ row_of wanted width row
  unfolding shifted looked_at InReach
  shifted-right named top bottom none held wanted row h e right skips = right skips
  shifted-right named top bottom (some lines) held wanted row (a, (b, c)) e right skips =
      let outside : (row < top) ⊎ (bottom ≤ row) = elim (Bool-cases (leb top row)) [
        | inl after ↦ inr (ground (arith))
        | inr before ↦ inl (leb_false→lt top row before)
      ] in
      row_of-shift_rows L k width top bottom row lines held
        (omega (arith, mul-le-mul_right {m = bottom} {n = height} width b)) outside
      ∙ right (ground (arith))

  pub emit_changes-Delivers :
      (named : ℕ → Bool) (held wanted : List L.Cell)
      → length held ≡ height * width
      → length wanted ≡ height * width
      → ((row : ℕ)
          → row < height
          → named row ≡ false
          → row_of held width row ≡ row_of wanted width row)
      → Delivers L k
          (emit_changes L k t width height named held wanted)
          (with_grid L s held)
          (with_grid L s wanted)
  unfolding emit_changes InReach
  emit_changes-Delivers named held wanted has wants right =
      let before : ℕ → ℕ = λ row. row_hash L k (row_of held width row) in
      let after : ℕ → ℕ = λ row. row_hash L k (row_of wanted width row) in
      let blank = row_hash L k (replicate width (blank_cell L k)) in
      let touched : ℕ → Bool = λ row. named row && row_differs L k t width held wanted row in
      let top = find_top touched height 0 in
      let bottom = find_bottom touched top height in
      let lines = best_shift top bottom before after blank in
      let reach : InReach height top bottom lines =
        reach_of (find_bottom-le touched top height) lines
          (λ l e. best_shift-bounds top bottom before after blank l e) in
      Delivers-append L k _ _ _ _ _ (emit_shift-Delivers top bottom lines held reach) (
        Delivers-same L k _ _ _ _ _ _ refl (ap (with_grid L s) (from_first width _ wanted)) refl (
          repaint_rows-Delivers L k t laws s width height size narrow flat
            (looked_at L k t named top bottom lines) height 0
            (shifted L k t width top bottom lines held) wanted (omega arith)
            (length-shifted top bottom lines held reach has) wants
            (λ row low skips.
              shifted-right named top bottom lines held wanted row reach has (right row low)
                skips)))
