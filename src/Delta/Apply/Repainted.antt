-- ===== src/Delta/Apply/Repainted.antt =====
-- The rows that `emit_changed_row` and `emit_every_row` of src/common/grid_delta.cpp send, performed
-- by `apply_delta`.
use ckmux.Prelude.{
  ℕ, zero, suc, ◌+◌, ◌*◌, ◌%◌, ◌^◌, ◌≤◌, ◌<◌, ◌≡◌, refl, sym, ap, ◌∙◌, ◌⊎◌, inl, inr, Bool, false,
  none, List, [], ◌∷◌, ◌++◌, append_assoc, append-nil, length, take, drop, All, ◌==◌, ==→eq,
  ==_refl, Bool-cases, arith,
}
use ckmux.Prelude.Slices.{drop_all, take_all}
use ckmux.Prelude.Grid.{length-row, length-above, split_below, split_above}
use ckmux.Proto.CellLib.{CellLib}
use ckmux.Proto.Grid.{GridOp}
use ckmux.Proto.Runs.{CellTests, to_runs, total_cells, from_runs}
use ckmux.Proto.Runs.RoundTrip.{CellTestsLaws, total_cells-to_runs, from_runs-to_runs}
use ckmux.Delta.State.{StyleLib, GridState}
use ckmux.Delta.Rows.{row_of, copy_to}
use ckmux.Delta.Repaint.{Span, emit_spans, emit_changed_row, every_row, spans_from}
use ckmux.Delta.Repaint.Coverage.{EndsBy, row-Covered}
use ckmux.Delta.Repaint.Paint.{paint, paint_all, length-paint, paint_all-Covered, copy_to-inner}
use ckmux.Delta.Diff.{repaint_rows}
use ckmux.Delta.Apply.{check_op, perform_op}
use ckmux.Delta.Apply.Delivers.{
  screen, with_grid, Delivers, Delivers-nil, Delivers-same, Delivers-one, Delivers-append,
  check_op-cells, span-Delivers,
}

empty_list {ℓ} : {A : Type ℓ} (xs : List A) → length xs ≡ 0 → xs ≡ []
empty_list [] e = refl
empty_list (x ∷ xs) e = absurd (omega arith)

emit_changed_row-cases :
    (L : CellLib) (t : CellTests L) (row : ℕ) (held wanted : List L.Cell)
    → length held ≡ length wanted
    → ((emit_changed_row L t row held wanted ≡ []) × (held ≡ wanted))
      ⊎ (emit_changed_row L t row held wanted
          ≡ emit_spans L t row wanted (spans_from L t (length wanted) 0 held wanted none))
unfolding emit_changed_row
emit_changed_row-cases L t row held wanted e = elim (Bool-cases (length wanted == 0)) [
  | inl nothing ↦
      let empty : wanted ≡ [] = empty_list wanted (==→eq (length wanted) 0 nothing) in
      inl (
        rw (e, ==_refl (length wanted), nothing) refl,
        empty_list held (e ∙ ==→eq (length wanted) 0 nothing) ∙ sym empty,
      )
  | inr something ↦ inr (rw (e, ==_refl (length wanted), something) refl)
]

module _ (L : CellLib) (k : StyleLib L) (t : CellTests L) (laws : CellTestsLaws L t)
    (s : GridState L) (width height : ℕ) (size : s.cells ≡ screen width height)
    (narrow : width ≤ 1000) (flat : height ≤ 1000) where
  spans-Delivers :
      (row : ℕ) (wanted above held below : List L.Cell) (spans : List Span)
      → row < height
      → length wanted ≡ width
      → length held ≡ width
      → length above ≡ row * width
      → All (EndsBy width) spans
      → Delivers L k
          (emit_spans L t row wanted spans)
          (with_grid L s (above ++ (held ++ below)))
          (with_grid L s (above ++ (paint_all wanted spans held ++ below)))
  unfolding emit_spans
  spans-Delivers row wanted above held below [] low wide same up h = Delivers-nil L k _
  spans-Delivers row wanted above held below (span ∷ spans) low wide same up (h, hs) =
      Delivers-append L k _ _ _ _ _
        (span-Delivers L k t laws s width height row wanted above held below span size narrow low
          wide same up h)
        (spans-Delivers row wanted above (paint wanted span held) below spans low wide
          (length-paint wanted held span (same ∙ sym wide) (rw wide h) ∙ wide) up hs)

  changed_row-Delivers :
      (row : ℕ) (wanted above held below : List L.Cell)
      → row < height
      → length wanted ≡ width
      → length held ≡ width
      → length above ≡ row * width
      → Delivers L k
          (emit_changed_row L t (row % 2 ^ 16) held wanted)
          (with_grid L s (above ++ (held ++ below)))
          (with_grid L s (above ++ (wanted ++ below)))
  changed_row-Delivers row wanted above held below low wide same up =
      let number : row % 2 ^ 16 ≡ row = omega arith in
      let alike : length held ≡ length wanted = same ∙ sym wide in
      let (ends, covers) = row-Covered L t laws held wanted alike in
      elim (emit_changed_row-cases L t row held wanted alike) [
        | inl (nothing, already) ↦
            Delivers-same L k _ _ _ _ _ _ (rw number nothing) refl
              (ap (λ row. with_grid L s (above ++ (row ++ below))) (sym already))
              (Delivers-nil L k _)
        | inr something ↦
            let spans = spans_from L t (length wanted) 0 held wanted none in
            let right : paint_all wanted spans held ≡ wanted =
              paint_all-Covered wanted held spans alike ends covers in
            Delivers-same L k _ _ _ _ _ _ (rw number something) refl
              (ap (λ row. with_grid L s (above ++ (row ++ below))) (sym right))
              (spans-Delivers row wanted above held below spans low wide same up (rw (← wide) ends))
      ]

  -- A row that is sent whole.
  whole_row-Delivers :
      (row : ℕ) (wanted above held below : List L.Cell)
      → row < height
      → length wanted ≡ width
      → length held ≡ width
      → length above ≡ row * width
      → Delivers L k
          (GridOp.cells (record { row = row % 2 ^ 16; column = 0; runs = to_runs L t wanted }) ∷ [])
          (with_grid L s (above ++ (held ++ below)))
          (with_grid L s (above ++ (wanted ++ below)))
  unfolding check_op perform_op copy_to
  whole_row-Delivers row wanted above held below low wide same up =
      let number : row % 2 ^ 16 ≡ row = omega arith in
      let total : total_cells L (to_runs L t wanted) ≡ width =
        total_cells-to_runs L t laws wanted ∙ wide in
      let cells : from_runs L (to_runs L t wanted) ≡ wanted =
        from_runs-to_runs L t laws wanted (omega arith) in
      let whole : copy_to 0 wanted held ≡ wanted =
        ap (λ l. wanted ++ l) (drop_all (0 + length wanted) held (omega arith))
        ∙ append-nil wanted in
      Delivers-one L k _ _ _
        (rw size (
          check_op-cells L k t laws _ width height (omega arith) (omega arith)
            (omega (arith, total))))
        (ap (with_grid L s) (
          rw (size, number, cells)
            (copy_to-inner (row * width) 0 above held below wanted up (omega arith)
              ∙ ap (λ row. above ++ (row ++ below)) whole)))

  -- After the last row.
  all_rows :
      (row : ℕ) (mirror wanted : List L.Cell)
      → row ≡ height
      → length mirror ≡ height * width
      → length wanted ≡ height * width
      → take (row * width) wanted ++ drop (row * width) mirror ≡ wanted
  all_rows row mirror wanted last has wants =
      let end : row * width ≡ height * width = ap (λ n. n * width) last in
      rw (take_all (row * width) wanted (omega arith), drop_all (row * width) mirror (omega arith))
        (append-nil wanted)

  -- The repaint pass, when a row that is not looked at is right.
  pub repaint_rows-Delivers :
      (looked : ℕ → Bool) (count row : ℕ) (mirror wanted : List L.Cell)
      → row + count ≡ height
      → length mirror ≡ height * width
      → length wanted ≡ height * width
      → ((r : ℕ) → r < height → looked r ≡ false → row_of mirror width r ≡ row_of wanted width r)
      → Delivers L k
          (repaint_rows L k t width looked count row mirror wanted)
          (with_grid L s (take (row * width) wanted ++ drop (row * width) mirror))
          (with_grid L s wanted)
  unfolding repaint_rows row_of
  repaint_rows-Delivers looked zero row mirror wanted last has wants right =
      Delivers-same L k _ _ _ _ _ _ refl
        (ap (with_grid L s) (all_rows row mirror wanted (omega arith) has wants)) refl
        (Delivers-nil L k _)
  repaint_rows-Delivers looked (suc count) row mirror wanted last has wants right =
      let low : row < height = omega arith in
      let above = take (row * width) wanted in
      let below = drop (suc row * width) mirror in
      let next : take (suc row * width) wanted ++ below
          ≡ above ++ (row_of wanted width row ++ below) =
        rw (split_above row width wanted) (append_assoc above (row_of wanted width row) below) in
      let rest =
        repaint_rows-Delivers looked count (suc row) mirror wanted (omega arith) has wants right in
      elim (Bool-cases (looked row)) [
        | inl looks ↦ rw looks (
            Delivers-append L k _ _ _ _ _
              (Delivers-same L k _ _ _ _ _ _ refl
                (ap (λ g. with_grid L s (above ++ g)) (split_below row width mirror)) refl
                (changed_row-Delivers row (row_of wanted width row) above (row_of mirror width row)
                  below low (length-row row height width wanted low wants)
                  (length-row row height width mirror low has)
                  (length-above row height width wanted low wants)))
              (Delivers-same L k _ _ _ _ _ _ refl (ap (with_grid L s) (sym next)) refl rest))
        | inr skips ↦ rw skips (
            Delivers-same L k _ _ _ _ _ _ refl
              (ap (with_grid L s) (
                ap (λ g. above ++ g) (split_below row width mirror)
                ∙ ap (λ row. above ++ (row ++ below)) (right row low skips)
                ∙ sym next))
              refl rest)
      ]

  pub every_row-Delivers :
      (count row : ℕ) (mirror wanted : List L.Cell)
      → row + count ≡ height
      → length mirror ≡ height * width
      → length wanted ≡ height * width
      → Delivers L k
          (every_row L t width count row wanted)
          (with_grid L s (take (row * width) wanted ++ drop (row * width) mirror))
          (with_grid L s wanted)
  unfolding every_row row_of
  every_row-Delivers zero row mirror wanted last has wants =
      Delivers-same L k _ _ _ _ _ _ refl
        (ap (with_grid L s) (all_rows row mirror wanted (omega arith) has wants)) refl
        (Delivers-nil L k _)
  every_row-Delivers (suc count) row mirror wanted last has wants =
      let low : row < height = omega arith in
      let above = take (row * width) wanted in
      let below = drop (suc row * width) mirror in
      let next : take (suc row * width) wanted ++ below
          ≡ above ++ (row_of wanted width row ++ below) =
        rw (split_above row width wanted) (append_assoc above (row_of wanted width row) below) in
      let rest = every_row-Delivers count (suc row) mirror wanted (omega arith) has wants in
      Delivers-append L k (_ ∷ []) _ _ _ _
        (Delivers-same L k _ _ _ _ _ _ refl
          (ap (λ g. with_grid L s (above ++ g)) (split_below row width mirror)) refl
          (whole_row-Delivers row (row_of wanted width row) above (row_of mirror width row) below
            low (length-row row height width wanted low wants)
            (length-row row height width mirror low has)
            (length-above row height width wanted low wants)))
        (Delivers-same L k _ _ _ _ _ _ refl (ap (with_grid L s) (sym next)) refl rest)
