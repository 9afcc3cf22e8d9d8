-- ===== src/Delta/Apply/Delivers.antt =====
-- Operations that `apply_delta` of src/common/grid_delta.cpp accepts, and what they make of a mirror.
use ckmux.Prelude.{
  ℕ, ◌-◌, ◌*◌, ◌%◌, ◌^◌, ◌≤◌, ◌<◌, ◌≡◌, refl, sym, ap, ◌∙◌, true, none, some, List, [], ◌∷◌, ◌++◌,
  length, Option-cases, le→ltb_false, lt→leb_false, inl, inr, arith, ==_refl,
}
use ckmux.Prelude.Int.{pos}
use ckmux.Proto.CellLib.{CellLib}
use ckmux.Proto.GridOps.{CellsOp}
use ckmux.Proto.Grid.{GridOp}
use ckmux.Proto.Runs.{CellTests, to_runs, total_cells, from_runs}
use ckmux.Proto.Runs.RoundTrip.{CellTestsLaws, total_cells-to_runs, from_runs-to_runs}
use ckmux.Delta.State.{Size, area, StyleLib, GridState}
use ckmux.Delta.Repaint.{Span, slice, emit_span}
use ckmux.Delta.Repaint.Coverage.{EndsBy}
use ckmux.Delta.Repaint.Paint.{paint, length-slice, copy_to-inner}
use ckmux.Delta.Apply.{check_op, check_ops, perform_op, perform_ops, apply_delta}

abbrev pub screen : ℕ → ℕ → Size
screen width height = record { width = pos width; height = pos height }

module _ (L : CellLib) where
  abbrev pub with_grid : GridState L → List L.Cell → GridState L
  with_grid s grid = record s { grid = grid }

module _ (L : CellLib) (k : StyleLib L) where
  abbrev pub Delivers : List (GridOp L) → GridState L → GridState L → Type 0
  Delivers ops s after =
      (check_ops L s.cells ops ≡ some after.cells) × (perform_ops L k s ops ≡ after)

  pub Delivers-same :
      (ops ops' : List (GridOp L)) (s s' after after' : GridState L)
      → ops ≡ ops'
      → s ≡ s'
      → after ≡ after'
      → Delivers ops' s' after'
      → Delivers ops s after
  Delivers-same ops ops' s s' after after' e f g d = rw (e, f, g) d

  pub Delivers-nil : (s : GridState L) → Delivers [] s s
  unfolding check_ops perform_ops
  Delivers-nil s = (refl, refl)

  pub Delivers-one :
      (op : GridOp L) (s after : GridState L)
      → check_op L s.cells op ≡ some after.cells
      → perform_op L k s op ≡ after
      → Delivers (op ∷ []) s after
  unfolding check_ops perform_ops
  Delivers-one op s after c p = (rw (c, check_ops) refl, p)

  pub check_ops-cons :
      (op : GridOp L) (ops : List (GridOp L)) (size after : Size)
      → check_op L size op ≡ some after
      → check_ops L size (op ∷ ops) ≡ check_ops L after ops
  unfolding check_ops
  check_ops-cons op ops size after e = rw (e, check_ops) refl

  pub check_ops-refused :
      (op : GridOp L) (ops : List (GridOp L)) (size : Size)
      → check_op L size op ≡ none
      → check_ops L size (op ∷ ops) ≡ none
  unfolding check_ops
  check_ops-refused op ops size e = rw (e, check_ops) refl

  some_same : (a b : Size) → some a ≡ some b → a ≡ b
  some_same a b e = cc

  none_some : (a : Size) → ¬ (none ≡ some a)
  none_some a e = cc

  check_ops-append :
      (xs ys : List (GridOp L)) (size between : Size)
      → check_ops L size xs ≡ some between
      → check_ops L size (xs ++ ys) ≡ check_ops L between ys
  unfolding check_ops
  check_ops-append [] ys size between e = ap (λ o. check_ops L o ys) (some_same size between e)
  check_ops-append (op ∷ xs) ys size between e = elim (Option-cases (check_op L size op)) [
    | inl c ↦ absurd (none_some between (sym (check_ops-refused op xs size c) ∙ e))
    | inr (a, c) ↦
        check_ops-cons op (xs ++ ys) size a c
        ∙ check_ops-append xs ys a between (sym (check_ops-cons op xs size a c) ∙ e)
  ]

  perform_ops-append :
      (xs ys : List (GridOp L)) (s : GridState L)
      → perform_ops L k s (xs ++ ys) ≡ perform_ops L k (perform_ops L k s xs) ys
  unfolding perform_ops
  perform_ops-append [] ys s = refl
  perform_ops-append (op ∷ xs) ys s = perform_ops-append xs ys (perform_op L k s op)

  pub Delivers-append :
      (xs ys : List (GridOp L)) (s between after : GridState L)
      → Delivers xs s between
      → Delivers ys between after
      → Delivers (xs ++ ys) s after
  Delivers-append xs ys s between after (c, p) (d, q) = (
    check_ops-append xs ys s.cells between.cells c ∙ d,
    perform_ops-append xs ys s ∙ ap (λ m. perform_ops L k m ys) p ∙ q,
  )

module _ (L : CellLib) (k : StyleLib L) where
  -- Such operations are accepted, by a mirror whose grid has its size.
  pub apply_delta-Delivers :
      (ops : List (GridOp L)) (s after : GridState L)
      → length s.grid ≡ area s.cells
      → Delivers L k ops s after
      → apply_delta L k ops s ≡ record { accepted = true; mirror = after }
  unfolding apply_delta
  apply_delta-Delivers ops s after e (c, p) = rw (e, ==_refl (area s.cells), c, p) refl

module _ (L : CellLib) (k : StyleLib L) (t : CellTests L) (laws : CellTestsLaws L t) where
  pub check_op-cells :
      (op : CellsOp L) (width height : ℕ)
      → op.row < height
      → op.column ≤ width
      → total_cells L op.runs ≤ width - op.column
      → check_op L (screen width height) (GridOp.cells op) ≡ some (screen width height)
  unfolding check_op
  check_op-cells op width height a b c =
      rw
        (
          lt→leb_false height op.row a,
          le→ltb_false width op.column b,
          le→ltb_false (width - op.column) (total_cells L op.runs) c,
        )
        refl

  -- One span of a row that is wanted, sent to a mirror that has rows above and below.
  pub span-Delivers :
      (s : GridState L) (width height row : ℕ) (wanted above held below : List L.Cell) (span : Span)
      → s.cells ≡ screen width height
      → width ≤ 1000
      → row < height
      → length wanted ≡ width
      → length held ≡ width
      → length above ≡ row * width
      → EndsBy width span
      → Delivers L k
          (emit_span L t row wanted span ∷ [])
          (with_grid L s (above ++ (held ++ below)))
          (with_grid L s (above ++ (paint wanted span held ++ below)))
  unfolding emit_span check_op perform_op
  span-Delivers s width height row wanted above held below span size narrow low wide same up
        (a, b) =
      let column : span.first % 2 ^ 16 ≡ span.first = omega arith in
      let long : length (slice span wanted) ≡ span.last - span.first =
        length-slice span wanted (a, omega arith) in
      let cells : from_runs L (to_runs L t (slice span wanted)) ≡ slice span wanted =
        from_runs-to_runs L t laws (slice span wanted) (omega (arith, long)) in
      let total : total_cells L (to_runs L t (slice span wanted)) ≡ span.last - span.first =
        total_cells-to_runs L t laws (slice span wanted) ∙ long in
      Delivers-one L k _ _ _
        (rw size (check_op-cells _ width height low (omega arith) (omega (arith, total))))
        (ap (with_grid L s) (
          rw (size, column, cells)
            (copy_to-inner (row * width) span.first above held below (slice span wanted) up
              (omega (arith, long)))))
