-- ===== src/Delta/Apply/Valid.antt =====
-- No operations that a peer sends leave a mirror of `apply_delta` in src/common/grid_delta.cpp with a
-- grid of another size, a cursor outside it, or a history past its capacity.
use ckmux.Prelude.{
  ℕ, ◌+◌, ◌-◌, ◌*◌, ◌≤◌, ◌<◌, ◌≡◌, refl, sym, ap, ◌∙◌, inl, inr, Bool, true, false, ◌&&◌, none,
  some, List, [], ◌∷◌, length, ltb, ◌==◌, Bool-cases, Option-cases, arith,
}
use native.Mathlib.Nat.{mul-le-mul_right}
use ckmux.Prelude.Grid.{row-fits}
use ckmux.Proto.CellLib.{CellLib}
use ckmux.Proto.Cells.{CellRun}
use ckmux.Proto.Grid.{GridOp}
use ckmux.Proto.GridOps.{ScrollOp, CellsOp, ScrollbackPushOp, ResizeOp}
use ckmux.Proto.Shapes.{CursorOp}
use ckmux.Proto.Limits.{max_grid_cells}
use ckmux.Proto.Runs.{total_cells, from_runs}
use ckmux.Proto.Runs.RoundTrip.{length-expand}
use ckmux.Delta.State.{Size, extent, area, StyleLib, GridState}
use ckmux.Delta.State.Screen.{cells-resize_state}
use ckmux.Delta.Shift.{length-shift_rows}
use ckmux.Delta.Repaint.Paint.{length-copy_to}
use ckmux.Delta.Apply.{
  check_op, check_ops, perform_op, perform_ops, apply_delta, accepted, check_lines,
}
use ckmux.Delta.Apply.Mirror.{
  passed, some_size, IsMirror, push_runs-IsMirror, cells-push_runs, resize_state-IsMirror,
  with_cells-IsMirror, same_history,
}
use ckmux.Delta.Apply.Delivers.{screen, check_ops-cons, check_ops-refused}

none_size : (a : Size) → ¬ (none ≡ some a)
none_size a e = cc

refused_accepted : ¬ (false ≡ true)
refused_accepted e = cc

both : (a b : Bool) → (a && b) ≡ true → b ≡ true
both true b e = e
both false b e = cc

module _ (L : CellLib) (k : StyleLib L) where
  -- What a performed operation leaves: a mirror of the size that the check went on with.
  abbrev Keeps : GridState L → Size → GridOp L → Type 0
  Keeps s after op = IsMirror L k (perform_op L k s op) × ((perform_op L k s op).cells ≡ after)

  scroll-Keeps :
      (s : GridState L) (op : ScrollOp) (after : Size)
      → IsMirror L k s
      → check_op L s.cells (GridOp.scroll op) ≡ some after
      → Keeps s after (GridOp.scroll op)
  unfolding check_op perform_op
  scroll-Keeps s op after h e =
      let (guard, same) = passed _ _ _ (rw h.cells at e) in
      let low : op.bottom ≤ h.height = ground (arith) in
      (
        with_cells-IsMirror L k s _
            (rw h.cells (
              length-shift_rows L k h.width op.top op.bottom op.lines s.grid (
                omega
                  (arith, h.grid, mul-le-mul_right {m = op.bottom} {n = h.height} h.width low))))
            h,
        h.cells ∙ same,
      )

  length-from_runs : (runs : List (CellRun L)) → length (from_runs L runs) ≤ total_cells L runs
  unfolding from_runs
  length-from_runs runs = elim (Bool-cases (ltb max_grid_cells (total_cells L runs))) [
    | inl many ↦ rw many (omega arith)
    | inr few ↦ rw few (omega (arith, length-expand L runs))
  ]

  cells-Keeps :
      (s : GridState L) (op : CellsOp L) (after : Size)
      → IsMirror L k s
      → check_op L s.cells (GridOp.cells op) ≡ some after
      → Keeps s after (GridOp.cells op)
  unfolding check_op perform_op
  cells-Keeps s op after h e =
      let (guard, same) = passed _ _ _ (rw h.cells at e) in
      let low : op.row < h.height = ground (arith) in
      let left : op.column ≤ h.width = ground (arith) in
      let few : total_cells L op.runs ≤ h.width - op.column = ground (arith) in
      (
        with_cells-IsMirror L k s _
            (rw h.cells (
              length-copy_to (op.row * h.width + op.column) (from_runs L op.runs) s.grid (
                omega
                  (arith, h.grid, length-from_runs op.runs, row-fits op.row h.height h.width low))))
            h,
        h.cells ∙ same,
      )

  cursor-Keeps :
      (s : GridState L) (op : CursorOp) (after : Size)
      → IsMirror L k s
      → check_op L s.cells (GridOp.cursor op) ≡ some after
      → Keeps s after (GridOp.cursor op)
  unfolding check_op perform_op
  cursor-Keeps s op after h e =
      let (guard, same) = passed _ _ _ (rw h.cells at e) in
      (
        record {
          width = h.width;
          height = h.height;
          cells = h.cells;
          grid = h.grid;
          cursor_column = ground (arith);
          cursor_row = ground (arith);
          history = same_history L k s _ refl refl refl refl h.history;
        },
        h.cells ∙ same,
      )

  resize-Keeps :
      (s : GridState L) (op : ResizeOp) (after : Size)
      → IsMirror L k s
      → check_op L s.cells (GridOp.resize op) ≡ some after
      → Keeps s after (GridOp.resize op)
  unfolding check_op perform_op
  resize-Keeps s op after h e =
      let (guard, same) = passed _ _ _ e in
      (
        resize_state-IsMirror L k s op.columns op.rows (ground (arith)) (ground (arith))
            (ground (arith)) h,
        cells-resize_state L k s (screen op.columns op.rows) ∙ same,
      )

  push-Keeps :
      (s : GridState L) (op : ScrollbackPushOp L) (after : Size)
      → IsMirror L k s
      → check_op L s.cells (GridOp.scrollback_push op) ≡ some after
      → Keeps s after (GridOp.scrollback_push op)
  unfolding check_op perform_op
  push-Keeps s op after h e =
      let same : s.cells ≡ after =
        elim (Bool-cases (check_lines L (extent s.cells.width) op.lines)) [
          | inl good ↦ some_size _ _ (rw good at e)
          | inr bad ↦ absurd (none_size after (rw bad at e))
        ] in
      elim (Bool-cases (s.max_scrollback_lines == 0)) [
        | inl none_kept ↦ rw none_kept (h, same)
        | inr kept ↦
            rw kept (push_runs-IsMirror L k s op.lines h, cells-push_runs L k s op.lines ∙ same)
      ]

  modes-Keeps :
      (s : GridState L) (modes : ℕ) → IsMirror L k s → IsMirror L k (record s { modes = modes })
  modes-Keeps s modes h = record {
    width = h.width;
    height = h.height;
    cells = h.cells;
    grid = h.grid;
    cursor_column = h.cursor_column;
    cursor_row = h.cursor_row;
    history = same_history L k s _ refl refl refl refl h.history;
  }

  title-Keeps :
      (s : GridState L) (title : List ℕ)
      → IsMirror L k s
      → IsMirror L k (record s { title = title })
  title-Keeps s title h = record {
    width = h.width;
    height = h.height;
    cells = h.cells;
    grid = h.grid;
    cursor_column = h.cursor_column;
    cursor_row = h.cursor_row;
    history = same_history L k s _ refl refl refl refl h.history;
  }

  op-Keeps :
      (s : GridState L) (op : GridOp L) (after : Size)
      → IsMirror L k s
      → check_op L s.cells op ≡ some after
      → Keeps s after op
  unfolding check_op perform_op
  op-Keeps s (GridOp.scroll op) after h e = scroll-Keeps s op after h e
  op-Keeps s (GridOp.cells op) after h e = cells-Keeps s op after h e
  op-Keeps s (GridOp.cursor op) after h e = cursor-Keeps s op after h e
  op-Keeps s (GridOp.resize op) after h e = resize-Keeps s op after h e
  op-Keeps s (GridOp.scrollback_push op) after h e = push-Keeps s op after h e
  op-Keeps s (GridOp.modes op) after h e = (modes-Keeps s _ h, some_size _ _ e)
  op-Keeps s (GridOp.title op) after h e = (title-Keeps s _ h, some_size _ _ e)

  perform_ops-IsMirror :
      (ops : List (GridOp L)) (s : GridState L)
      → IsMirror L k s
      → accepted L (check_ops L s.cells ops) ≡ true
      → IsMirror L k (perform_ops L k s ops)
  unfolding perform_ops
  perform_ops-IsMirror [] s h e = h
  perform_ops-IsMirror (op ∷ ops) s h e = elim (Option-cases (check_op L s.cells op)) [
    | inl c ↦
        absurd
          (refused_accepted (sym (ap (accepted L) (check_ops-refused L k op ops s.cells c)) ∙ e))
    | inr (after, c) ↦
        let (next, size) = op-Keeps s op after h c in
        perform_ops-IsMirror ops (perform_op L k s op) next (
          ap (λ n. accepted L (check_ops L n ops)) size
          ∙ sym (ap (accepted L) (check_ops-cons L k op ops s.cells after c))
          ∙ e)
  ]

  -- Whatever operations a peer sends to a mirror that is in order, it is in order afterwards, and
  -- when they are not accepted it is as it was.
  pub apply_delta-IsMirror :
      (ops : List (GridOp L)) (s : GridState L)
      → IsMirror L k s
      → IsMirror L k (apply_delta L k ops s).mirror
        × ((apply_delta L k ops s).accepted ≡ false → (apply_delta L k ops s).mirror ≡ s)
  unfolding apply_delta
  apply_delta-IsMirror ops s h =
      elim (Bool-cases (length s.grid == area s.cells && accepted L (check_ops L s.cells ops))) [
        | inl fine ↦
            rw fine
              (perform_ops-IsMirror ops s h (both (length s.grid == area s.cells) _ fine), λ e. cc)
        | inr refused ↦ rw refused (h, λ e. refl)
      ]
