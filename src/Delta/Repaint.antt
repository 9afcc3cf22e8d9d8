-- ===== src/Delta/Repaint.antt =====
-- Which cells of a changed row are sent, and in how many operations: `emit_changed_row` and
-- `emit_every_row` of src/common/grid_delta.cpp. What the mirror has and what is wanted in a row are
-- given from the run that is looked at onward.
pub mod Coverage
pub mod Paint
use Prim.Native.Nat.{min}
use ckmux.Prelude.{
  ℕ, zero, suc, ◌+◌, ◌-◌, ◌%◌, ◌^◌, Bool, true, false, ◌&&◌, ◌||◌, not, Option, none, some, List,
  [], ◌∷◌, ◌++◌, length, take, drop, ltb, ◌==◌, if◌then◌else◌,
}
use ckmux.Proto.CellLib.{CellLib}
use ckmux.Proto.Cells.{CellRun}
use ckmux.Proto.Cells.Size.{run_size, runs_size}
use ckmux.Proto.GridOps.{CellsOp}
use ckmux.Proto.Grid.{GridOp}
use ckmux.Proto.Runs.{CellTests, to_runs}
use ckmux.Delta.Rows.{row_of}

-- The columns from `first` on, before `last`.
pub record Span : Type 0 where
  pub first : ℕ
  pub last : ℕ

-- `have_span` is that there is one.
pub record Pending : Type 0 where
  pub span : Span
  pub gap_bytes : ℕ

-- What one round over a run puts out, and what it leaves pending.
pub record Round : Type 0 where
  pub emitted : List Span
  pub pending : Option Pending

abbrev pub slice {ℓ} : {A : Type ℓ} → Span → List A → List A
slice span cells = take (span.last - span.first) (drop span.first cells)

abbrev pub flush : Option Pending → List Span
flush none = []
flush (some p) = p.span ∷ []

module _ (L : CellLib) (t : CellTests L) where
  unfoldable pub same_cell : L.Cell → L.Cell → Bool
  same_cell a b =
      t.same_text (L.grapheme a) (L.grapheme b)
      && t.same_width (L.width a) (L.width b)
      && t.same_style (L.style a) (L.style b)

  -- How many cells follow that are the same as the first of their run.
  unfoldable pub same_count : L.Cell → List L.Cell → ℕ
  same_count first [] = 0
  same_count first (cell ∷ cells) =
      let rest = same_count first cells in if same_cell first cell then suc rest else 0

  -- The loop over the columns of a run that looks for the first and the last change.
  unfoldable pub changed : ℕ → ℕ → List L.Cell → List L.Cell → Span → Span
  changed zero column mirror wanted span = span
  changed (suc count) column (m ∷ mirror) (w ∷ wanted) span =
      changed count (suc column) mirror wanted (
        if same_cell m w then span else record { first = min span.first column; last = suc column })
  changed (suc count) column _ _ span = span

  -- encoded_size(CellsOp{})
  unfoldable pub cells_op_overhead : ℕ
  cells_op_overhead = 1 + 2 + 2 + runs_size L []

  -- A run in which nothing has changed.
  unfoldable pub pass_run : CellRun L → Option Pending → Option Pending
  pass_run run none = none
  pass_run run (some p) = some (record p { gap_bytes = p.gap_bytes + run_size L run })

  -- A run with a change.
  unfoldable pub take_run : Span → Option Pending → Round
  take_run span none = record {
    emitted = [];
    pending = some (record { span = span; gap_bytes = 0 });
  }
  take_run span (some p) =
      if ltb cells_op_overhead p.gap_bytes
      then record { emitted = p.span ∷ []; pending = some (record { span = span; gap_bytes = 0 }) }
      else record {
        emitted = [];
        pending =
            some
              (record { span = record { first = p.span.first; last = span.last }; gap_bytes = 0 });
      }

  unfoldable pub round : ℕ → ℕ → CellRun L → Span → Option Pending → Round
  round run_first run_last run span pending =
      if span.first == run_last
      then record { emitted = []; pending = pass_run run pending }
      else take_run span pending

  -- The loop over the runs, on fuel.
  unfoldable pub spans_from : ℕ → ℕ → List L.Cell → List L.Cell → Option Pending → List Span
  spans_from zero run_first mirror wanted pending = flush pending
  spans_from (suc fuel) run_first mirror [] pending = flush pending
  spans_from (suc fuel) run_first mirror (cell ∷ wanted) pending =
      let count = suc (same_count cell wanted) in
      let run_last = run_first + count in
      let span =
        changed count run_first mirror (cell ∷ wanted)
          (record { first = run_last; last = run_first }) in
      let r =
        round run_first run_last (record { run_length = count % 2 ^ 16; cell = cell }) span
          pending in
      r.emitted
      ++ spans_from fuel run_last (drop count mirror) (drop count (cell ∷ wanted)) r.pending

  -- `emit_span`
  unfoldable pub emit_span : ℕ → List L.Cell → Span → GridOp L
  emit_span row wanted span =
      GridOp.cells
        (record { row = row; column = span.first % 2 ^ 16; runs = to_runs L t (slice span wanted) })

  unfoldable pub emit_spans : ℕ → List L.Cell → List Span → List (GridOp L)
  emit_spans row wanted [] = []
  emit_spans row wanted (span ∷ spans) = emit_span row wanted span ∷ emit_spans row wanted spans

  unfoldable pub emit_changed_row : ℕ → List L.Cell → List L.Cell → List (GridOp L)
  emit_changed_row row mirror wanted =
      if not (length mirror == length wanted) || length wanted == 0
      then []
      else emit_spans row wanted (spans_from (length wanted) 0 mirror wanted none)

  -- The loop of `emit_every_row`, for `count` rows from `row` on.
  unfoldable pub every_row : ℕ → ℕ → ℕ → List L.Cell → List (GridOp L)
  every_row width zero row grid = []
  every_row width (suc count) row grid =
      GridOp.cells
        (record { row = row % 2 ^ 16; column = 0; runs = to_runs L t (row_of grid width row) })
      ∷ every_row width count (suc row) grid
