-- ===== src/Server/Differ/Follows.antt =====
-- A client's mirror follows what `TerminalDiffer::flush` of src/server/diff_engine.cpp sends, tick by
-- tick.
use ckmux.Prelude.{
  ℕ, ◌^◌, ◌<◌, ◌≡◌, refl, sym, ap, ◌∙◌, true, false, Option, none, some, List, length, All,
  Bool-cases, inl, inr,
}
use ckmux.Proto.CellLib.{CellLib}
use ckmux.Proto.Grid.{GridOp}
use ckmux.Proto.Deltas.{GridDelta}
use ckmux.Proto.Runs.{CellTests}
use ckmux.Proto.Runs.RoundTrip.{CellTestsLaws}
use ckmux.Delta.State.{Size, area, same_size, StyleLib, GridState}
use ckmux.Delta.Rows.{row_of}
use ckmux.Delta.Diff.{GridView, examined, diff, full_repaint, view_of}
use ckmux.Delta.Diff.Pieces.{IsLine}
use ckmux.Delta.Diff.View.{IsView, shows, resized, cells-resized, apply_delta-full_repaint}
use ckmux.Delta.Diff.Exact.{apply_delta-diff}
use ckmux.Delta.Apply.{Applied, apply_delta}
use ckmux.Client.Mirror.{TerminalMirror, apply}
use ckmux.Client.Mirror.Screen.{diff-same}
use ckmux.Server.Differ.{Reading, hints_of, changes, belief, state_of}

module _ (L : CellLib) (k : StyleLib L) (t : CellTests L) where
  -- What a mirror does with what was sent, if anything was.
  abbrev pub deliver : TerminalMirror L → Option (GridDelta L) → TerminalMirror L
  deliver m none = m
  deliver m (some delta) = (apply L k m delta).mirror

  -- A mirror whose screen is what the server believes, and who waits for the next number.
  pub record InSync (believed : GridState L) (number : ℕ) (m : TerminalMirror L) : Type 0 where
    pub screen : view_of L k t believed ≡ view_of L k t m.state
    pub grid : length m.state.grid ≡ area m.state.cells
    pub modes : m.state.modes < 2 ^ 32
    pub sequence : number ≡ m.sequence

  -- What operations make of a state: they are accepted, and then its screen is the view's.
  pub record Brings (ops : List (GridOp L)) (s : GridState L) (view : GridView L) : Type 0 where
    pub after : GridState L
    pub applied : apply_delta L k ops s ≡ record { accepted = true; mirror = after }
    pub screen : view_of L k t after ≡ view

  -- What a tick reads: a view that fits, with a damage report that names every row that differs from
  -- what is believed.
  pub record IsReading (width height : ℕ) (believed : GridState L) (r : Reading L) : Type 0 where
    pub view : IsView L width height r.view
    pub named :
        same_size believed.cells r.view.cells ≡ true
        → (row : ℕ) → row < height
        → examined (hints_of L k t r) row ≡ false
        → row_of believed.grid width row ≡ row_of r.view.grid width row

module _ (L : CellLib) (k : StyleLib L) (t : CellTests L) (laws : CellTestsLaws L t)
    (width height : ℕ) (believed : GridState L) (r : Reading L)
    (reading : IsReading L k t width height believed r) (pushed : List (List L.Cell))
    (lines : All (IsLine width) pushed) where
  abbrev view_sized : Size → GridView L
  view_sized n = record {
    cells = n;
    grid = r.view.grid;
    cursor = r.view.cursor;
    modes = r.view.modes;
    title = r.view.title;
  }

  view_of-shows :
      (s : GridState L) → s.cells ≡ r.view.cells → view_of L k t (shows L s r.view) ≡ r.view
  unfolding view_of
  view_of-shows s e = ap view_sized e

  abbrev after_tick : GridState L → GridState L
  after_tick s = resized L k t laws width height r.view reading.view s pushed

  full_repaint-Brings :
      (s : GridState L)
      → length s.grid ≡ area s.cells
      → Brings L k t (full_repaint L k t r.view pushed) s r.view
  full_repaint-Brings s sized = record {
    after = shows L (after_tick s) r.view;
    applied =
        apply_delta-full_repaint L k t laws width height r.view reading.view s pushed sized lines;
    screen = view_of-shows (after_tick s) (
        cells-resized L k t laws width height r.view reading.view s pushed
        ∙ sym reading.view.cells);
  }

  diff-Brings :
      (s : GridState L)
      → view_of L k t believed ≡ view_of L k t s
      → length s.grid ≡ area s.cells
      → s.modes < 2 ^ 32
      → Brings L k t (diff L k t believed r.view pushed (hints_of L k t r)) s r.view
  unfolding view_of
  diff-Brings s e sized small = record {
    after = shows L (after_tick s) r.view;
    applied =
        ap (λ ops. apply_delta L k ops s)
          (diff-same L k t believed s r.view pushed (hints_of L k t r) e)
        ∙ apply_delta-diff L k t laws width height r.view reading.view s sized pushed
            (hints_of L k t r) small lines
            (λ same row low skipped.
              ap (λ (v : GridView L). row_of v.grid width row) (sym e)
              ∙ reading.named (ap (λ (v : GridView L). same_size v.cells r.view.cells) e ∙ same) row
                  low skipped);
    screen = view_of-shows (after_tick s) (
        cells-resized L k t laws width height r.view reading.view s pushed
        ∙ sym reading.view.cells);
  }

  -- The server's own belief takes the operations, so that it never repaints in full for want of it.
  believed-accepts :
      length believed.grid ≡ area believed.cells
      → believed.modes < 2 ^ 32
      → (apply_delta L k (diff L k t believed r.view pushed (hints_of L k t r)) believed).accepted
        ≡ true
  believed-accepts sized small =
      ap (λ (a : Applied L). a.accepted) (diff-Brings believed refl sized small).applied

  pub changes-Brings :
      (s : GridState L)
      → view_of L k t believed ≡ view_of L k t s
      → length believed.grid ≡ area believed.cells
      → believed.modes < 2 ^ 32
      → length s.grid ≡ area s.cells
      → s.modes < 2 ^ 32
      → Brings L k t (changes L k t believed r pushed) s r.view
  unfolding changes
  changes-Brings s e has few sized small =
      elim (Bool-cases (same_size believed.cells r.view.cells)) [
        | inl same ↦ rw (same, believed-accepts has few) (diff-Brings s e sized small)
        | inr other ↦ rw other (full_repaint-Brings s sized)
      ]

  pub belief-shows :
      length believed.grid ≡ area believed.cells
      → believed.modes < 2 ^ 32
      → view_of L k t (belief L k t believed r pushed) ≡ r.view
  unfolding belief state_of view_of
  belief-shows has few = elim (Bool-cases (same_size believed.cells r.view.cells)) [
    | inl same ↦
        let brings = diff-Brings believed refl has few in
        rw (same, believed-accepts has few)
          (ap (λ (a : Applied L). view_of L k t a.mirror) brings.applied ∙ brings.screen)
    | inr other ↦ rw other refl
  ]
