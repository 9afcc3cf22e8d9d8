-- ===== src/Server/Differ/Ticks.antt =====
-- A tick of `TerminalDiffer::flush` in src/server/diff_engine.cpp, delivered to a mirror of
-- src/client/mirror.cpp.
use ckmux.Prelude.{
  ℕ, ◌+◌, ◌*◌, ◌%◌, ◌^◌, ◌<◌, ◌≡◌, refl, sym, ap, ◌∙◌, Bool, true, false, some, List, [], ◌∷◌,
  length, All, ltb, ==_refl, if◌then◌else◌, Bool-cases, inl, inr, arith,
}
use ckmux.Proto.CellLib.{CellLib}
use ckmux.Proto.Grid.{GridOp}
use ckmux.Proto.Deltas.{GridDelta}
use ckmux.Proto.Runs.{CellTests}
use ckmux.Proto.Runs.RoundTrip.{CellTestsLaws}
use ckmux.Delta.State.{Size, area, StyleLib, GridState}
use ckmux.Delta.Diff.{GridView, view_of}
use ckmux.Delta.Diff.Pieces.{IsLine}
use ckmux.Delta.Diff.View.{IsView}
use ckmux.Delta.Apply.{Applied, apply_delta}
use ckmux.Delta.Apply.Delivers.{screen, Delivers-nil, apply_delta-Delivers}
use ckmux.Client.Mirror.{TerminalMirror, Taken, apply}
use ckmux.Server.Differ.{
  Reading, TerminalDiffer, Flushed, changes, belief, newest_history_lines, send, flush,
  max_history_lines_per_delta,
}
use ckmux.Server.Differ.Lines.{newest_history_lines-IsLine}
use ckmux.Server.Differ.Follows.{deliver, InSync, Brings, IsReading, changes-Brings, belief-shows}

module _ (L : CellLib) (k : StyleLib L) (t : CellTests L) where
  -- A mirror that has followed a tick: it is in step, has missed nothing, asks for nothing new, and
  -- shows what was read.
  pub record Followed (view : GridView L) (m : TerminalMirror L) (f : Flushed L) : Type 0 where
    pub sync : InSync L k t f.differ.believed f.differ.sequence (deliver L k t m f.delta)
    pub gaps : (deliver L k t m f.delta).gaps ≡ m.gaps
    pub needs_snapshot : (deliver L k t m f.delta).needs_snapshot ≡ m.needs_snapshot
    pub shows : view_of L k t (deliver L k t m f.delta).state ≡ view

  view-sized :
      (width height : ℕ) (view : GridView L) (s : GridState L)
      → IsView L width height view
      → view_of L k t s ≡ view
      → (length s.grid ≡ area s.cells) × (s.modes < 2 ^ 32)
  unfolding view_of
  view-sized width height view s h e =
      let grid : length s.grid ≡ height * width =
        ap (λ (v : GridView L). length v.grid) e ∙ h.grid in
      let cells : s.cells ≡ screen width height = ap (λ (v : GridView L). v.cells) e ∙ h.cells in
      let modes : s.modes ≡ view.modes = ap (λ (v : GridView L). v.modes) e in
      (grid ∙ omega arith ∙ sym (ap area cells), rw modes h.modes)

  -- The next delta, that fits, is taken.
  accepted_next :
      (m : TerminalMirror L) (id number : ℕ) (ops : List (GridOp L)) (after : GridState L)
      → number ≡ (m.sequence + 1) % 2 ^ 32
      → apply_delta L k ops m.state ≡ record { accepted = true; mirror = after }
      → apply L k m (record { term = id; seq = number; ops = ops })
        ≡ record { accepted = true; mirror = record m { state = after; sequence = number } }
  unfolding apply
  accepted_next m id number ops after e f = rw (e, ==_refl ((m.sequence + 1) % 2 ^ 32), f) refl

  Followed-sent :
      (width height number : ℕ) (view : GridView L) (m : TerminalMirror L) (d : TerminalDiffer L)
      (delta : GridDelta L) (after : GridState L)
      → IsView L width height view
      → view_of L k t d.believed ≡ view
      → view_of L k t after ≡ view
      → (apply L k m delta).mirror ≡ record m { state = after; sequence = number }
      → Followed view m (record { delta = some delta; differ = record d { sequence = number } })
  Followed-sent width height number view m d delta after h believes shown e =
      let (sized, small) = view-sized width height view after h shown in
      record {
        sync = record {
          screen =
              believes ∙ sym shown ∙ ap (λ (n : TerminalMirror L). view_of L k t n.state) (sym e);
          grid =
              ap (λ (n : TerminalMirror L). length n.state.grid) e
              ∙ sized
              ∙ ap (λ (n : TerminalMirror L). area n.state.cells) (sym e);
          modes = rw (ap (λ (n : TerminalMirror L). n.state.modes) e) small;
          sequence = ap (λ (n : TerminalMirror L). n.sequence) (sym e);
        };
        gaps = ap (λ (n : TerminalMirror L). n.gaps) e;
        needs_snapshot = ap (λ (n : TerminalMirror L). n.needs_snapshot) e;
        shows = ap (λ (n : TerminalMirror L). view_of L k t n.state) e ∙ shown;
      }

  send-Followed :
      (width height id : ℕ) (view : GridView L) (m : TerminalMirror L) (d : TerminalDiffer L)
      (ops : List (GridOp L))
      → IsView L width height view
      → length m.state.grid ≡ area m.state.cells
      → d.sequence ≡ m.sequence
      → view_of L k t d.believed ≡ view
      → Brings L k t ops m.state view
      → Followed view m (send L k t d id ops)
  unfolding send
  send-Followed width height id view m d [] h sized same believes brings =
      let stays : brings.after ≡ m.state =
        ap (λ (a : Applied L). a.mirror)
          (sym brings.applied
            ∙ apply_delta-Delivers L k [] m.state m.state sized (Delivers-nil L k m.state)) in
      let shown = ap (view_of L k t) (sym stays) ∙ brings.screen in
      record {
        sync = record {
          screen = believes ∙ sym shown;
          grid = sized;
          modes = (view-sized width height view m.state h shown).1;
          sequence = same;
        };
        gaps = refl;
        needs_snapshot = refl;
        shows = shown;
      }
  send-Followed width height id view m d (op ∷ ops) h sized same believes brings =
      let number = (d.sequence + 1) % 2 ^ 32 in
      let taken : apply L k m (record { term = id; seq = number; ops = op ∷ ops }) ≡ record {
        accepted = true;
        mirror = record m { state = brings.after; sequence = number };
      } =
        accepted_next m id number (op ∷ ops) brings.after (ap (λ n. (n + 1) % 2 ^ 32) same)
          brings.applied in
      Followed-sent width height number view m d _ brings.after h believes brings.screen
        (ap (λ (a : Taken L). a.mirror) taken)

  believed-sized :
      (believed s : GridState L)
      → view_of L k t believed ≡ view_of L k t s
      → length s.grid ≡ area s.cells
      → s.modes < 2 ^ 32
      → (length believed.grid ≡ area believed.cells) × (believed.modes < 2 ^ 32)
  unfolding view_of
  believed-sized believed s e sized small =
      let modes : believed.modes ≡ s.modes = ap (λ (v : GridView L). v.modes) e in
      (
        ap (λ (v : GridView L). length v.grid) e
            ∙ sized
            ∙ ap (λ (v : GridView L). area v.cells) (sym e),
        rw modes small,
      )

  flush_sends :
      (d : TerminalDiffer L) (id : ℕ) (r : Reading L)
      → r.any ≡ true
      → d.history_diverged ≡ false
      → (flooded : Bool) (pushed : List (List L.Cell))
      → ltb max_history_lines_per_delta r.scrollback_pushed ≡ flooded
      → (if flooded
          then []
          else newest_history_lines L r.scrollback r.view.cells.width r.scrollback_pushed)
        ≡ pushed
      → flush L k t d id r
        ≡ send L k t
            (record d {
              believed = belief L k t d.believed r pushed;
              history_diverged = if flooded then true else d.history_diverged;
            })
            id
            (changes L k t d.believed r pushed)
  unfolding flush
  flush_sends d id r damaged caught_up true pushed flooded e = simp (damaged, flooded, e) refl
  flush_sends d id r damaged caught_up false pushed flooded e =
      simp (damaged, flooded, caught_up, e) refl

  -- If the view that a tick reads has 1 to 1000 columns and rows with the cursor in it, there is
  -- damage, its report names every row that differs from what the server believes, and the history is
  -- not behind, then a mirror in step with the belief follows: what was sent, if anything was, is
  -- taken, and the mirror shows the view, is in step again, and counts no gap and needs no snapshot
  -- that it did not before.
  pub flush-Followed :
      CellTestsLaws L t
      → (width height id : ℕ) (m : TerminalMirror L) (d : TerminalDiffer L) (r : Reading L)
      → InSync L k t d.believed d.sequence m
      → IsReading L k t width height d.believed r
      → r.any ≡ true
      → d.history_diverged ≡ false
      → Followed r.view m (flush L k t d id r)
  flush-Followed laws width height id m d r sync reading damaged caught_up =
      let (sized, small) = believed-sized d.believed m.state sync.screen sync.grid sync.modes in
      elim (Bool-cases (ltb max_history_lines_per_delta r.scrollback_pushed)) [
        | inl flooded ↦
            let sends = flush_sends d id r damaged caught_up true [] flooded refl in
            rw sends (
              send-Followed width height id r.view m _ _ reading.view sync.grid sync.sequence
                (belief-shows L k t laws width height d.believed r reading [] tt sized small)
                (changes-Brings L k t laws width height d.believed r reading [] tt m.state
                  sync.screen sized small sync.grid sync.modes))
        | inr calm ↦
            let pushed =
              newest_history_lines L r.scrollback r.view.cells.width r.scrollback_pushed in
            let lines : All (IsLine width) pushed =
              rw (ap (λ (n : Size). n.width) reading.view.cells) (
                newest_history_lines-IsLine L r.scrollback width r.scrollback_pushed
                  reading.view.some_columns) in
            let sends = flush_sends d id r damaged caught_up false pushed calm refl in
            rw sends (
              send-Followed width height id r.view m _ _ reading.view sync.grid sync.sequence
                (belief-shows L k t laws width height d.believed r reading pushed lines sized small)
                (changes-Brings L k t laws width height d.believed r reading pushed lines m.state
                  sync.screen sized small sync.grid sync.modes))
      ]
