-- ===== src/Proto/Carried/Exact.antt =====
-- Which messages of src/common/proto.cpp the other end gets as they are.
use ckmux.Prelude.{◌≡◌, refl, List, [], ◌∷◌, All, All-map}
use mathlib.Core.List.{map}
use ckmux.Proto.CellLib.{CellLib}
use ckmux.Proto.Cells.{CellRun}
use ckmux.Proto.Grid.{GridOp}
use ckmux.Proto.State.{TerminalState}
use ckmux.Proto.Message.{Message}
use ckmux.Proto.Carried.{
  carried_cell, carried_run, carried_runs, carried_lines, carried_state, carried_op, carried,
}

map-All_fixed {ℓ} : {A : Type ℓ} (f : A → A) (xs : List A) → All (λ x. f x ≡ x) xs → map f xs ≡ xs
map-All_fixed f [] h = refl
map-All_fixed f (x ∷ xs) (h, k) = rw (h, map-All_fixed f xs k) refl

module _ (L : CellLib) where
  -- The cell has nothing but what is sent of it: no underline of its own, and the width of its text.
  abbrev pub IsPlainRun : CellRun L → Type 0
  IsPlainRun run = carried_cell L run.cell ≡ run.cell

  abbrev pub IsPlainRow : List (CellRun L) → Type 0
  IsPlainRow = All IsPlainRun

  abbrev pub IsPlainState : TerminalState L → Type 0
  IsPlainState m = IsPlainRow m.grid × All IsPlainRow m.scrollback

  abbrev pub IsPlainOp : GridOp L → Type 0
  IsPlainOp (GridOp.cells op) = IsPlainRow op.runs
  IsPlainOp (GridOp.scrollback_push op) = All IsPlainRow op.lines
  IsPlainOp _ = Unit

  -- Every cell of the message is such a cell.
  abbrev pub IsPlainMessage : Message L → Type 0
  IsPlainMessage (Message.attached m) = All IsPlainState m.snapshot.terminals
  IsPlainMessage (Message.grid_delta m) = All IsPlainOp m.ops
  IsPlainMessage _ = Unit

  carried_runs-plain : (runs : List (CellRun L)) → IsPlainRow runs → carried_runs L runs ≡ runs
  carried_runs-plain runs h =
      map-All_fixed (carried_run L) runs (All-map (λ run k. rw k refl) runs h)

  carried_lines-plain :
      (lines : List (List (CellRun L))) → All IsPlainRow lines → carried_lines L lines ≡ lines
  carried_lines-plain lines h =
      map-All_fixed (carried_runs L) lines (All-map carried_runs-plain lines h)

  carried_state-plain : (m : TerminalState L) → IsPlainState m → carried_state L m ≡ m
  carried_state-plain m (grid, scrollback) =
      rw (carried_runs-plain m.grid grid, carried_lines-plain m.scrollback scrollback) refl

  carried_op-plain : (op : GridOp L) → IsPlainOp op → carried_op L op ≡ op
  carried_op-plain (GridOp.cells op) h = rw (carried_runs-plain op.runs h) refl
  carried_op-plain (GridOp.scrollback_push op) h = rw (carried_lines-plain op.lines h) refl
  carried_op-plain (GridOp.scroll op) h = refl
  carried_op-plain (GridOp.cursor op) h = refl
  carried_op-plain (GridOp.modes op) h = refl
  carried_op-plain (GridOp.title op) h = refl
  carried_op-plain (GridOp.resize op) h = refl

  -- A message of plain cells arrives as it is.
  pub carried-plain : (m : Message L) → IsPlainMessage m → carried L m ≡ m
  carried-plain (Message.hello m) h = refl
  carried-plain (Message.hello_ack m) h = refl
  carried-plain (Message.refuse m) h = refl
  carried-plain (Message.ping m) h = refl
  carried-plain (Message.pong m) h = refl
  carried-plain (Message.list_sessions m) h = refl
  carried-plain (Message.new_session m) h = refl
  carried-plain (Message.attach m) h = refl
  carried-plain (Message.detach m) h = refl
  carried-plain (Message.client_resize m) h = refl
  carried-plain (Message.rename_session m) h = refl
  carried-plain (Message.kill_session m) h = refl
  carried-plain (Message.kill_server m) h = refl
  carried-plain (Message.session_list m) h = refl
  carried-plain (Message.sessions_changed m) h = refl
  carried-plain (Message.attached m) h =
      rw
        (map-All_fixed (carried_state L) m.snapshot.terminals
          (All-map carried_state-plain m.snapshot.terminals h))
        refl
  carried-plain (Message.detached m) h = refl
  carried-plain (Message.new_terminal m) h = refl
  carried-plain (Message.close_terminal m) h = refl
  carried-plain (Message.kill_terminal m) h = refl
  carried-plain (Message.respawn_terminal m) h = refl
  carried-plain (Message.set_desktop_size m) h = refl
  carried-plain (Message.set_reader_mode m) h = refl
  carried-plain (Message.reader_mode m) h = refl
  carried-plain (Message.move_terminal m) h = refl
  carried-plain (Message.move_resize m) h = refl
  carried-plain (Message.raise m) h = refl
  carried-plain (Message.focus_term m) h = refl
  carried-plain (Message.zoom_term m) h = refl
  carried-plain (Message.set_layout m) h = refl
  carried-plain (Message.rename_terminal m) h = refl
  carried-plain (Message.input m) h = refl
  carried-plain (Message.paste_chunk m) h = refl
  carried-plain (Message.paste_ack m) h = refl
  carried-plain (Message.layout_delta m) h = refl
  carried-plain (Message.term_opened m) h = refl
  carried-plain (Message.term_closed m) h = refl
  carried-plain (Message.term_meta m) h = refl
  carried-plain (Message.grid_delta m) h =
      rw (map-All_fixed (carried_op L) m.ops (All-map carried_op-plain m.ops h)) refl
  carried-plain (Message.image_add_begin m) h = refl
  carried-plain (Message.image_chunk m) h = refl
  carried-plain (Message.image_end m) h = refl
  carried-plain (Message.image_place m) h = refl
  carried-plain (Message.image_remove m) h = refl
  carried-plain (Message.clipboard_set m) h = refl
  carried-plain (Message.term_diagnostic m) h = refl
  carried-plain (Message.error m) h = refl
  carried-plain (Message.set_printer_policy m) h = refl
  carried-plain (Message.print_state m) h = refl
  carried-plain (Message.print_job_added m) h = refl
  carried-plain (Message.print_job_fetch m) h = refl
  carried-plain (Message.print_job_data m) h = refl
  carried-plain (Message.print_job_discard m) h = refl
  carried-plain (Message.watch_stats m) h = refl
  carried-plain (Message.term_stats m) h = refl
