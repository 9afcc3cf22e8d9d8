-- ===== src/Proto/Carried.antt =====
-- What a message is for the other end of the connection: src/common/proto.cpp sends of a cell its
-- text, its two colours and its attributes, and has reserved the place of the underline's style and
-- colour, so a cell arrives with a fresh style of which three members are set.
pub mod Exact
use ckmux.Prelude.{Bool, List, if◌then◌else◌}
use mathlib.Core.List.{map}
use ckmux.Proto.CellLib.{CellLib}
use ckmux.Proto.Cells.{CellRun, is_empty}
use ckmux.Proto.GridOps.{CellsOp, ScrollbackPushOp}
use ckmux.Proto.Grid.{GridOp}
use ckmux.Proto.Deltas.{GridDelta}
use ckmux.Proto.State.{TerminalState}
use ckmux.Proto.Snapshots.{Snapshot}
use ckmux.Proto.Attaching.{Attached}
use ckmux.Proto.Message.{Message}

module _ (L : CellLib) where
  -- A colour of the same kind, made from its parts.
  unfoldable pub carried_color : L.Color → L.Color
  carried_color c =
      if L.is_rgb c
      then L.rgb (L.red c) (L.green c) (L.blue c)
      else if L.is_indexed c
      then L.indexed (L.index c)
      else L.default_color

  -- A fresh style with the two colours and the attributes.
  unfoldable pub carried_style : L.Style → L.Style
  unfolding carried_color
  carried_style s = L.make_style (carried_color (L.fg s)) (carried_color (L.bg s)) (L.attrs s)

  -- A cell without text is the far half of a wide character.
  unfoldable pub carried_cell : L.Cell → L.Cell
  unfolding carried_style
  carried_cell c =
      if is_empty (L.grapheme c)
      then L.continuation (carried_style (L.style c))
      else L.from_grapheme (L.grapheme c) (carried_style (L.style c))

  abbrev pub carried_run : CellRun L → CellRun L
  carried_run run = record run { cell = carried_cell run.cell }

  abbrev pub carried_runs : List (CellRun L) → List (CellRun L)
  carried_runs = map carried_run

  abbrev pub carried_lines : List (List (CellRun L)) → List (List (CellRun L))
  carried_lines = map carried_runs

  abbrev pub carried_state : TerminalState L → TerminalState L
  carried_state m = record m { grid = carried_runs m.grid; scrollback = carried_lines m.scrollback }

  abbrev pub carried_snapshot : Snapshot L → Snapshot L
  carried_snapshot m = record m { terminals = map carried_state m.terminals }

  abbrev pub carried_attached : Attached L → Attached L
  carried_attached m = record m { snapshot = carried_snapshot m.snapshot }

  abbrev pub carried_op : GridOp L → GridOp L
  carried_op (GridOp.cells op) = GridOp.cells (record op { runs = carried_runs op.runs })
  carried_op (GridOp.scrollback_push op) =
      GridOp.scrollback_push (record op { lines = carried_lines op.lines })
  carried_op op = op

  abbrev pub carried_delta : GridDelta L → GridDelta L
  carried_delta m = record m { ops = map carried_op m.ops }

  -- The messages that have cells are the answer to an attach and the changes of a grid.
  abbrev pub carried : Message L → Message L
  carried (Message.attached m) = Message.attached (carried_attached m)
  carried (Message.grid_delta m) = Message.grid_delta (carried_delta m)
  carried m = m
