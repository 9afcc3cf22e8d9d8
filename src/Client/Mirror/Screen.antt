-- ===== src/Client/Mirror/Screen.antt =====
-- What `diff` of src/common/grid_delta.cpp sends depends on what is on the old screen alone, not on
-- the history that is kept with it.
use ckmux.Prelude.{◌≡◌, ap, List, []}
use ckmux.Proto.CellLib.{CellLib}
use ckmux.Proto.Runs.{CellTests}
use ckmux.Delta.State.{StyleLib, GridState}
use ckmux.Delta.Diff.{GridView, RowDamage, diff, emit_grid, same_geometry, view_of}

module _ (L : CellLib) (k : StyleLib L) (t : CellTests L) where
  pub diff-same :
      (a b : GridState L) (current : GridView L) (pushed : List (List L.Cell))
      (damaged : List RowDamage)
      → view_of L k t a ≡ view_of L k t b
      → diff L k t a current pushed damaged ≡ diff L k t b current pushed damaged
  unfolding diff emit_grid same_geometry view_of
  diff-same a b current pushed damaged e =
      ap
        (λ (v : GridView L).
          diff L k t
            (record {
              cells = v.cells;
              grid = v.grid;
              scrollback = [];
              scrollback_start = 0;
              max_scrollback_lines = 0;
              cursor = v.cursor;
              modes = v.modes;
              title = v.title;
            })
            current pushed damaged)
        e
