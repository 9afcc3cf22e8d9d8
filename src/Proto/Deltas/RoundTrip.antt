-- ===== src/Proto/Deltas/RoundTrip.antt =====
-- The message that carries a grid's changes is read as the wire carries it.
use ckmux.Prelude.{◌+◌, ◌^◌, ◌<◌}
use ckmux.Proto.CellLib.{CellLib}
use ckmux.Proto.Carried.{carried_delta}
use ckmux.Proto.Codes.{Codes, Codes-seq, Codes-last}
use ckmux.Proto.Codes.Numbers.{Codes-u32, Codes-u64}
use ckmux.Proto.Codes.Entries.{total}
use ckmux.Proto.Grid.RoundTrip.{grid_op_size, FitsGridOps, Codes-grid_ops}
use ckmux.Proto.Deltas.{GridDelta, write_grid_delta, read_grid_delta}

pub record FitsGridDelta (L : CellLib) (m : GridDelta L) : Type 0 where
  pub term : m.term < 2 ^ 64
  pub seq : m.seq < 2 ^ 32
  pub ops : FitsGridOps L m.ops

pub Codes-grid_delta :
    (L : CellLib) (m : GridDelta L)
    → FitsGridDelta L m
    → Codes
        (write_grid_delta L m)
        (read_grid_delta L)
        (carried_delta L m)
        (8 + (4 + ((4 + total (grid_op_size L) m.ops))))
unfolding write_grid_delta read_grid_delta
Codes-grid_delta L m h =
    (Codes-seq _ (Codes-u64 m.term h.term)
      (Codes-seq _ (Codes-u32 m.seq h.seq) (Codes-last _ (Codes-grid_ops L m.ops h.ops))))
