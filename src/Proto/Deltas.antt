-- ===== src/Proto/Deltas.antt =====
-- The message that carries a grid's changes (src/common/proto.hpp), as src/common/proto.cpp writes
-- and reads it.
pub mod RoundTrip
use ckmux.Prelude.{ℕ, List}
use ckmux.Proto.Wire.{Put, ◌▸◌, Get, ◌>>=◌, pure}
use ckmux.Proto.Writer
use ckmux.Proto.Reader
use ckmux.Proto.CellLib.{CellLib}
use ckmux.Proto.Grid.{GridOp, write_grid_ops, read_grid_ops}

pub record GridDelta (L : CellLib) : Type 0 where
  pub term : ℕ
  pub seq : ℕ
  pub ops : List (GridOp L)

unfoldable pub write_grid_delta : (L : CellLib) → GridDelta L → Put
write_grid_delta L m = Writer.u64 m.term ▸ Writer.u32 m.seq ▸ write_grid_ops L m.ops

unfoldable pub read_grid_delta : (L : CellLib) → Get (GridDelta L)
read_grid_delta L = do
  term ← Reader.u64
  seq ← Reader.u32
  ops ← read_grid_ops L
  pure (record { term = term; seq = seq; ops = ops })
