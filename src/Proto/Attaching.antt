-- ===== src/Proto/Attaching.antt =====
-- The answer to an attach (src/common/proto.hpp), as src/common/proto.cpp writes and reads it.
pub mod RoundTrip
use ckmux.Prelude.{ℕ}
use ckmux.Proto.Wire.{Put, ◌▸◌, Get, ◌>>=◌, pure}
use ckmux.Proto.Writer
use ckmux.Proto.Reader
use ckmux.Proto.CellLib.{CellLib}
use ckmux.Proto.Snapshots.{Snapshot, write_snapshot, read_snapshot}

pub record Attached (L : CellLib) : Type 0 where
  pub session : ℕ
  pub snapshot : Snapshot L

unfoldable pub write_attached : (L : CellLib) → Attached L → Put
write_attached L m = Writer.u64 m.session ▸ write_snapshot L m.snapshot

unfoldable pub read_attached : (L : CellLib) → Get (Attached L)
read_attached L = do
  session ← Reader.u64
  snapshot ← read_snapshot L
  pure (record { session = session; snapshot = snapshot })
