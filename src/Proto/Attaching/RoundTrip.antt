-- ===== src/Proto/Attaching/RoundTrip.antt =====
-- The answer to an attach is read as the wire carries it.
use ckmux.Prelude.{◌+◌, ◌^◌, ◌<◌}
use ckmux.Proto.CellLib.{CellLib}
use ckmux.Proto.Carried.{carried_attached}
use ckmux.Proto.Codes.{Codes, Codes-seq, Codes-last}
use ckmux.Proto.Codes.Numbers.{Codes-u64}
use ckmux.Proto.Snapshots.{snapshot_size}
use ckmux.Proto.Snapshots.RoundTrip.{FitsSnapshot, Codes-snapshot}
use ckmux.Proto.Attaching.{Attached, write_attached, read_attached}

pub record FitsAttached (L : CellLib) (m : Attached L) : Type 0 where
  pub session : m.session < 2 ^ 64
  pub snapshot : FitsSnapshot L m.snapshot

pub Codes-attached :
    (L : CellLib) (m : Attached L)
    → FitsAttached L m
    → Codes
        (write_attached L m)
        (read_attached L)
        (carried_attached L m)
        (8 + (snapshot_size L m.snapshot))
unfolding write_attached read_attached
Codes-attached L m h =
    (Codes-seq _ (Codes-u64 m.session h.session)
      (Codes-last _ (Codes-snapshot L m.snapshot h.snapshot)))
