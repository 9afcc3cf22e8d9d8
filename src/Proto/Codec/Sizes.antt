-- ===== src/Proto/Codec/Sizes.antt =====
-- The size that src/common/proto.cpp predicts for a snapshot is what `encode` makes of it.
use ckmux.Prelude.{ℕ, ◌+◌, ◌≡◌, refl, ap, ◌∙◌, length, ltb, Bool-cases, inl, inr, if◌then◌else◌}
use ckmux.Proto.CellLib.{CellLib}
use ckmux.Proto.Limits.{header_bytes, max_snapshot_payload_bytes}
use ckmux.Proto.Snapshots.{snapshot_size}
use ckmux.Proto.Attaching.{Attached}
use ckmux.Proto.Attaching.RoundTrip.{FitsAttached}
use ckmux.Proto.Message.{Message, type_of}
use ckmux.Proto.Message.Says.{Says}
use ckmux.Proto.Message.RoundTrip.{says, length-says-attached}
use ckmux.Proto.Codec.{payload_cap, encode}
use ckmux.Proto.Codec.Framing.{encode_lem}
use ckmux.Proto.Codec.RoundTrip.{length-frame_of}

-- What `encode` answers, by the size of the payload.
encode_sizes :
    {L : CellLib} {m : Message L} (s : Says L m) (n : ℕ)
    → length s.bytes ≡ n
    → ((encode L m).1 ≡ ltb (payload_cap (type_of m)) n)
      × (length (encode L m).0 ≡ (if ltb (payload_cap (type_of m)) n then 0 else 8 + n))
encode_sizes {L} {m} s n e = elim (Bool-cases (ltb (payload_cap (type_of m)) n)) [
  | inl big ↦ rw (encode_lem s, e) (rw big (refl, refl))
  | inr small ↦ rw (encode_lem s, e) (rw small (refl, length-frame_of s ∙ ap (λ k. 8 + k) e))
]

cap_attached :
    {L : CellLib} (m : Attached L)
    → payload_cap (type_of (Message.attached m)) ≡ max_snapshot_payload_bytes
unfolding payload_cap type_of
cap_attached m = refl

-- An answer to an attach is refused exactly when its session id and the size predicted for its
-- snapshot come to more than a snapshot's payload may be; otherwise its frame is the header and
-- that many bytes, not one more or less.
pub encode-attached :
    (L : CellLib) (m : Attached L)
    → FitsAttached L m
    → (let payload = 8 + snapshot_size L m.snapshot in
        ((encode L (Message.attached m)).1 ≡ ltb max_snapshot_payload_bytes payload)
        × (length (encode L (Message.attached m)).0
            ≡ (if ltb max_snapshot_payload_bytes payload then 0 else header_bytes + payload)))
encode-attached L m h =
    let e = cap_attached {L = L} m in
    rw e at (
      encode_sizes (says L (Message.attached m) h) (8 + snapshot_size L m.snapshot)
        (length-says-attached L m h))
