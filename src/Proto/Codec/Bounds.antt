-- ===== src/Proto/Codec/Bounds.antt =====
-- What `decode` of src/common/proto.cpp promises about any bytes at all, a hostile peer's included.
use ckmux.Prelude.{
  ℕ, ◌+◌, ◌≤◌, ◌<◌, ◌≡◌, ◌≢◌, refl, List, take, drop, length, arith, ltb, Bool-cases, inl, inr,
  some, none, Option,
}
use ckmux.Proto.Wire.{Reader, ready}
use ckmux.Proto.CellLib.{CellLib}
use ckmux.Proto.Limits.{max_snapshot_payload_bytes, header_bytes}
use ckmux.Proto.DecodeError.{DecodeError}
use ckmux.Proto.Message.{Message, decode_alternative, alternatives}
use ckmux.Proto.Codec.{Header, payload_cap, decode, decode_frame, decode_payload}

payload_cap-le : (type : ℕ) → payload_cap type ≤ max_snapshot_payload_bytes
unfolding payload_cap
payload_cap-le type = ground arith

-- A payload that was all there is never answered by "incomplete", and is consumed whole.
decode_payload_bounds :
    {L : CellLib} (n : ℕ) (o : Option (Message L × Reader))
    → ((decode_payload n o).0.consumed ≡ n)
      × ((decode_payload n o).0.error ≢ DecodeError.incomplete)
unfolding decode_payload
decode_payload_bounds n none = (refl, λ e. cc e)
decode_payload_bounds n (some (m, reader)) = (ground arith, ground arith)

abbrev payload_of : {L : CellLib} → Header → List ℕ → Option (Message L × Reader)
payload_of {L} header bytes =
    decode_alternative header.type (alternatives L)
      (ready (take header.payload_length (drop header_bytes bytes)))

module _ (L : CellLib) (header : Header) (bytes : List ℕ) (enough : 8 ≤ length bytes) where
  decode_frame_consumed : (decode_frame L header bytes).0.consumed ≤ length bytes
  unfolding decode_frame
  decode_frame_consumed = ground (
    arith,
    (decode_payload_bounds (8 + header.payload_length) (payload_of {L = L} header bytes)).0,
  )

  decode_frame_incomplete_lt :
      (decode_frame L header bytes).0.error ≡ DecodeError.incomplete
      → length bytes < 8 + max_snapshot_payload_bytes
  unfolding decode_frame
  decode_frame_incomplete_lt e = ground (
    arith,
    (decode_payload_bounds (8 + header.payload_length) (payload_of {L = L} header bytes)).1,
    payload_cap-le header.type,
  )

  decode_frame_none_consumed :
      (decode_frame L header bytes).0.error ≡ DecodeError.none
      → 8 ≤ (decode_frame L header bytes).0.consumed
  unfolding decode_frame
  decode_frame_none_consumed e = ground (
    arith,
    (decode_payload_bounds (8 + header.payload_length) (payload_of {L = L} header bytes)).0,
  )

-- Whatever the bytes, `decode` never claims to have consumed more of them than there are.
pub decode-consumed-le : (L : CellLib) (bytes : List ℕ) → (decode L bytes).0.consumed ≤ length bytes
unfolding decode
decode-consumed-le L bytes = elim (Bool-cases (ltb (length bytes) 8)) [
  | inl short ↦ rw short (omega arith)
  | inr long ↦ rw long (decode_frame_consumed L _ bytes (ground arith))
]

-- A reader never has to buffer more than the largest snapshot's frame: with that many bytes at hand
-- `decode` does not answer that it waits for more.
pub decode-incomplete-lt :
    (L : CellLib) (bytes : List ℕ)
    → (decode L bytes).0.error ≡ DecodeError.incomplete
    → length bytes < header_bytes + max_snapshot_payload_bytes
unfolding decode
decode-incomplete-lt L bytes e = elim (Bool-cases (ltb (length bytes) 8)) [
  | inl short ↦ ground arith
  | inr long ↦ decode_frame_incomplete_lt L _ bytes (ground arith) (rw long at e)
]

-- A frame that is decoded has its header at least.
pub decode-none-consumed :
    (L : CellLib) (bytes : List ℕ)
    → (decode L bytes).0.error ≡ DecodeError.none
    → 8 ≤ (decode L bytes).0.consumed
unfolding decode
decode-none-consumed L bytes e = elim (Bool-cases (ltb (length bytes) 8)) [
  | inl short ↦ let wrong = rw short at e in cc
  | inr long ↦ rw long (decode_frame_none_consumed L _ bytes (ground arith) (rw long at e))
]
