-- ===== src/Proto/Codec.antt =====
-- Whole frames: `encode` and `decode` of src/common/proto.cpp.
pub mod Framing
pub mod RoundTrip
pub mod Bounds
pub mod Streaming
pub mod Sizes
use ckmux.Prelude.{
  ℕ, ◌+◌, ◌-◌, ◌%◌, ◌^◌, Bool, true, false, not, ◌||◌, Option, none, some, List, [], ◌++◌, length,
  take, drop, ltb, ◌==◌, if◌then◌else◌,
}
use ckmux.Proto.Wire.{Writer, Put, ◌▸◌, Reader, Get, ◌>>=◌, pure, ready}
use ckmux.Proto.Writer
use ckmux.Proto.Reader
use ckmux.Proto.Limits.{
  header_bytes, max_payload_bytes, max_chunk_payload_bytes, max_snapshot_payload_bytes,
}
use ckmux.Proto.CellLib.{CellLib}
use ckmux.Proto.MessageType
use ckmux.Proto.Message.{
  Message, type_of, write_message, alternatives, decode_alternative, is_known_type,
}
use ckmux.Proto.DecodeError.{DecodeError, DecodeResult}

-- A snapshot may carry a screen with its history; a chunk its header fields besides the blob.
unfoldable pub payload_cap : ℕ → ℕ
payload_cap type =
    if type == MessageType.attached
    then max_snapshot_payload_bytes
    else if type == MessageType.image_chunk || type == MessageType.print_job_data
    then max_chunk_payload_bytes + 64
    else max_payload_bytes

abbrev pub empty_writer : Writer
empty_writer = record { out = []; ok = true }

-- payload_length, type, flags
unfoldable pub write_header : ℕ → ℕ → Put
write_header payload_length type =
    Writer.u32 (payload_length % 2 ^ 32) ▸ Writer.u16 (type % 2 ^ 16) ▸ Writer.u16 0

-- The frame, and whether the message was refused as too large (`*oversize`).
unfoldable pub encode : (L : CellLib) → Message L → List ℕ × Bool
encode L m =
    let writer = write_message L m empty_writer in
    let type = type_of m in
    let header = write_header (length writer.out) type empty_writer in
    if not writer.ok || ltb (payload_cap type) (length writer.out)
    then ([], true)
    else (header.out ++ writer.out, false)

pub record Header : Type 0 where
  pub payload_length : ℕ
  pub type : ℕ
  pub flags : ℕ

unfoldable pub read_header : Get Header
read_header = do
  payload_length ← Reader.u32
  type ← Reader.u16
  flags ← Reader.u16
  pure (record { payload_length = payload_length; type = type; flags = flags })

-- The result, and the message when it is assigned.
abbrev pub Decoded : CellLib → Type 0
Decoded L = DecodeResult × Option (Message L)

abbrev pub refused : {L : CellLib} → DecodeError → ℕ → Decoded L
refused error consumed = (record { error = error; consumed = consumed }, none)

-- A payload that does not decode, or that has bytes left over, is refused whole.
unfoldable pub decode_payload : {L : CellLib} → ℕ → Option (Message L × Reader) → Decoded L
decode_payload frame_length none = refused DecodeError.malformed frame_length
decode_payload frame_length (some (m, reader)) =
    if not (Reader.exhausted reader)
    then refused DecodeError.trailing_bytes frame_length
    else (record { error = DecodeError.none; consumed = frame_length }, some m)

-- What follows the header. The length is held to its cap before its bytes are waited for.
unfoldable pub decode_frame : (L : CellLib) → Header → List ℕ → Decoded L
unfolding decode_payload
decode_frame L header bytes =
    if not (is_known_type header.type (alternatives L))
    then refused DecodeError.unknown_type 0
    else if ltb (payload_cap header.type) header.payload_length
    then refused DecodeError.payload_too_large 0
    else if not (header.flags == 0)
    then refused DecodeError.reserved_flags 0
    else if ltb (length bytes - header_bytes) header.payload_length
    then refused DecodeError.incomplete 0
    else decode_payload (header_bytes + header.payload_length) (
        decode_alternative header.type (alternatives L)
          (ready (take header.payload_length (drop header_bytes bytes))))

unfoldable pub decode : (L : CellLib) → List ℕ → Decoded L
unfolding decode_frame
decode L bytes =
    if ltb (length bytes) header_bytes
    then refused DecodeError.incomplete 0
    else decode_frame L (read_header (ready (take header_bytes bytes))).0 bytes
