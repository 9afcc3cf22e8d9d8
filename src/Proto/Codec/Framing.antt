-- ===== src/Proto/Codec/Framing.antt =====
-- The header of a frame is read as it was written, and a refusal by `encode` is one of size.
use ckmux.Prelude.{ℕ, ◌%◌, ◌^◌, ◌≡◌, List, [], ◌++◌, length, true, false, arith, ltb, if◌then◌else◌}
use ckmux.Proto.Codes.{Codes, Codes-seq, Codes-last}
use ckmux.Proto.Codes.Numbers.{Codes-u16, Codes-u32}
use ckmux.Proto.CellLib.{CellLib}
use ckmux.Proto.Message.{Message, type_of}
use ckmux.Proto.Message.Says.{Says}
use ckmux.Proto.Codec.{Header, write_header, read_header, payload_cap, encode, empty_writer}

unfoldable pub header_of : ℕ → ℕ → Header
header_of n type = record { payload_length = n % 2 ^ 32; type = type % 2 ^ 16; flags = 0 }

pub Codes-header : (n type : ℕ) → Codes (write_header n type) read_header (header_of n type) 8
unfolding write_header read_header header_of
Codes-header n type = Codes-seq _ (Codes-u32 (n % 2 ^ 32) (omega arith)) (
    Codes-seq _ (Codes-u16 (type % 2 ^ 16) (omega arith))
      (Codes-last _ (Codes-u16 0 (omega arith))))

-- The frame of a message that is not refused.
unfoldable pub frame_of : {L : CellLib} {m : Message L} → Says L m → List ℕ
frame_of {m = m} s = (Codes-header (length s.bytes) (type_of m)).bytes ++ s.bytes

pub encode_lem :
    {L : CellLib} {m : Message L} (s : Says L m)
    → encode L m
      ≡ (if ltb (payload_cap (type_of m)) (length s.bytes) then ([], true) else (frame_of s, false))
unfolding encode frame_of
encode_lem {m = m} s =
    rw (s.writes empty_writer)
      (rw ((Codes-header (length s.bytes) (type_of m)).writes empty_writer))
