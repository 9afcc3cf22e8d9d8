-- ===== src/Proto/Codec/RoundTrip.antt =====
-- `decode` of src/common/proto.cpp against `encode`: whole frames, frames cut short, and frames with
-- more behind them.
use ckmux.Prelude.{
  ℕ, ◌+◌, ◌-◌, ◌%◌, ◌^◌, ◌≤◌, ◌<◌, ◌≡◌, refl, sym, ap, ◌∙◌, List, [], ◌++◌, append-nil,
  append_assoc, length, take, drop, take_sized, drop_sized, length-append, length-take, true, false,
  arith, ltb, le→ltb_false, lt→ltb, Bool-cases, inl, inr, some, take-append_past,
}
use native.Mathlib.Decide.{dec_lt}
use ckmux.Proto.Wire.{Reader, ready}
use ckmux.Proto.Reader
use ckmux.Proto.CellLib.{CellLib}
use ckmux.Proto.DecodeError.{DecodeError}
use ckmux.Proto.Carried.{carried}
use ckmux.Proto.Carried.Exact.{IsPlainMessage, carried-plain}
use ckmux.Proto.Message.{Message, type_of, alternatives, decode_alternative, is_known_type}
use ckmux.Proto.Message.Fits.{FitsMessage}
use ckmux.Proto.Message.Says.{Says}
use ckmux.Proto.Message.RoundTrip.{says}
use ckmux.Proto.Codec.{
  Header, read_header, payload_cap, encode, decode, decode_frame, decode_payload, refused, Decoded,
}
use ckmux.Proto.Codec.Framing.{header_of, Codes-header, frame_of, encode_lem}

pub payload_cap-lt : (type : ℕ) → payload_cap type < 2 ^ 32
unfolding payload_cap
payload_cap-lt type = ground arith

-- A header that passes every check hands its payload to the decoder of its type.
decode_frame_lem :
    (L : CellLib) (header : Header) (bytes : List ℕ)
    → is_known_type header.type (alternatives L) ≡ true
    → header.payload_length ≤ payload_cap header.type
    → header.flags ≡ 0
    → header.payload_length + 8 ≤ length bytes
    → decode_frame L header bytes
      ≡ decode_payload (8 + header.payload_length) (
          decode_alternative header.type
            (alternatives L)
            (ready (take header.payload_length (drop 8 bytes))))
unfolding decode_frame
decode_frame_lem L header bytes known small flags whole =
    rw (known, le→ltb_false (payload_cap header.type) header.payload_length small, flags)
      (rw (le→ltb_false (length bytes - 8) header.payload_length (omega arith)))

-- The payload alone: nothing is left over.
reads_whole :
    {L : CellLib} {m : Message L} (s : Says L m)
    → decode_alternative (type_of m) (alternatives L) (ready s.bytes) ≡ some (carried L m, ready [])
reads_whole {L} {m} s =
    ap (λ (l : List ℕ). decode_alternative (type_of m) (alternatives L) (ready l))
      (sym (append-nil s.bytes))
    ∙ s.reads []

module _ {L : CellLib} {m : Message L} (s : Says L m) where
  abbrev header : List ℕ
  header = (Codes-header (length s.bytes) (type_of m)).bytes

  header_sized : length header ≡ 8
  header_sized = (Codes-header (length s.bytes) (type_of m)).sized

  read_header_lem :
      (rest : List ℕ)
      → (read_header (ready (take 8 (header ++ rest)))).0 ≡ header_of (length s.bytes) (type_of m)
  read_header_lem rest =
      let c = Codes-header (length s.bytes) (type_of m) in
      rw (take_sized 8 header rest header_sized) (
        ap (λ (l : List ℕ). (read_header (ready l)).0) (sym (append-nil header))
        ∙ ap (λ (p : Header × Reader). p.0) (c.reads []))

  -- Eight bytes are enough for the checks of the header.
  decode-header :
      (rest : List ℕ)
      → decode L (header ++ rest)
        ≡ decode_frame L (header_of (length s.bytes) (type_of m)) (header ++ rest)
  unfolding decode
  decode-header rest =
      rw
        (le→ltb_false (length (header ++ rest)) 8
          (omega (arith, length-append header rest, header_sized)))
        (rw (read_header_lem rest))

  -- The header's numbers are the payload's length and the message's type.
  header_of_lem :
      length s.bytes ≤ payload_cap (type_of m)
      → header_of (length s.bytes) (type_of m)
        ≡ record { payload_length = length s.bytes; type = type_of m; flags = 0 }
  unfolding header_of
  header_of_lem small =
      let a : length s.bytes % 2 ^ 32 ≡ length s.bytes =
        omega (arith, payload_cap-lt (type_of m)) in
      let b : type_of m % 2 ^ 16 ≡ type_of m = omega (arith, s.small) in rw (a, b)

  decode-frame_of :
      length s.bytes ≤ payload_cap (type_of m)
      → (rest : List ℕ)
      → decode L (frame_of s ++ rest)
        ≡ (record { error = DecodeError.none; consumed = 8 + length s.bytes }, some (carried L m))
  unfolding frame_of decode_payload Reader.exhausted
  decode-frame_of small rest = rw append_assoc (
      rw (decode-header (s.bytes ++ rest), header_of_lem small)
        (rw
          (decode_frame_lem L
            (record { payload_length = length s.bytes; type = type_of m; flags = 0 })
            (header ++ (s.bytes ++ rest)) s.known small refl
            (omega (
              arith,
              length-append header (s.bytes ++ rest),
              length-append s.bytes rest,
              header_sized,
            )))
          (rw
            (
              drop_sized 8 header (s.bytes ++ rest) header_sized,
              take_sized (length s.bytes) s.bytes rest refl,
            )
            (rw (reads_whole s)))))

  pub length-frame_of : length (frame_of s) ≡ 8 + length s.bytes
  unfolding frame_of
  length-frame_of = omega (arith, length-append header s.bytes, header_sized)

-- A payload that is not all there yet.
decode_frame_incomplete :
    (L : CellLib) (header : Header) (bytes : List ℕ)
    → is_known_type header.type (alternatives L) ≡ true
    → header.payload_length ≤ payload_cap header.type
    → header.flags ≡ 0
    → length bytes < 8 + header.payload_length
    → 8 ≤ length bytes
    → decode_frame L header bytes ≡ refused DecodeError.incomplete 0
unfolding decode_frame
decode_frame_incomplete L header bytes known small flags cut enough =
    rw (known, le→ltb_false (payload_cap header.type) header.payload_length small, flags)
      (rw (lt→ltb (length bytes - 8) header.payload_length (omega arith)))

module _ {L : CellLib} {m : Message L} (s : Says L m) where
  pub encode_accepts :
      (encode L m).1 ≡ false
      → (encode L m ≡ (frame_of s, false)) × (length s.bytes ≤ payload_cap (type_of m))
  encode_accepts ok = elim (Bool-cases (ltb (payload_cap (type_of m)) (length s.bytes))) [
    | inl big ↦ let refusal : (encode L m).1 ≡ true = rw (encode_lem s) (rw big) in cc
    | inr small ↦ (rw (encode_lem s) (rw small), ground arith)
  ]

  decode-take_short :
      (k : ℕ) → k < 8 → decode L (take k (frame_of s)) ≡ refused DecodeError.incomplete 0
  unfolding decode
  decode-take_short k short =
      rw (lt→ltb (length (take k (frame_of s))) 8 (omega (arith, length-take k (frame_of s))))

  decode-take_long :
      (k : ℕ)
      → length s.bytes ≤ payload_cap (type_of m)
      → 8 ≤ k
      → k < 8 + length s.bytes
      → decode L (take k (frame_of s)) ≡ refused DecodeError.incomplete 0
  unfolding frame_of
  decode-take_long k small long cut =
      let head = header s in
      let size = header_sized s in
      let part = take (k - 8) s.bytes in
      rw (take-append_past k head s.bytes (omega arith), size)
        (rw (decode-header s part, header_of_lem s small)
          (decode_frame_incomplete L
            (record { payload_length = length s.bytes; type = type_of m; flags = 0 }) (head ++ part)
            s.known small refl (omega (arith, length-append head part, length-take (k - 8) s.bytes))
            (omega (arith, length-append head part))))

  decode-take :
      (k : ℕ)
      → length s.bytes ≤ payload_cap (type_of m)
      → k < length (frame_of s)
      → decode L (take k (frame_of s)) ≡ refused DecodeError.incomplete 0
  decode-take k small cut = elim (dec_lt k 8) [
    | yes short ↦ decode-take_short k short
    | no long ↦ decode-take_long k small (omega arith) (omega (arith, length-frame_of s))
  ]

module _ (L : CellLib) (m : Message L) (fits : FitsMessage L m) where
  abbrev said : Says L m
  said = says L m fits

  -- A message that is within the limits of FitsMessage and that `encode` does not refuse is decoded
  -- from its frame, whatever follows: the result consumes exactly the frame, and the message is the
  -- one encoded, but that each cell has a fresh style with its two colours and its attributes only.
  pub decode-encode :
      (encode L m).1 ≡ false
      → (rest : List ℕ)
      → decode L ((encode L m).0 ++ rest) ≡ (
        record { error = DecodeError.none; consumed = length (encode L m).0 },
        some (carried L m),
      )
  decode-encode ok rest =
      let (frame, small) = encode_accepts said ok in
      rw frame (
        decode-frame_of said small rest
        ∙ ap
            (λ (n : ℕ).
              let d : Decoded L =
                (record { error = DecodeError.none; consumed = n }, some (carried L m)) in
              d)
            (sym (length-frame_of said)))

  -- Such a message whose cells have nothing but what is sent of a cell, which the messages without
  -- cells do, is decoded from its frame as it was encoded, whatever follows.
  pub decode-encode_plain :
      IsPlainMessage L m
      → (encode L m).1 ≡ false
      → (rest : List ℕ)
      → decode L ((encode L m).0 ++ rest)
        ≡ (record { error = DecodeError.none; consumed = length (encode L m).0 }, some m)
  decode-encode_plain whole ok rest =
      let plain = carried-plain L m whole in
      decode-encode ok rest
      ∙ ap
          (λ (x : Message L).
            let d : Decoded L =
              (record { error = DecodeError.none; consumed = length (encode L m).0 }, some x) in
            d)
          plain

  -- Every frame that is cut short, at any point, is answered by "incomplete" with nothing consumed.
  pub decode-take-encode :
      (k : ℕ)
      → (encode L m).1 ≡ false
      → k < length (encode L m).0
      → decode L (take k (encode L m).0) ≡ refused DecodeError.incomplete 0
  decode-take-encode k ok cut =
      let (frame, small) = encode_accepts said ok in
      let short = rw frame at cut in rw frame (decode-take said k small short)

  -- A frame has its header at least.
  pub length-encode-ge : (encode L m).1 ≡ false → 8 ≤ length (encode L m).0
  length-encode-ge ok =
      let (frame, small) = encode_accepts said ok in rw frame (omega (arith, length-frame_of said))
