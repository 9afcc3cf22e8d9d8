-- ===== src/Proto/Codec/Streaming.antt =====
-- What `decode` of src/common/proto.cpp decides about some bytes it still decides when more arrive.
use ckmux.Prelude.{
  ℕ, ◌+◌, ◌-◌, ◌≤◌, ◌≡◌, ◌≢◌, List, ◌++◌, length, take, drop, arith, ltb, Bool-cases, inl, inr,
  length-append, le→ltb_false, ltb_false→le, length-drop,
}
use ckmux.Prelude.Slices.{take-append_short, drop-append_short}
use ckmux.Proto.CellLib.{CellLib}
use ckmux.Proto.DecodeError.{DecodeError}
use ckmux.Proto.Codec.{Header, decode, decode_frame}

payload-append :
    (n : ℕ) (bytes more : List ℕ)
    → 8 + n ≤ length bytes
    → take n (drop 8 (bytes ++ more)) ≡ take n (drop 8 bytes)
payload-append n bytes more h =
    rw (drop-append_short 8 bytes more (omega arith))
      (take-append_short n (drop 8 bytes) more (omega (arith, length-drop 8 bytes)))

-- The tests of `decode_frame` on the header do not look at the bytes; the test on the length, once
-- passed, is passed with more.
decode_frame-append :
    (L : CellLib) (header : Header) (bytes more : List ℕ)
    → 8 ≤ length bytes
    → (decode_frame L header bytes).0.error ≢ DecodeError.incomplete
    → decode_frame L header (bytes ++ more) ≡ decode_frame L header bytes
unfolding decode_frame
decode_frame-append L header bytes more enough decided =
    elim (Bool-cases (ltb (length bytes - 8) header.payload_length)) [
      | inl short ↦ ground (arith)
      | inr whole ↦ rw (
        whole,
        le→ltb_false (length (bytes ++ more) - 8) header.payload_length
            (omega (arith, length-append bytes more, ltb_false→le _ _ whole)),
        payload-append header.payload_length bytes more (omega (arith, ltb_false→le _ _ whole)),
      )
    ]

-- An answer other than "incomplete" does not change when more bytes arrive behind it.
pub decode-append :
    (L : CellLib) (bytes more : List ℕ)
    → (decode L bytes).0.error ≢ DecodeError.incomplete
    → decode L (bytes ++ more) ≡ decode L bytes
unfolding decode
decode-append L bytes more decided = elim (Bool-cases (ltb (length bytes) 8)) [
  | inl short ↦ absurd (decided (rw short))
  | inr long ↦
      rw
        (
          long,
          le→ltb_false (length (bytes ++ more)) 8
              (omega (arith, length-append bytes more, ltb_false→le _ _ long)),
          take-append_short 8 bytes more (ltb_false→le _ _ long),
        )
        (decode_frame-append L _ bytes more (ltb_false→le _ _ long) (rw long at decided))
]
