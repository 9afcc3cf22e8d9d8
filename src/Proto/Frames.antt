-- ===== src/Proto/Frames.antt =====
-- Accumulating bytes and yielding frames: `FrameReader` of src/common/proto.hpp and
-- src/common/proto.cpp, and the loop of src/server/server.cpp that empties it.
pub mod Next
pub mod Split
pub mod Stream
pub mod Termination
use ckmux.Prelude.{
  ℕ, zero, suc, ◌+◌, Bool, true, false, Option, none, some, List, [], ◌∷◌, ◌++◌, length, drop, ltb,
  ◌==◌, if◌then◌else◌, not,
}
use ckmux.Proto.Limits.{header_bytes, max_snapshot_payload_bytes}
use ckmux.Proto.CellLib.{CellLib}
use ckmux.Proto.Message.{Message}
use ckmux.Proto.DecodeError.{DecodeError, DecodeResult}
use ckmux.Proto.Codec.{decode}

pub record FrameReader : Type 0 where
  pub buffer : List ℕ
  pub consumed : ℕ

abbrev pub max_buffered : ℕ
max_buffered = header_bytes + max_snapshot_payload_bytes

unfoldable pub clear : FrameReader → FrameReader
clear fr = record { buffer = []; consumed = 0 }

unfoldable pub compact : FrameReader → FrameReader
compact fr =
    if fr.consumed == 0 then fr else record { buffer = drop fr.consumed fr.buffer; consumed = 0 }

-- Whether the bytes were taken in. The reader is compacted either way.
unfoldable pub append : List ℕ → FrameReader → FrameReader × Bool
append bytes fr =
    let fr' = compact fr in
    if ltb max_buffered (length fr'.buffer + length bytes)
    then (fr', false)
    else (record fr' { buffer = fr'.buffer ++ bytes }, true)

abbrev pub is_none : DecodeError → Bool
is_none DecodeError.none = true
is_none _ = false

abbrev pub is_incomplete : DecodeError → Bool
is_incomplete DecodeError.incomplete = true
is_incomplete _ = false

-- What `next` makes of the result of `decode`.
unfoldable pub advance :
    {L : CellLib}
    → FrameReader
    → DecodeResult
    → Option (Message L)
    → DecodeError × Option (Message L) × FrameReader
unfolding clear
advance fr result decoded =
    let fr' : FrameReader = record fr { consumed = fr.consumed + result.consumed } in
    if is_none result.error
    then (DecodeError.none, decoded, if fr'.consumed == length fr.buffer then clear fr' else fr')
    else (result.error, none, fr)

unfoldable pub next : (L : CellLib) → FrameReader → DecodeError × Option (Message L) × FrameReader
unfolding advance
next L fr =
    let (result, decoded) = decode L (drop fr.consumed fr.buffer) in advance fr result decoded

-- How the loop over `next` ends: it waits for bytes, or drops the client, or a handler closed it.
-- `starved` is the model's own: the rounds given were not enough.
pub data Verdict : Type 0 where
  waiting dropped closing starved : Verdict

-- The messages that the loop hands to `handle`, in order; `closes` tells which leave the client
-- closing.
unfoldable pub drain :
    (L : CellLib) (closes : Message L → Bool)
    → ℕ
    → FrameReader
    → List (Message L) × Verdict × FrameReader
drain L closes zero fr = ([], starved, fr)
drain L closes (suc rounds) fr =
    let (error, arrived, fr') = next L fr in
    let (later, verdict, last) = drain L closes rounds fr' in
    elim arrived [
      | none ↦ ([], if is_incomplete error then waiting else dropped, fr')
      | some m ↦ if closes m then (m ∷ [], closing, fr') else (m ∷ later, verdict, last)
    ]

-- Nothing that arrived is not appended.
unfoldable pub arrive : List ℕ → FrameReader → FrameReader × Bool
arrive [] fr = (fr, true)
arrive (byte ∷ bytes) fr = append (byte ∷ bytes) fr

-- `if (!alive) drop(client, "");`
abbrev pub end_of : Bool → Verdict → Verdict
end_of false waiting = dropped
end_of _ verdict = verdict

-- `Server::serve`: what arrived, and whether the stream is still open, as the socket tells it. A
-- frame takes a byte at least, so as many rounds as there are bytes and one more are enough.
unfoldable pub serve :
    (L : CellLib) (closes : Message L → Bool)
    → Bool
    → List ℕ
    → FrameReader
    → List (Message L) × Verdict × FrameReader
serve L closes alive arrived fr =
    let (fr', taken) = arrive arrived fr in
    let (ms, verdict, last) = drain L closes (suc (length fr'.buffer)) fr' in
    if not taken then ([], dropped, fr') else (ms, end_of alive verdict, last)
