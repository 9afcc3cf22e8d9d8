-- ===== src/Proto/Frames/Stream.antt =====
-- However the bytes of a stream of frames are cut into reads, the loop over `FrameReader::next`
-- (src/common/proto.cpp, src/server/server.cpp) hands out the messages that were sent, in order.
use ckmux.Prelude.{
  ℕ, zero, suc, ◌+◌, ◌≤◌, ◌<◌, ◌≡◌, refl, sym, ap, ◌∙◌, Bool, true, false, some, none, List, [],
  ◌∷◌, ◌++◌, append-nil, append_assoc, length, drop, All, arith, length-append, length-drop,
  All-split, drop-append,
}
use mathlib.Core.List.{map, map-append}
use ckmux.Proto.CellLib.{CellLib}
use ckmux.Proto.DecodeError.{DecodeError}
use ckmux.Proto.Message.{Message}
use ckmux.Proto.Carried.{carried}
use ckmux.Proto.Codec.{decode, refused}
use ckmux.Proto.Codec.RoundTrip.{decode-encode, length-encode-ge}
use ckmux.Proto.Frames.{
  FrameReader, Verdict, waiting, max_buffered, arrive, end_of, next, drain, serve,
}
use ckmux.Proto.Frames.Next.{unread, unread-arrive, next-frame, next-incomplete}
use ckmux.Proto.Frames.Split.{IsSent, frame, stream, Split, split, Short}

-- The bytes of some reads.
abbrev pub joined : List (List ℕ) → List ℕ
joined [] = []
joined (chunk ∷ chunks) = chunk ++ joined chunks

-- One read after the other, until one drops or closes the client.
pub serve_all :
    (L : CellLib) (closes : Message L → Bool)
    → List (List ℕ)
    → FrameReader
    → List (Message L) × Verdict × FrameReader
serve_all L closes [] fr = ([], waiting, fr)
serve_all L closes (chunk ∷ chunks) fr =
    let (ms, verdict, fr') = serve L closes true chunk fr in
    let (later, last, end) = serve_all L closes chunks fr' in
    elim verdict [ waiting ↦ (ms ++ later, last, end) | other ↦ (ms, other, fr') ]

serve_all-waiting :
    (L : CellLib) (closes : Message L → Bool) (chunk : List ℕ) (chunks : List (List ℕ))
    (fr : FrameReader)
    → (serve L closes true chunk fr).1 ≡ waiting
    → serve_all L closes (chunk ∷ chunks) fr ≡ (
        let rest = serve_all L closes chunks (serve L closes true chunk fr).2 in
        ((serve L closes true chunk fr).0 ++ rest.0, rest.1, rest.2))
unfolding serve_all
serve_all-waiting L closes chunk chunks fr e = rw (e, serve_all) refl

abbrev pub fresh : FrameReader
fresh = record { buffer = []; consumed = 0 }

module _ (L : CellLib) (closes : Message L → Bool) where
  -- What the loop has done once it waits again.
  record Emptied (ms : List (Message L)) (pending : List ℕ)
      (out : List (Message L) × Verdict × FrameReader) : Type 0 where
    delivered : out.0 ≡ map (carried L) ms
    verdict : out.1 ≡ waiting
    left : unread out.2 ≡ pending

  drain-frame :
      (m : Message L) (rounds : ℕ) (fr : FrameReader)
      → (next L fr).1 ≡ some m
      → closes m ≡ false
      → drain L closes (suc rounds) fr
        ≡ (let rest = drain L closes rounds (next L fr).2 in (m ∷ rest.0, rest.1, rest.2))
  unfolding drain
  drain-frame m rounds fr e c = rw (e, drain) (rw c)

  drain-incomplete :
      (rounds : ℕ) (fr : FrameReader)
      → next L fr ≡ (DecodeError.incomplete, none, fr)
      → drain L closes (suc rounds) fr ≡ ([], waiting, fr)
  unfolding drain
  drain-incomplete rounds fr e = rw (e, drain) (rw e)

  drain-stream :
      (ms : List (Message L)) (pending : List ℕ) (rounds : ℕ) (fr : FrameReader)
      → All (IsSent L) ms
      → All (λ m. closes (carried L m) ≡ false) ms
      → unread fr ≡ stream L ms ++ pending
      → decode L pending ≡ refused DecodeError.incomplete 0
      → length ms < rounds
      → Emptied ms pending (drain L closes rounds fr)
  drain-stream ms pending zero fr sent open_ e stop enough = absurd (omega arith)
  drain-stream [] pending (suc rounds) fr sent open_ e stop enough =
      rw (drain-incomplete rounds fr (next-incomplete L fr (ap (decode L) e ∙ stop)))
        (record { delivered = refl; verdict = refl; left = e })
  drain-stream (m ∷ ms) pending (suc rounds) fr (sent, later) (stays, open_) e stop enough =
      let more = stream L ms ++ pending in
      let front : unread fr ≡ frame L m ++ more =
        e ∙ append_assoc (frame L m) (stream L ms) pending in
      let step =
        next-frame L fr (carried L m) (length (frame L m))
          (ap (decode L) front ∙ decode-encode L m sent.fits sent.accepted more) in
      let left : unread (next L fr).2 ≡ more =
        step.1 ∙ ap (drop (length (frame L m))) front ∙ drop-append (frame L m) more in
      let rest = drain-stream ms pending rounds (next L fr).2 later open_ left stop (omega arith) in
      rw (drain-frame (carried L m) rounds fr step.0 stays) (record {
        delivered = ap (λ l. carried L m ∷ l) rest.delivered;
        verdict = rest.verdict;
        left = rest.left;
      })

  -- Every frame takes eight bytes at least, so there are rounds enough.
  length-stream : (ms : List (Message L)) → All (IsSent L) ms → length ms ≤ length (stream L ms)
  length-stream [] sent = omega arith
  length-stream (m ∷ ms) (sent, later) = omega (
    arith,
    length-append (frame L m) (stream L ms),
    length-encode-ge L m sent.fits sent.accepted,
    length-stream ms later,
  )

  -- A read that `append` takes in: the messages completed by it, and no other, are handed out.
  serve-Split :
      (ms : List (Message L)) (chunk awaited : List ℕ) (fr : FrameReader)
      → All (IsSent L) ms
      → All (λ m. closes (carried L m) ≡ false) ms
      → (s : Split L ms (unread fr ++ chunk) awaited)
      → length (unread fr) + length chunk ≤ max_buffered
      → Emptied s.whole s.pending (serve L closes true chunk fr)
  unfolding serve
  serve-Split ms chunk awaited fr sent open_ s room =
      let (accepted, left') = unread-arrive chunk fr room in
      let sent' = All-split (IsSent L) s.whole s.others (rw s.parts at sent) in
      let open_' =
        All-split (λ m. closes (carried L m) ≡ false) s.whole s.others (rw s.parts at open_) in
      let after = (arrive chunk fr).0 in
      let emptied =
        drain-stream s.whole s.pending _ after sent'.0 open_'.0 (left' ∙ s.bytes) s.undecided (
          omega (
            arith,
            length-stream s.whole sent'.0,
            length-append (stream L s.whole) s.pending,
            ap length (left' ∙ s.bytes),
            length-drop after.consumed after.buffer,
          )) in
      rw accepted (record {
        delivered = emptied.delivered;
        verdict = ap (end_of true) emptied.verdict;
        left = emptied.left;
      })

module _ (L : CellLib) (closes : Message L → Bool) (largest : ℕ) where
  Short-le :
      (ms : List (Message L)) (pending : List ℕ)
      → All (λ m. length (frame L m) ≤ largest) ms
      → Short L ms pending
      → length pending ≤ largest
  Short-le [] pending h short = omega (arith, ap length short)
  Short-le (m ∷ ms) pending (h, k) short = omega arith

  -- When all has arrived nothing is missing.
  Short-end :
      (ms : List (Message L)) (pending : List ℕ)
      → pending ≡ stream L ms
      → Short L ms pending
      → (ms ≡ []) × (pending ≡ [])
  Short-end [] pending e short = (refl, short)
  Short-end (m ∷ ms) pending e short =
      absurd (omega (arith, ap length e, length-append (frame L m) (stream L ms)))

  Short-nil : (ms : List (Message L)) → All (IsSent L) ms → Short L ms []
  Short-nil [] sent = refl
  Short-nil (m ∷ ms) (sent, later) = omega (arith, length-encode-ge L m sent.fits sent.accepted)

  delivery_from :
      (chunks : List (List ℕ)) (ms : List (Message L)) (fr : FrameReader)
      → All (IsSent L) ms
      → All (λ m. closes (carried L m) ≡ false) ms
      → All (λ m. length (frame L m) ≤ largest) ms
      → All (λ chunk. largest + length chunk ≤ max_buffered) chunks
      → Short L ms (unread fr)
      → unread fr ++ joined chunks ≡ stream L ms
      → Emptied L closes ms [] (serve_all L closes chunks fr)
  unfolding serve_all
  delivery_from [] ms fr sent open_ small fits short e =
      let (a, b) = Short-end ms (unread fr) (sym (append-nil (unread fr)) ∙ e) short in
      record { delivered = ap (map (carried L)) (sym a); verdict = refl; left = b }
  delivery_from (chunk ∷ chunks) ms fr sent open_ small (fit, fits) short e =
      let s =
        split L ms (unread fr ++ chunk) (joined chunks) sent
          (append_assoc (unread fr) chunk (joined chunks) ∙ e) in
      let here =
        serve-Split L closes ms chunk (joined chunks) fr sent open_ s
          (omega (arith, Short-le ms (unread fr) small short)) in
      let fr' = (serve L closes true chunk fr).2 in
      let later =
        delivery_from chunks s.others fr'
          (All-split (IsSent L) s.whole s.others (rw s.parts at sent)).1
          (All-split (λ m. closes (carried L m) ≡ false) s.whole s.others (rw s.parts at open_)).1
          (All-split (λ m. length (frame L m) ≤ largest) s.whole s.others (rw s.parts at small)).1
          fits (rw here.left s.short) (rw here.left s.next) in
      rw (serve_all-waiting L closes chunk chunks fr here.verdict) (record {
        delivered =
            ap (λ l. l ++ (serve_all L closes chunks fr').0) here.delivered
            ∙ ap (λ l. map (carried L) s.whole ++ l) later.delivered
            ∙ sym (map-append (carried L) s.whole s.others)
            ∙ ap (map (carried L)) (sym s.parts);
        verdict = later.verdict;
        left = later.left;
      })

  -- Messages within the limits of FitsMessage that `encode` does not refuse are sent as their frames
  -- one after the other, and arrive in reads of any sizes. If no handler closes the client, and the
  -- largest frame with any one read fits the reader's bound, then the loop hands out the messages
  -- sent, all of them and in order, each cell with a fresh style of its two colours and attributes;
  -- the loop waits for more, and no byte is left over.
  pub serve_all-delivers :
      (ms : List (Message L)) (chunks : List (List ℕ))
      → All (IsSent L) ms
      → All (λ m. closes (carried L m) ≡ false) ms
      → All (λ m. length (frame L m) ≤ largest) ms
      → All (λ chunk. largest + length chunk ≤ max_buffered) chunks
      → joined chunks ≡ stream L ms
      → ((serve_all L closes chunks fresh).0 ≡ map (carried L) ms)
        × ((serve_all L closes chunks fresh).1 ≡ waiting)
        × (unread (serve_all L closes chunks fresh).2 ≡ [])
  serve_all-delivers ms chunks sent open_ small fits e =
      let d = delivery_from chunks ms fresh sent open_ small fits (Short-nil ms sent) e in
      (d.delivered, d.verdict, d.left)
