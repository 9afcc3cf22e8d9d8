-- ===== src/Proto/Frames/Split.antt =====
-- A stream of frames cut at any byte: whole frames, and then the beginning of the next one.
use ckmux.Prelude.{
  ℕ, ◌≤◌, ◌<◌, ◌≡◌, refl, sym, ap, ◌∙◌, false, List, [], ◌∷◌, ◌++◌, append_assoc, length, take,
  drop, All, arith, take-append, drop-append, take-append-drop,
}
use native.Mathlib.Decide.{dec_le}
use ckmux.Proto.CellLib.{CellLib}
use ckmux.Proto.DecodeError.{DecodeError}
use ckmux.Proto.Message.{Message}
use ckmux.Proto.Message.Fits.{FitsMessage}
use ckmux.Proto.Codec.{encode, decode, refused}
use ckmux.Proto.Codec.RoundTrip.{decode-take-encode}
use ckmux.Prelude.Slices.{take-append_short, drop-append_short}

-- A message within the limits of the protocol that `encode` does not refuse.
pub record IsSent (L : CellLib) (m : Message L) : Type 0 where
  pub fits : FitsMessage L m
  pub accepted : (encode L m).1 ≡ false

module _ (L : CellLib) where
  abbrev pub frame : Message L → List ℕ
  frame m = (encode L m).0

  -- What a sender puts on the connection for some messages.
  abbrev pub stream : List (Message L) → List ℕ
  stream [] = []
  stream (m ∷ ms) = frame m ++ stream ms

  -- The bytes are less than the first frame, or there is none.
  abbrev pub Short : List (Message L) → List ℕ → Type 0
  Short [] pending = pending ≡ []
  Short (m ∷ ms) pending = length pending < length (frame m)

  -- The messages whose frames have all arrived, those that have not, and the bytes of the first of
  -- these that are there already.
  pub record Split (ms : List (Message L)) (arrived awaited : List ℕ) : Type 0 where
    pub whole : List (Message L)
    pub others : List (Message L)
    pub pending : List ℕ
    pub parts : ms ≡ whole ++ others
    pub bytes : arrived ≡ stream whole ++ pending
    pub next : pending ++ awaited ≡ stream others
    pub undecided : decode L pending ≡ refused DecodeError.incomplete 0
    pub short : Short others pending

decode-nil : (L : CellLib) → decode L [] ≡ refused DecodeError.incomplete 0
unfolding decode
decode-nil L = refl

nil_of_append : (xs ys : List ℕ) → xs ++ ys ≡ [] → (xs ≡ []) × (ys ≡ [])
nil_of_append [] ys e = (refl, e)
nil_of_append (x ∷ xs) ys e = cc

module _ (L : CellLib) where
  -- The cut falls into the first frame.
  Split-in_frame :
      (m : Message L) (ms : List (Message L)) (arrived awaited : List ℕ)
      → IsSent L m
      → arrived ++ awaited ≡ stream L (m ∷ ms)
      → length arrived < length (frame L m)
      → Split L (m ∷ ms) arrived awaited
  Split-in_frame m ms arrived awaited sent e cut =
      let prefix : arrived ≡ take (length arrived) (frame L m) =
        sym (take-append arrived awaited)
        ∙ ap (take (length arrived)) e
        ∙ take-append_short (length arrived) (frame L m) (stream L ms) (omega arith) in
      record {
        whole = [];
        others = m ∷ ms;
        pending = arrived;
        parts = refl;
        bytes = refl;
        next = e;
        undecided =
            ap (decode L) prefix
            ∙ decode-take-encode L m sent.fits (length arrived) sent.accepted cut;
        short = cut;
      }

  after_frame :
      (m : Message L) (ms : List (Message L)) (arrived awaited : List ℕ)
      → length (frame L m) ≤ length arrived
      → arrived ++ awaited ≡ stream L (m ∷ ms)
      → drop (length (frame L m)) arrived ++ awaited ≡ stream L ms
  after_frame m ms arrived awaited past e =
      let n = length (frame L m) in
      sym (drop-append_short n arrived awaited past)
      ∙ ap (drop n) e
      ∙ drop-append (frame L m) (stream L ms)

  -- The first frame is there whole.
  Split-past :
      (m : Message L) (ms : List (Message L)) (arrived awaited : List ℕ)
      → length (frame L m) ≤ length arrived
      → arrived ++ awaited ≡ stream L (m ∷ ms)
      → Split L ms (drop (length (frame L m)) arrived) awaited
      → Split L (m ∷ ms) arrived awaited
  Split-past m ms arrived awaited past e s =
      let n = length (frame L m) in
      let front : take n arrived ≡ frame L m =
        sym (take-append_short n arrived awaited past)
        ∙ ap (take n) e
        ∙ take-append (frame L m) (stream L ms) in
      record {
        whole = m ∷ s.whole;
        others = s.others;
        pending = s.pending;
        parts = ap (λ l. m ∷ l) s.parts;
        bytes =
            sym (take-append-drop n arrived)
            ∙ ap (λ l. l ++ drop n arrived) front
            ∙ ap (λ l. frame L m ++ l) s.bytes
            ∙ sym (append_assoc (frame L m) (stream L s.whole) s.pending);
        next = s.next;
        undecided = s.undecided;
        short = s.short;
      }

  pub split :
      (ms : List (Message L)) (arrived awaited : List ℕ)
      → All (IsSent L) ms
      → arrived ++ awaited ≡ stream L ms
      → Split L ms arrived awaited
  split [] arrived awaited sent e =
      let (a, b) = nil_of_append arrived awaited e in
      record {
        whole = [];
        others = [];
        pending = [];
        parts = refl;
        bytes = a;
        next = b;
        undecided = decode-nil L;
        short = refl;
      }
  split (m ∷ ms) arrived awaited (sent, later) e =
      elim (dec_le (length (frame L m)) (length arrived)) [
        | no cut ↦ Split-in_frame m ms arrived awaited sent e (omega arith)
        | yes past ↦
            let n = length (frame L m) in
            Split-past m ms arrived awaited past e
              (split ms (drop n arrived) awaited later (after_frame m ms arrived awaited past e))
      ]
