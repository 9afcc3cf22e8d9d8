-- ===== src/Proto/Frames/Termination.antt =====
-- The loop of `Server::serve` (src/server/server.cpp) ends, whatever a peer sends.
use ckmux.Prelude.{
  ℕ, zero, suc, ◌+◌, ◌<◌, ◌≡◌, ◌≢◌, refl, Bool, true, false, Option, none, some, List, length, drop,
  length-drop, arith, Bool-cases, inl, inr, ◌==◌,
}
use ckmux.Proto.CellLib.{CellLib}
use ckmux.Proto.DecodeError.{DecodeError}
use ckmux.Proto.Message.{Message}
use ckmux.Proto.Codec.{decode}
use ckmux.Proto.Codec.Bounds.{decode-consumed-le, decode-none-consumed}
use ckmux.Proto.Frames.{
  FrameReader, Verdict, starved, waiting, dropped, closing, arrive, advance, next, drain, end_of,
  serve, is_none, is_incomplete, clear,
}
use ckmux.Proto.Frames.Next.{unread}

is_none→eq : (error : DecodeError) → is_none error ≡ true → error ≡ DecodeError.none
is_none→eq DecodeError.none e = refl
is_none→eq DecodeError.incomplete e = cc
is_none→eq DecodeError.payload_too_large e = cc
is_none→eq DecodeError.unknown_type e = cc
is_none→eq DecodeError.reserved_flags e = cc
is_none→eq DecodeError.malformed e = cc
is_none→eq DecodeError.trailing_bytes e = cc

module _ (L : CellLib) (closes : Message L → Bool) where
  -- A message that is handed out leaves fewer bytes unread.
  next-shrinks :
      (fr : FrameReader) (m : Message L)
      → (next L fr).1 ≡ some m
      → length (unread (next L fr).2) < length (unread fr)
  unfolding next advance clear
  next-shrinks fr m e =
      let view = drop fr.consumed fr.buffer in
      let result = (decode L view).0 in
      elim (Bool-cases (is_none result.error)) [
        | inl sound ↦
            let some_bytes = decode-none-consumed L view (is_none→eq result.error sound) in
            let within = decode-consumed-le L view in
            rw sound (elim (Bool-cases (fr.consumed + result.consumed == length fr.buffer)) [
              | inl all ↦ rw all (omega (arith, length-drop fr.consumed fr.buffer))
              | inr part ↦ rw part (
                  omega (
                    arith,
                    length-drop fr.consumed fr.buffer,
                    length-drop (fr.consumed + result.consumed) fr.buffer,
                  ))
            ])
        | inr failed ↦ let nothing_came = rw failed at e in cc
      ]

  -- One round, with what the rounds after it do.
  round-ends :
      (rounds : ℕ) (fr : FrameReader)
      → ((m : Message L)
          → (next L fr).1 ≡ some m
          → (drain L closes rounds (next L fr).2).1 ≢ starved)
      → (arrived : Option (Message L)) → (next L fr).1 ≡ arrived
      → (drain L closes (suc rounds) fr).1 ≢ starved
  unfolding drain
  round-ends rounds fr later none e =
      rw (e, drain)
        (elim (Bool-cases (is_incomplete (next L fr).0)) [
          | inl more ↦ rw more (λ wrong. cc wrong)
          | inr bad ↦ rw bad (λ wrong. cc wrong)
        ])
  round-ends rounds fr later (some m) e =
      rw (e, drain)
        (elim (Bool-cases (closes m)) [
          | inl stops ↦ rw stops (λ wrong. cc wrong)
          | inr stays ↦ rw stays (later m e)
        ])

  drain-ends :
      (rounds : ℕ) (fr : FrameReader)
      → length (unread fr) < rounds
      → (drain L closes rounds fr).1 ≢ starved
  drain-ends zero fr enough = absurd (omega arith)
  drain-ends (suc rounds) fr enough =
      round-ends rounds fr
        (λ m e. drain-ends rounds (next L fr).2 (omega (arith, next-shrinks fr m e))) (next L fr).1
        refl

  end_of-ends :
      (alive : Bool) (verdict : Verdict) → verdict ≢ starved → end_of alive verdict ≢ starved
  end_of-ends false waiting ends = λ e. cc e
  end_of-ends true waiting ends = ends
  end_of-ends false dropped ends = ends
  end_of-ends true dropped ends = ends
  end_of-ends false closing ends = ends
  end_of-ends true closing ends = ends
  end_of-ends false starved ends = ends
  end_of-ends true starved ends = ends

  -- Whatever arrives and whatever was left, the loop over `next` ends within the rounds it is
  -- given.
  pub serve-ends :
      (alive : Bool) (arrived : List ℕ) (fr : FrameReader)
      → (serve L closes alive arrived fr).1 ≢ starved
  unfolding serve
  serve-ends alive arrived fr =
      let fr' = (arrive arrived fr).0 in
      let ends =
        drain-ends (suc (length fr'.buffer)) fr'
          (omega (arith, length-drop fr'.consumed fr'.buffer)) in
      elim (Bool-cases (arrive arrived fr).1) [
        | inl taken ↦ rw taken (end_of-ends alive _ ends)
        | inr full ↦ rw full (λ e. cc e)
      ]
