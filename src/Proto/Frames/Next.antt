-- ===== src/Proto/Frames/Next.antt =====
-- One step of `FrameReader`: what `append` and `next` do to the bytes that are not consumed yet.
use ckmux.Prelude.{
  ℕ, ◌+◌, ◌≤◌, ◌≡◌, refl, sym, ap, ◌∙◌, true, append-nil, le→ltb_false, not, none, some, List, [],
  ◌∷◌, ◌++◌, length, drop, length-append, ltb, ◌==◌, if◌then◌else◌, arith, Bool-cases, inl, inr,
  ==→eq,
}
use ckmux.Prelude.Slices.{drop_all, drop-drop}
use ckmux.Proto.CellLib.{CellLib}
use ckmux.Proto.Message.{Message}
use ckmux.Proto.DecodeError.{DecodeError}
use ckmux.Proto.Codec.{decode, refused}
use ckmux.Proto.Frames.{FrameReader, max_buffered, compact, append, advance, arrive, next}

-- The bytes that `next` looks at.
abbrev pub unread : FrameReader → List ℕ
unread fr = drop fr.consumed fr.buffer

unread-compact : (fr : FrameReader) → (compact fr).buffer ≡ unread fr
unfolding compact
unread-compact fr = elim (Bool-cases (fr.consumed == 0)) [
  | inl zeroed ↦ rw (zeroed, ==→eq fr.consumed 0 zeroed)
  | inr moved ↦ rw moved
]

consumed-compact : (fr : FrameReader) → (compact fr).consumed ≡ 0
unfolding compact
consumed-compact fr = ground arith

-- `append` takes the bytes in exactly when those not consumed yet leave room for them under the
-- largest frame; then they stand behind those, and otherwise nothing of what is unread changes.
pub unread-append :
    (bytes : List ℕ) (fr : FrameReader)
    → ((append bytes fr).1 ≡ not (ltb max_buffered (length (unread fr) + length bytes)))
      × (unread (append bytes fr).0
          ≡ (if (append bytes fr).1 then unread fr ++ bytes else unread fr))
      × (length (append bytes fr).0.buffer ≤ length (unread fr) + length bytes)
unfolding append
unread-append bytes fr =
    elim (Bool-cases (ltb max_buffered (length (compact fr).buffer + length bytes))) [
      | inl full ↦
          rw (full, consumed-compact fr, unread-compact fr)
            (rw (← unread-compact fr) (rw full refl), refl, omega arith)
      | inr room ↦
          rw (room, consumed-compact fr, unread-compact fr)
            (
              rw (← unread-compact fr) (rw room refl),
              refl,
              omega (arith, length-append (unread fr) bytes),
            )
    ]

-- What arrives within the bound is taken in.
pub unread-arrive :
    (bytes : List ℕ) (fr : FrameReader)
    → length (unread fr) + length bytes ≤ max_buffered
    → ((arrive bytes fr).1 ≡ true) × (unread (arrive bytes fr).0 ≡ unread fr ++ bytes)
unfolding arrive
unread-arrive [] fr room = (refl, sym (append-nil (unread fr)))
unread-arrive (byte ∷ bytes) fr room =
    let (taken, left, size) = unread-append (byte ∷ bytes) fr in
    let accepted : (append (byte ∷ bytes) fr).1 ≡ true =
      taken ∙ ap not (le→ltb_false max_buffered _ room) in
    (accepted, rw accepted at left)

-- A frame at the front is handed out, and what follows it is unread then.
pub next-frame :
    (L : CellLib) (fr : FrameReader) (m : Message L) (n : ℕ)
    → decode L (unread fr) ≡ (record { error = DecodeError.none; consumed = n }, some m)
    → ((next L fr).1 ≡ some m) × (unread (next L fr).2 ≡ drop n (unread fr))
unfolding next
next-frame L fr m n e = rw e (elim (Bool-cases (fr.consumed + n == length fr.buffer)) [
  | inl whole ↦
      rw (whole, advance)
        (refl, sym (drop_all _ fr.buffer (==→eq _ _ whole)) ∙ drop-drop fr.consumed n fr.buffer)
  | inr part ↦ rw (part, advance) (refl, drop-drop fr.consumed n fr.buffer)
])

-- With no whole frame at the front the reader does not move.
pub next-incomplete :
    (L : CellLib) (fr : FrameReader)
    → decode L (unread fr) ≡ refused DecodeError.incomplete 0
    → next L fr ≡ (DecodeError.incomplete, none, fr)
unfolding next
next-incomplete L fr e = rw e
