-- ===== src/Client/Mirror/Refusal.antt =====
-- A delta that src/client/mirror.cpp does not take leaves the screen, and a snapshot is asked for.
use ckmux.Prelude.{◌+◌, ◌%◌, ◌^◌, ◌≡◌, refl, true, false, not, ◌==◌, Bool-cases, inl, inr, arith}
use ckmux.Proto.CellLib.{CellLib}
use ckmux.Proto.Deltas.{GridDelta}
use ckmux.Delta.State.{StyleLib}
use ckmux.Delta.Apply.{apply_delta}
use ckmux.Delta.Apply.Mirror.{IsMirror}
use ckmux.Delta.Apply.Valid.{apply_delta-IsMirror}
use ckmux.Client.Mirror.{TerminalMirror, apply}

module _ (L : CellLib) (k : StyleLib L) where
  -- Whatever delta a server sends to a mirror whose state is in order, the state is in order
  -- afterwards; when the delta is not taken the state and the number are as they were, and a snapshot
  -- is needed; when it is taken it had the next number, which is the mirror's then.
  pub apply-IsMirror :
      (m : TerminalMirror L) (delta : GridDelta L)
      → IsMirror L k m.state
      → IsMirror L k (apply L k m delta).mirror.state
        × (((apply L k m delta).accepted ≡ false
              → ((apply L k m delta).mirror.state ≡ m.state)
                × (((apply L k m delta).mirror.sequence ≡ m.sequence)
                    × ((apply L k m delta).mirror.needs_snapshot ≡ true)))
            × ((apply L k m delta).accepted ≡ true
                → (delta.seq ≡ (m.sequence + 1) % 2 ^ 32)
                  × ((apply L k m delta).mirror.sequence ≡ delta.seq)))
  unfolding apply
  apply-IsMirror m delta h =
      let (keeps, refuses) = apply_delta-IsMirror L k delta.ops m.state h in
      elim (Bool-cases (not (delta.seq == (m.sequence + 1) % 2 ^ 32))) [
        | inl lost ↦ rw lost (h, (λ e. (refl, (refl, refl)), λ e. cc))
        | inr next ↦ elim (Bool-cases (apply_delta L k delta.ops m.state).accepted) [
          | inl fits ↦ rw (next, fits) (keeps, (λ e. cc, λ e. (ground (arith), refl)))
          | inr refused ↦
              rw (next, refused) (keeps, (λ e. (refuses refused, (refl, refl)), λ e. cc))
        ]
      ]
