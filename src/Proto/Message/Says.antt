-- ===== src/Proto/Message/Says.antt =====
-- What it is for src/common/proto.cpp to say a message, and how an alternative of the variant does.
use ckmux.Prelude.{ℕ, ◌^◌, ◌<◌, ◌≡◌, ◌∙◌, ap, true, Option, none, some, List, ◌++◌, if◌then◌else◌}
use ckmux.Proto.Wire.{Writer, Put, Reader, Get, ready}
use ckmux.Proto.CellLib.{CellLib}
use ckmux.Proto.Carried.{carried}
use ckmux.Proto.Codes.{Codes}
use ckmux.Proto.Message.{
  Message, type_of, write_message, alternatives, decode_alternative, is_known_type,
}

-- What a message puts on the wire, and what the decoder of its type takes off again.
pub record Says (L : CellLib) (m : Message L) : Type 0 where
  pub bytes : List ℕ
  pub small : type_of m < 2 ^ 16
  pub known : is_known_type (type_of m) (alternatives L) ≡ true
  pub writes : (w : Writer) → write_message L m w ≡ record { out = w.out ++ bytes; ok = w.ok }
  pub reads :
      (rest : List ℕ)
      → decode_alternative (type_of m) (alternatives L) (ready (bytes ++ rest))
        ≡ some (carried L m, ready rest)

-- The alternative's value, unless its reader has failed.
abbrev pub picked :
    {L : CellLib} {A : Type 0} → (A → Message L) → A × Reader → Option (Message L × Reader)
picked make (a, r) = if r.ok then some (make a, r) else none

-- An alternative whose `write` and `read` agree, and which is found by its type, is said.
unfoldable pub say :
    {L : CellLib} {A : Type 0} {put : Put} {get : Get A} {a b : A} {size : ℕ} (make : A → Message L)
    → Codes put get b size
    → make b ≡ carried L (make a)
    → ((w : Writer) → write_message L (make a) w ≡ put w)
    → type_of (make a) < 2 ^ 16
    → is_known_type (type_of (make a)) (alternatives L) ≡ true
    → ((r : Reader)
        → decode_alternative (type_of (make a)) (alternatives L) r ≡ picked make (get r))
    → Says L (make a)
say {L} make c whole written small known found = record {
  bytes = c.bytes;
  small = small;
  known = known;
  writes = λ w. written w ∙ c.writes w;
  reads = λ rest.
      found (ready (c.bytes ++ rest))
      ∙ ap (picked make) (c.reads rest)
      ∙ ap (λ (m : Message L). some (m, ready rest)) whole;
}
