-- ===== src/Prelude/Int.antt =====
-- Signed integers, and the two's-complement words that stand for them on the wire.
use Prim.Native.Nat.{ℕ, ◌-◌, ◌*◌, ◌%◌, ◌^◌, ◌<◌}
use mathlib.Core.Path.{◌≡◌}
use native.Mathlib.Omega.{arith}
use ckmux.Prelude.Tests.{ltb, if◌then◌else◌}

-- `negsuc n` is -(n + 1).
pub data ℤ : Type 0 where
  pos : ℕ → ℤ
  negsuc : ℕ → ℤ

-- The magnitude that a two's-complement word of `2 * h` values has to hold below `h`.
abbrev pub magnitude : ℤ → ℕ
magnitude (pos n) = n
magnitude (negsuc n) = n

-- `static_cast` of a signed value to the unsigned type with `2 * h` values.
abbrev pub to_word : ℕ → ℤ → ℕ
to_word h (pos n) = n % (2 * h)
to_word h (negsuc n) = 2 * h - 1 - n % (2 * h)

-- `static_cast` of an unsigned word with `2 * h` values to the signed type of its width.
abbrev pub of_word : ℕ → ℕ → ℤ
of_word h w = if ltb w h then pos w else negsuc (2 * h - 1 - w)

pub of_word-to_word_16 : (z : ℤ) → magnitude z < 2 ^ 15 → of_word (2 ^ 15) (to_word (2 ^ 15) z) ≡ z
of_word-to_word_16 (pos n) h = ground arith
of_word-to_word_16 (negsuc n) h = ground arith

pub of_word-to_word_32 : (z : ℤ) → magnitude z < 2 ^ 31 → of_word (2 ^ 31) (to_word (2 ^ 31) z) ≡ z
of_word-to_word_32 (pos n) h = ground arith
of_word-to_word_32 (negsuc n) h = ground arith

pub of_word-to_word_64 : (z : ℤ) → magnitude z < 2 ^ 63 → of_word (2 ^ 63) (to_word (2 ^ 63) z) ≡ z
of_word-to_word_64 (pos n) h = ground arith
of_word-to_word_64 (negsuc n) h = ground arith

pub to_word_16-lt : (z : ℤ) → to_word (2 ^ 15) z < 2 ^ 16
to_word_16-lt (pos n) = omega arith
to_word_16-lt (negsuc n) = omega arith

pub to_word_32-lt : (z : ℤ) → to_word (2 ^ 31) z < 2 ^ 32
to_word_32-lt (pos n) = omega arith
to_word_32-lt (negsuc n) = omega arith

pub to_word_64-lt : (z : ℤ) → to_word (2 ^ 63) z < 2 ^ 64
to_word_64-lt (pos n) = omega arith
to_word_64-lt (negsuc n) = omega arith
