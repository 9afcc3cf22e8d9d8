-- ===== src/Proto/Codes/Entries.antt =====
-- Counted sequences of src/common/proto.cpp: the count is checked against what is left.
use ckmux.Prelude.{
  ℕ, ◌+◌, ◌*◌, ◌/◌, ◌%◌, ◌^◌, ◌≤◌, ◌<◌, ◌≡◌, refl, List, [], ◌∷◌, ◌++◌, append-nil, append_assoc,
  length, arith, le→ltb_false, All, length-append,
}
use mathlib.Core.List.{map, map-id}
use ckmux.Proto.Wire.{Put, ◌▸◌, nothing, Get, ◌>>=◌, ready}
use ckmux.Proto.Writer
use ckmux.Proto.Reader
use ckmux.Proto.Codes.{Codes}
use ckmux.Proto.Codes.Numbers.{Codes-u32}

-- A count that the bytes left can hold is accepted.
count_body_lem :
    (entry_bytes n : ℕ) (rest : List ℕ)
    → 0 < entry_bytes
    → n * entry_bytes ≤ length rest
    → Reader.count_body entry_bytes n (ready rest) ≡ (n, ready rest)
unfolding Reader.count_body
count_body_lem entry_bytes n rest positive fits =
    rw (le→ltb_false (length rest / entry_bytes) n (grind arith)) (ground arith)

-- The bytes of a sequence, where `size` is that of an entry.
abbrev pub total {ℓ} : {A : Type ℓ} → (A → ℕ) → List A → ℕ
total size [] = 0
total size (x ∷ xs) = size x + total size xs

-- Entries of one size.
pub total_const : {A : Type 0} (n : ℕ) (xs : List A) → total (λ _. n) xs ≡ n * length xs
total_const n [] = omega arith
total_const n (x ∷ xs) = omega (arith, total_const n xs)

-- Entries that arrive as `f` makes them.
module _ {A B : Type 0} (put : A → Put) (get : Get B) (size : A → ℕ) (f : A → B) where
  pub Codes-each_as :
      (xs : List A)
      → All (λ x. Codes (put x) get (f x) (size x)) xs
      → Codes (Writer.each put xs) (Reader.repeat (length xs) get) (map f xs) (total size xs)
  unfolding Writer.each Reader.repeat ◌▸◌ nothing
  Codes-each_as [] h = record {
    bytes = [];
    sized = refl;
    writes = λ w. rw append-nil;
    reads = λ rest. refl;
  }
  Codes-each_as (x ∷ xs) (c, h) =
      let d = Codes-each_as xs h in
      record {
        bytes = c.bytes ++ d.bytes;
        sized = omega (arith, length-append c.bytes d.bytes, c.sized, d.sized);
        writes = λ w. rw (c.writes w, d.writes) (rw append_assoc);
        reads = λ rest. rw (append_assoc, c.reads (d.bytes ++ rest), d.reads rest);
      }

  pub Codes-each_all_as :
      (xs : List A)
      → All (λ x. Codes (put x) get (f x) (size x)) xs
      → Codes (Writer.each put xs) (Reader.repeat_all (length xs) get) (map f xs) (total size xs)
  unfolding Writer.each Reader.repeat_all ◌▸◌ nothing
  Codes-each_all_as [] h = record {
    bytes = [];
    sized = refl;
    writes = λ w. rw append-nil;
    reads = λ rest. refl;
  }
  Codes-each_all_as (x ∷ xs) (c, h) =
      let d = Codes-each_all_as xs h in
      record {
        bytes = c.bytes ++ d.bytes;
        sized = omega (arith, length-append c.bytes d.bytes, c.sized, d.sized);
        writes = λ w. rw (c.writes w, d.writes) (rw append_assoc);
        reads = λ rest. rw (append_assoc, c.reads (d.bytes ++ rest), d.reads rest);
      }

-- Entries that arrive as they are.
module _ {A : Type 0} (put : A → Put) (get : Get A) (size : A → ℕ) where
  pub Codes-each :
      (xs : List A)
      → All (λ x. Codes (put x) get x (size x)) xs
      → Codes (Writer.each put xs) (Reader.repeat (length xs) get) xs (total size xs)
  Codes-each xs h = rw map-id at (Codes-each_as put get size (λ x. x) xs h)

  pub Codes-each_all :
      (xs : List A)
      → All (λ x. Codes (put x) get x (size x)) xs
      → Codes (Writer.each put xs) (Reader.repeat_all (length xs) get) xs (total size xs)
  Codes-each_all xs h = rw map-id at (Codes-each_all_as put get size (λ x. x) xs h)

module _ {A : Type 0} (put : A → Put) (size : A → ℕ) where
  -- Entries of `entry_bytes` or more each: the bytes that follow are enough for the count.
  total-ge :
      (entry_bytes : ℕ) (xs : List A)
      → All (λ x. entry_bytes ≤ size x) xs
      → length xs * entry_bytes ≤ total size xs
  total-ge entry_bytes [] h = omega arith
  total-ge entry_bytes (x ∷ xs) (h, k) = omega (arith, total-ge entry_bytes xs k)

  -- A count, and a loop of the reader over as many entries.
  pub Codes-count :
      {B : Type 0} {ys : List B} (loop : ℕ → Get (List B)) (entry_bytes : ℕ) (xs : List A)
      → length xs < 2 ^ 32
      → 0 < entry_bytes
      → All (λ x. entry_bytes ≤ size x) xs
      → Codes (Writer.each put xs) (loop (length xs)) ys (total size xs)
      → Codes (Writer.counted put xs) (Reader.count entry_bytes >>= loop) ys (4 + total size xs)
  unfolding Writer.counted Reader.count ◌▸◌ ◌>>=◌
  Codes-count loop entry_bytes xs h positive large c =
      let n = Codes-u32 (length xs) h in
      let whole : length xs % 2 ^ 32 ≡ length xs = omega arith in
      record {
        bytes = n.bytes ++ c.bytes;
        sized = omega (arith, length-append n.bytes c.bytes, n.sized, c.sized);
        writes = λ w. rw (whole, n.writes w, c.writes) (rw append_assoc);
        reads = λ rest. rw (
          append_assoc,
          n.reads (c.bytes ++ rest),
          count_body_lem entry_bytes (length xs) (c.bytes ++ rest) positive
              (omega (arith, length-append c.bytes rest, c.sized, total-ge entry_bytes xs large)),
          c.reads rest,
        );
      }
