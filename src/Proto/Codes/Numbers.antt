-- ===== src/Proto/Codes/Numbers.antt =====
-- The numbers, strings, blobs and enums of src/common/proto.cpp are read as they were written.
use ckmux.Prelude.{
  ℕ, ◌+◌, ◌/◌, ◌%◌, ◌^◌, ◌≤◌, ◌<◌, ◌≡◌, refl, sym, ◌∙◌, Bool, false, List, [], ◌∷◌, ◌++◌, length,
  arith, le→ltb_false, length-append, take-append, drop-append,
}
use ckmux.Prelude.Int.{
  ℤ, magnitude, of_word-to_word_16, of_word-to_word_32, of_word-to_word_64, to_word_16-lt,
  to_word_32-lt, to_word_64-lt,
}
use ckmux.Proto.Wire.{Put, Reader, Get, ◌>>=◌, ready}
use ckmux.Proto.Writer
use ckmux.Proto.Reader
use ckmux.Proto.Codes.{Codes, Codes-seq, Codes-last}

-- Two values that are equal have the same code.
pub Codes-value :
    {A : Type 0} {p : Put} {g : Get A} {a b : A} {m : ℕ} → Codes p g a m → a ≡ b → Codes p g b m
Codes-value c e = rw (← e) c

pub Codes-u8 : (v : ℕ) → v < 256 → Codes (Writer.u8 v) Reader.u8 v 1
unfolding Writer.u8 Reader.u8
Codes-u8 v h = record {
  bytes = v % 256 ∷ [];
  sized = refl;
  writes = λ w. refl;
  reads = λ rest. ground arith;
}

pub Codes-u16 : (v : ℕ) → v < 2 ^ 16 → Codes (Writer.u16 v) Reader.u16 v 2
unfolding Writer.u16 Reader.u16
Codes-u16 v h =
    Codes-value
      (Codes-seq _ (Codes-u8 (v % 256) (omega arith))
        (Codes-last _ (Codes-u8 (v / 2 ^ 8 % 256) (omega arith))))
      (omega arith)

pub Codes-u32 : (v : ℕ) → v < 2 ^ 32 → Codes (Writer.u32 v) Reader.u32 v 4
unfolding Writer.u32 Reader.u32
Codes-u32 v h =
    Codes-value
      (Codes-seq _ (Codes-u16 (v % 2 ^ 16) (omega arith))
        (Codes-last _ (Codes-u16 (v / 2 ^ 16 % 2 ^ 16) (omega arith))))
      (omega arith)

pub Codes-u64 : (v : ℕ) → v < 2 ^ 64 → Codes (Writer.u64 v) Reader.u64 v 8
unfolding Writer.u64 Reader.u64
Codes-u64 v h =
    Codes-value
      (Codes-seq _ (Codes-u32 (v % 2 ^ 32) (omega arith))
        (Codes-last _ (Codes-u32 (v / 2 ^ 32 % 2 ^ 32) (omega arith))))
      (omega arith)

pub Codes-i16 : (v : ℤ) → magnitude v < 2 ^ 15 → Codes (Writer.i16 v) Reader.i16 v 2
unfolding Writer.i16 Reader.i16
Codes-i16 v h = Codes-value (Codes-last _ (Codes-u16 _ (to_word_16-lt v))) (of_word-to_word_16 v h)

pub Codes-i32 : (v : ℤ) → magnitude v < 2 ^ 31 → Codes (Writer.i32 v) Reader.i32 v 4
unfolding Writer.i32 Reader.i32
Codes-i32 v h = Codes-value (Codes-last _ (Codes-u32 _ (to_word_32-lt v))) (of_word-to_word_32 v h)

pub Codes-i64 : (v : ℤ) → magnitude v < 2 ^ 63 → Codes (Writer.i64 v) Reader.i64 v 8
unfolding Writer.i64 Reader.i64
Codes-i64 v h = Codes-value (Codes-last _ (Codes-u64 _ (to_word_64-lt v))) (of_word-to_word_64 v h)

-- Readers that do the same read the same.
pub Codes-run :
    {A : Type 0} {p : Put} {g g' : Get A} {a : A} {m : ℕ}
    → Codes p g a m
    → ((r : Reader) → g r ≡ g' r)
    → Codes p g' a m
Codes-run c e = record {
  bytes = c.bytes;
  sized = c.sized;
  writes = c.writes;
  reads = λ rest. sym (e _) ∙ c.reads rest;
}

-- After the last field the reader makes checks that pass, and takes nothing more.
pub Codes-then :
    {A B : Type 0} {p : Put} {g : Get A} {a : A} {b : B} {m : ℕ} (h : A → Get B)
    → Codes p g a m
    → ((rest : List ℕ) → h a (ready rest) ≡ (b, ready rest))
    → Codes p (g >>= h) b m
unfolding ◌>>=◌
Codes-then h c e = record {
  bytes = c.bytes;
  sized = c.sized;
  writes = c.writes;
  reads = λ rest. rw (c.reads rest) (e rest);
}

Codes-append :
    (text : List ℕ) → Codes (Writer.append text) (Reader.bytes_of (length text)) text (length text)
unfolding Writer.append Reader.bytes_of
Codes-append text = record {
  bytes = text;
  sized = refl;
  writes = λ w. refl;
  reads = λ rest.
      rw
        (le→ltb_false (length (text ++ rest)) (length text)
          (omega (arith, length-append text rest)))
        (rw (take-append, drop-append));
}

pub Codes-str :
    (text : List ℕ)
    → length text < 2 ^ 16
    → Codes (Writer.str text) Reader.str text (2 + length text)
unfolding Writer.str Reader.str
Codes-str text h =
    let whole : length text % 2 ^ 16 ≡ length text = omega arith in
    rw (le→ltb_false 0xffff (length text) (omega arith), whole)
      (Codes-seq _ (Codes-u16 (length text) h) (Codes-append text))

blob_body-eq-bytes_of :
    (limit n : ℕ) → n ≤ limit → (r : Reader) → Reader.bytes_of n r ≡ Reader.blob_body limit n r
unfolding Reader.blob_body
blob_body-eq-bytes_of limit n h r = rw (le→ltb_false limit n h)

-- A blob is read under a cap of its own.
pub Codes-blob :
    (limit : ℕ) (text : List ℕ)
    → length text ≤ limit
    → length text < 2 ^ 32
    → Codes (Writer.blob text) (Reader.blob limit) text (4 + length text)
unfolding Writer.blob Reader.blob
Codes-blob limit text h k =
    let whole : length text % 2 ^ 32 ≡ length text = omega arith in
    rw (le→ltb_false 0xffff_ffff (length text) (omega arith), whole)
      (Codes-seq _ (Codes-u32 (length text) k)
        (Codes-run (Codes-append text) (blob_body-eq-bytes_of limit (length text) h)))

enum_of_lem :
    {E : Type 0} (of_code : ℕ → E) (highest v : ℕ)
    → v ≤ highest
    → (rest : List ℕ) → Reader.enum_of of_code highest v (ready rest) ≡ (of_code v, ready rest)
unfolding Reader.enum_of
enum_of_lem of_code highest v h rest = rw (le→ltb_false highest v h)

pub Codes-enum :
    {E : Type 0} (code : E → ℕ) (of_code : ℕ → E) (highest : ℕ) (e : E)
    → code e ≤ highest
    → of_code (code e) ≡ e
    → highest < 256
    → Codes (Writer.u8 (code e)) (Reader.enum_u8 of_code highest) e 1
unfolding Reader.enum_u8
Codes-enum code of_code highest e h back small =
    Codes-value
      (Codes-then _ (Codes-u8 (code e) (omega arith)) (enum_of_lem of_code highest (code e) h)) back

-- A check that passes.
pub Codes-check :
    {B : Type 0} {p : Put} {b : B} {m : ℕ} (test : Bool) (h : Unit → Get B)
    → test ≡ false
    → Codes p (h tt) b m
    → Codes p (Reader.fail_if test >>= h) b m
unfolding ◌>>=◌ Reader.fail_if
Codes-check test h e c = Codes-run c (λ r. rw e)
