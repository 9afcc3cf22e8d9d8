-- ===== src/Proto/Codes.antt =====
-- What it is for a writer and a reader of src/common/proto.cpp to agree on a value.
pub mod Numbers
pub mod Entries
use ckmux.Prelude.{
  ℕ, ◌+◌, ◌≡◌, refl, sym, ap, ◌∙◌, List, [], ◌++◌, append-nil, append_assoc, length, length-append,
  arith,
}
use ckmux.Proto.Wire.{Writer, Put, ◌▸◌, nothing, Get, ◌>>=◌, pure, ready}

-- `put` appends `size` bytes and does not fail, and `get` reads them back as `a`, with any bytes
-- behind them.
pub record Codes {A : Type 0} (put : Put) (get : Get A) (a : A) (size : ℕ) : Type 0 where
  pub bytes : List ℕ
  pub sized : length bytes ≡ size
  pub writes : (w : Writer) → put w ≡ record { out = w.out ++ bytes; ok = w.ok }
  pub reads : (rest : List ℕ) → get (ready (bytes ++ rest)) ≡ (a, ready rest)

pub Codes-pure : {A : Type 0} (a : A) → Codes nothing (pure a) a 0
unfolding nothing pure
Codes-pure a = record {
  bytes = [];
  sized = refl;
  writes = λ w.
      ap (λ (l : List ℕ). let r : Writer = record { out = l; ok = w.ok } in r)
        (sym (append-nil w.out));
  reads = λ rest. refl;
}

module _ {A B : Type 0} {p : Put} {g : Get A} {a : A} {m : ℕ} where
  -- One field, and then the others.
  pub Codes-seq :
      {q : Put} {b : B} {n : ℕ} (h : A → Get B)
      → Codes p g a m
      → Codes q (h a) b n
      → Codes (p ▸ q) (g >>= h) b (m + n)
  unfolding ◌▸◌ ◌>>=◌
  Codes-seq h c d = record {
    bytes = c.bytes ++ d.bytes;
    sized = omega (arith, length-append c.bytes d.bytes, c.sized, d.sized);
    writes = λ w. rw (c.writes w, d.writes) (rw append_assoc);
    reads = λ rest. rw (append_assoc, c.reads (d.bytes ++ rest)) (d.reads rest);
  }

  -- The last field.
  pub Codes-last : (f : A → B) → Codes p g a m → Codes p (g >>= λ x. pure (f x)) (f a) m
  unfolding ◌>>=◌ pure
  Codes-last f c = record {
    bytes = c.bytes;
    sized = c.sized;
    writes = c.writes;
    reads = λ rest. rw (c.reads rest);
  }

module _ {A : Type 0} {p : Put} {g : Get A} {a : A} {m : ℕ} where
  pub Codes-resize : (n : ℕ) → Codes p g a m → m ≡ n → Codes p g a n
  Codes-resize n c e = record {
    bytes = c.bytes;
    sized = c.sized ∙ e;
    writes = c.writes;
    reads = c.reads;
  }
