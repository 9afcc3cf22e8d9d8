-- ===== src/Proto/Reader/Counts.antt =====
-- However a peer lies about a count, the entries that the `Reader` of src/common/proto.cpp yields
-- fit the bytes that there are.
use ckmux.Prelude.{ℕ, zero, suc, ◌*◌, ◌/◌, ◌≤◌, length, length-drop, arith}
use ckmux.Proto.Wire.{Reader, Get, ◌>>=◌, pure}
use ckmux.Proto.Reader

u8-shrinks : (r : Reader) → length (Reader.u8 r).1.rest ≤ length r.rest
unfolding Reader.u8
u8-shrinks r = ground (arith, length-drop 1 r.rest)

u16-shrinks : (r : Reader) → length (Reader.u16 r).1.rest ≤ length r.rest
unfolding Reader.u16 ◌>>=◌ pure
u16-shrinks r = omega (arith, u8-shrinks r, u8-shrinks (Reader.u8 r).1)

u32-shrinks : (r : Reader) → length (Reader.u32 r).1.rest ≤ length r.rest
unfolding Reader.u32 ◌>>=◌ pure
u32-shrinks r = omega (arith, u16-shrinks r, u16-shrinks (Reader.u16 r).1)

-- What passes the test on a count.
le_div : (n k m : ℕ) → n ≤ m / k → n * k ≤ m
le_div n k m h = grind arith

count_body-fits : (k n : ℕ) (r : Reader) → (Reader.count_body k n r).0 * k ≤ length r.rest
unfolding Reader.count_body
count_body-fits k n r = ground (arith, le_div n k (length r.rest))

count-fits : (k : ℕ) (r : Reader) → (Reader.count k r).0 * k ≤ length r.rest
unfolding Reader.count ◌>>=◌
count-fits k r = omega (arith, count_body-fits k (Reader.u32 r).0 (Reader.u32 r).1, u32-shrinks r)

length-repeat :
    {A : Type 0} (n : ℕ) (get : Get A) (r : Reader) → length (Reader.repeat n get r).0 ≤ n
unfolding Reader.repeat
length-repeat zero get r = omega arith
length-repeat (suc n) get r = ground (arith, length-repeat n get (get r).1)

-- A counted sequence read from any bytes at all, with any decoder of its entries: the entries that
-- come out, each at the least size that the caller gave for one, take no more than the bytes left.
pub counted-fits :
    {A : Type 0} (entry_bytes : ℕ) (get : Get A) (r : Reader)
    → length ((Reader.count entry_bytes >>= λ n. Reader.repeat n get) r).0 * entry_bytes
      ≤ length r.rest
unfolding ◌>>=◌
counted-fits entry_bytes get r =
    let n = (Reader.count entry_bytes r).0 in
    grind (arith, length-repeat n get (Reader.count entry_bytes r).1, count-fits entry_bytes r)
