-- ===== src/Stats/Rate.antt =====
-- `cpu_rate` of src/common/stats.cpp: thousandths of a core, by binary long division so that no
-- product leaves 64 bits.
pub mod Exact
use Prim.Native.Nat.{bit_and}
use ckmux.Prelude.{ℕ, ◌+◌, ◌-◌, ◌*◌, ◌/◌, ◌%◌, ◌^◌, List, [], ◌∷◌, leb, ltb, ◌==◌, if◌then◌else◌}

-- The loop's variables.
pub record Division : Type 0 where
  pub remainder : ℕ
  pub fraction : ℕ

abbrev pub maximum : ℕ
maximum = 2 ^ 32 - 1

-- fraction *= 2u, and the remainder doubled modulo `wall`.
unfoldable pub double : ℕ → Division → Division
double wall d =
    let fraction = d.fraction * 2 % 2 ^ 32 in
    if leb (wall - d.remainder) d.remainder
    then record {
      remainder = d.remainder - (wall - d.remainder);
      fraction = (fraction + 1) % 2 ^ 32;
    }
    else record { remainder = (d.remainder + d.remainder) % 2 ^ 64; fraction = fraction }

-- `initial` added to the remainder modulo `wall`.
unfoldable pub add_initial : ℕ → ℕ → Division → Division
add_initial wall initial d =
    if leb (wall - initial) d.remainder
    then record { remainder = d.remainder - (wall - initial); fraction = (d.fraction + 1) % 2 ^ 32 }
    else record d { remainder = (d.remainder + initial) % 2 ^ 64 }

unfoldable pub divide_bit : ℕ → ℕ → ℕ → Division → Division
divide_bit wall initial bit d =
    let d' = double wall d in if bit_and 1000 bit == 0 then d' else add_initial wall initial d'

unfoldable pub divide : ℕ → ℕ → List ℕ → Division → Division
divide wall initial [] d = d
divide wall initial (bit ∷ bits) d = divide wall initial bits (divide_bit wall initial bit d)

-- for (unsigned bit = 512; bit != 0; bit >>= 1u)
abbrev pub bits : List ℕ
bits = 512 ∷ 256 ∷ 128 ∷ 64 ∷ 32 ∷ 16 ∷ 8 ∷ 4 ∷ 2 ∷ 1 ∷ []

abbrev pub start : Division
start = record { remainder = 0; fraction = 0 }

unfoldable pub cpu_rate : ℕ → ℕ → ℕ
cpu_rate cpu wall =
    let whole = cpu / wall in
    let d = divide wall (cpu % wall) bits start in
    let result = (whole * 1000 + d.fraction) % 2 ^ 64 in
    if ltb (maximum / 1000) whole
    then maximum
    else if ltb maximum result
    then maximum
    else result % 2 ^ 32
