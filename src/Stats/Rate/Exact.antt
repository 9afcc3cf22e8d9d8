-- ===== src/Stats/Rate/Exact.antt =====
-- The long division of src/common/stats.cpp is exact.
use Prim.Native.Nat.{bit_and, min}
use ckmux.Prelude.{
  ℕ, ◌+◌, ◌-◌, ◌*◌, ◌/◌, ◌%◌, ◌^◌, ◌≤◌, ◌<◌, ◌≡◌, refl, List, [], ◌∷◌, leb, ltb, ◌==◌,
  if◌then◌else◌, arith, Bool-cases, inl, inr, leb→le, leb_false→lt, ltb→lt, ltb_false→le,
}
use native.Mathlib.Nat.{mod-lt, div-add-mod', min-eq_left, min-eq_right}
use ckmux.Stats.Rate.{
  Division, maximum, double, add_initial, divide_bit, divide, bits, start, cpu_rate,
}

-- So far `multiple * initial` has been divided by `wall`, with less than `bound` for a quotient.
record Divided (wall initial multiple bound : ℕ) (d : Division) : Type 0 where
  exact : d.fraction * wall + d.remainder ≡ multiple * initial
  below : d.remainder < wall
  small : d.fraction + 2 ≤ bound

module _ (wall initial : ℕ) (fits : wall < 2 ^ 64) (rest : initial < wall) where
  double-Divided :
      (multiple bound : ℕ) (d : Division)
      → bound ≤ 2 ^ 20
      → Divided wall initial multiple bound d
      → Divided wall initial (2 * multiple) (2 * bound - 1) (double wall d)
  unfolding double
  double-Divided multiple bound d room h =
      let twice : d.fraction * 2 % 2 ^ 32 ≡ d.fraction * 2 = omega (arith, h.small) in
      let up : (d.fraction * 2 + 1) % 2 ^ 32 ≡ d.fraction * 2 + 1 = omega (arith, h.small) in
      elim (Bool-cases (leb (wall - d.remainder) d.remainder)) [
        | inl over ↦
            let high = leb→le _ _ over in
            rw (over, twice, up)
              (record {
                exact = omega (arith, h.exact, h.below, high);
                below = omega (arith, h.below, high);
                small = omega (arith, h.small);
              })
        | inr under ↦
            let low = leb_false→lt _ _ under in
            let sum : (d.remainder + d.remainder) % 2 ^ 64 ≡ d.remainder + d.remainder =
              omega (arith, h.below, low, fits) in
            rw (under, twice, sum)
              (record {
                exact = omega (arith, h.exact);
                below = omega (arith, h.below, low);
                small = omega (arith, h.small);
              })
      ]

  add_initial-Divided :
      (multiple bound : ℕ) (d : Division)
      → bound ≤ 2 ^ 20
      → Divided wall initial multiple bound d
      → Divided wall initial (multiple + 1) (bound + 1) (add_initial wall initial d)
  unfolding add_initial
  add_initial-Divided multiple bound d room h =
      let up : (d.fraction + 1) % 2 ^ 32 ≡ d.fraction + 1 = omega (arith, h.small) in
      elim (Bool-cases (leb (wall - initial) d.remainder)) [
        | inl over ↦
            let high = leb→le _ _ over in
            rw (over, up)
              (record {
                exact = omega (arith, h.exact, h.below, high);
                below = omega (arith, h.below, high);
                small = omega (arith, h.small);
              })
        | inr under ↦
            let low = leb_false→lt _ _ under in
            let sum : (d.remainder + initial) % 2 ^ 64 ≡ d.remainder + initial =
              omega (arith, h.below, low, fits) in
            rw (under, sum)
              (record {
                exact = omega (arith, h.exact);
                below = omega (arith, h.below, low);
                small = omega (arith, h.small);
              })
      ]

  -- The multiple that the bits stand for.
  abbrev multiple_of : ℕ → List ℕ → ℕ
  multiple_of multiple [] = multiple
  multiple_of multiple (bit ∷ bits) =
      multiple_of (if bit_and 1000 bit == 0 then 2 * multiple else 2 * multiple + 1) bits

  Divided-weaken :
      (multiple bound bound' : ℕ) (d : Division)
      → bound ≤ bound'
      → Divided wall initial multiple bound d
      → Divided wall initial multiple bound' d
  Divided-weaken multiple bound bound' d le h = record {
    exact = h.exact;
    below = h.below;
    small = omega (arith, h.small);
  }

  divide_bit-Divided :
      (bit multiple bound : ℕ) (d : Division)
      → bound ≤ 2 ^ 19
      → Divided wall initial multiple bound d
      → Divided wall initial
          (if bit_and 1000 bit == 0 then 2 * multiple else 2 * multiple + 1)
          (2 * bound)
          (divide_bit wall initial bit d)
  unfolding divide_bit
  divide_bit-Divided bit multiple bound d room h =
      let doubled = double-Divided multiple bound d (omega arith) h in
      elim (Bool-cases (bit_and 1000 bit == 0)) [
        | inl skip ↦ rw skip (Divided-weaken _ _ _ _ (omega arith) doubled)
        | inr add ↦ rw add (
            Divided-weaken _ _ _ _ (omega (arith, h.small))
              (add_initial-Divided (2 * multiple) (2 * bound - 1) _ (omega arith) doubled))
      ]

  abbrev scaled : ℕ → List ℕ → ℕ
  scaled bound [] = bound
  scaled bound (bit ∷ bits) = scaled (2 * bound) bits

  le-scaled : (bound : ℕ) (bits : List ℕ) → bound ≤ scaled bound bits
  le-scaled bound [] = omega arith
  le-scaled bound (bit ∷ bits) = omega (arith, le-scaled (2 * bound) bits)

  divide-Divided :
      (bits : List ℕ) (multiple bound : ℕ) (d : Division)
      → scaled bound bits ≤ 2 ^ 19
      → Divided wall initial multiple bound d
      → Divided wall initial
          (multiple_of multiple bits)
          (scaled bound bits)
          (divide wall initial bits d)
  unfolding divide
  divide-Divided [] multiple bound d room h = h
  divide-Divided (bit ∷ bits) multiple bound d room h =
      divide-Divided bits _ (2 * bound) (divide_bit wall initial bit d) room
        (divide_bit-Divided bit multiple bound d (omega (arith, le-scaled (2 * bound) bits)) h)

  thousand : Divided wall initial 1000 2048 (divide wall initial bits start)
  thousand =
      divide-Divided bits 0 2 start (omega arith)
        (record { exact = omega arith; below = omega arith; small = omega arith })

quotient_unique : (q r w n : ℕ) → q * w + r ≡ n → r < w → n / w ≡ q
quotient_unique q r w n e h = grind arith

-- What `cpu_rate` does with the parts of the quotient.
clamp-min :
    (whole fraction : ℕ)
    → whole < 2 ^ 64
    → fraction + 2 ≤ 2048
    → (if ltb (maximum / 1000) whole
        then maximum
        else if ltb maximum ((whole * 1000 + fraction) % 2 ^ 64)
        then maximum
        else (whole * 1000 + fraction) % 2 ^ 64 % 2 ^ 32)
      ≡ min (whole * 1000 + fraction) maximum
clamp-min whole fraction small low = elim (Bool-cases (ltb (maximum / 1000) whole)) [
  | inl big ↦
      let above = ltb→lt _ _ big in
      let more : maximum ≤ whole * 1000 + fraction = omega arith in rw (big, min-eq_right more) refl
  | inr fine ↦
      let below = ltb_false→le _ _ fine in
      let same : (whole * 1000 + fraction) % 2 ^ 64 ≡ whole * 1000 + fraction = omega arith in
      elim (Bool-cases (ltb maximum (whole * 1000 + fraction))) [
        | inl big ↦
            let more : maximum ≤ whole * 1000 + fraction = omega (arith, ltb→lt _ _ big) in
            rw (fine, same, big, min-eq_right more) refl
        | inr least ↦
            let less : whole * 1000 + fraction ≤ maximum = ltb_false→le _ _ least in
            let word : (whole * 1000 + fraction) % 2 ^ 32 ≡ whole * 1000 + fraction = omega arith in
            rw (fine, same, least, min-eq_left less, word) refl
      ]
]

-- For a clock that has moved, and counters of 64 bits, the rate is the exact quotient, held to the
-- largest value of its 32 bits.
pub cpu_rate-exact :
    (cpu wall : ℕ)
    → cpu < 2 ^ 64
    → wall < 2 ^ 64
    → 0 < wall
    → cpu_rate cpu wall ≡ min (cpu * 1000 / wall) maximum
unfolding cpu_rate
cpu_rate-exact cpu wall small fits moved =
    let rest : cpu % wall < wall = mod-lt cpu moved in
    let h = thousand wall (cpu % wall) fits rest in
    let d = divide wall (cpu % wall) bits start in
    let parts : cpu / wall * wall + cpu % wall ≡ cpu = div-add-mod' cpu wall in
    let exact : cpu * 1000 / wall ≡ cpu / wall * 1000 + d.fraction =
      quotient_unique (cpu / wall * 1000 + d.fraction) d.remainder wall (cpu * 1000)
        (grind (arith, h.exact, parts)) h.below in
    let whole : cpu / wall < 2 ^ 64 = grind (arith, parts) in
    rw exact (clamp-min (cpu / wall) d.fraction whole h.small)
