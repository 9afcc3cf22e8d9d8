-- ===== src/Prelude/Bits.antt =====
-- The bitwise operations of the program's words at variables, one digit at a time.
use Prim.Native.Nat.{
  ℕ, zero, suc, ◌+◌, ◌-◌, ◌*◌, ◌/◌, ◌%◌, ◌^◌, ◌≤◌, ◌<◌, min, max, bit_and, bit_or, bit_xor, digits,
  differ, bit_and-bitwise, bit_or-bitwise, bit_xor-bitwise,
}
use mathlib.Core.Path.{◌≡◌, refl, ap, ◌∙◌}
use mathlib.Core.Logic.{◌⊎◌, inl, inr}
use native.Mathlib.Omega.{arith}

-- An operation on digits, with what is left of the second number when the first has run out.
module _ (left : ℕ → ℕ) (f : ℕ → ℕ → ℕ) where
  -- Rounds past the first number's digits change nothing.
  digits_more :
      (rounds x y : ℕ) → x ≤ rounds → digits left f (suc rounds) x y ≡ digits left f rounds x y
  digits_more zero zero y h = refl
  digits_more zero (suc x) y h = absurd (omega arith)
  digits_more (suc rounds) zero y h = refl
  digits_more (suc rounds) (suc x) y h =
      let halves = digits_more rounds (suc x / 2) (y / 2) (omega arith) in omega (arith, halves)

  digits_extra :
      (extra rounds x y : ℕ)
      → x ≤ rounds
      → digits left f (extra + rounds) x y ≡ digits left f rounds x y
  digits_extra zero rounds x y h = ap (λ n. digits left f n x y) (omega arith)
  digits_extra (suc extra) rounds x y h =
      let one_more : suc extra + rounds ≡ suc (extra + rounds) = omega arith in
      ap (λ n. digits left f n x y) one_more
      ∙ digits_more (extra + rounds) x y (omega arith)
      ∙ digits_extra extra rounds x y h

  -- The lowest digit, and the others.
  digits-split :
      ((y : ℕ) → left y ≡ left (y / 2) * 2 + f 0 (y % 2))
      → (x y : ℕ)
      → digits left f x x y ≡ digits left f (x / 2) (x / 2) (y / 2) * 2 + f (x % 2) (y % 2)
  digits-split h zero y = h y
  digits-split h (suc x) y =
      let half = suc x / 2 in
      let same : digits left f x half (y / 2) ≡ digits left f half half (y / 2) =
        ap (λ n. digits left f n half (y / 2)) (omega arith)
        ∙ digits_extra (x - half) half half (y / 2) (omega arith) in
      omega (arith, same)

digit-cases : (a : ℕ) → (a % 2 ≡ 0) ⊎ (a % 2 ≡ 1)
digit-cases a = ground arith

differ-lt : (a c : ℕ) → (a ≡ 0) ⊎ (a ≡ 1) → (c ≡ 0) ⊎ (c ≡ 1) → differ a c < 2
differ-lt a c (inl x) (inl y) = rw (x, y) (omega arith)
differ-lt a c (inl x) (inr y) = rw (x, y) (omega arith)
differ-lt a c (inr x) (inl y) = rw (x, y) (omega arith)
differ-lt a c (inr x) (inr y) = rw (x, y) (omega arith)

-- A word is made of its half and its lowest digit.
Halves : ℕ → ℕ → ℕ → Type 0
Halves word half digit = (word / 2 ≡ half) × (word % 2 ≡ digit)

and-Halves : (x y : ℕ) → Halves (bit_and x y) (bit_and (x / 2) (y / 2)) (min (x % 2) (y % 2))
unfolding Halves
and-Halves x y =
    let split = digits-split (λ n. zero) min (λ n. omega arith) x y in
    let whole = bit_and-bitwise x y in
    let rest = bit_and-bitwise (x / 2) (y / 2) in
    (omega (arith, split, whole, rest), omega (arith, split, whole, rest))

or-Halves : (x y : ℕ) → Halves (bit_or x y) (bit_or (x / 2) (y / 2)) (max (x % 2) (y % 2))
unfolding Halves
or-Halves x y =
    let split = digits-split (λ n. n) max (λ n. omega arith) x y in
    let whole = bit_or-bitwise x y in
    let rest = bit_or-bitwise (x / 2) (y / 2) in
    (omega (arith, split, whole, rest), omega (arith, split, whole, rest))

xor-Halves : (x y : ℕ) → Halves (bit_xor x y) (bit_xor (x / 2) (y / 2)) (differ (x % 2) (y % 2))
unfolding Halves
xor-Halves x y =
    let split = digits-split (λ n. n) differ (λ n. omega arith) x y in
    let whole = bit_xor-bitwise x y in
    let rest = bit_xor-bitwise (x / 2) (y / 2) in
    let digit = differ-lt (x % 2) (y % 2) (digit-cases x) (digit-cases y) in
    (omega (arith, split, whole, rest, digit), omega (arith, split, whole, rest, digit))

-- A digit of the merged word: of the new one where the two differ, of the old one elsewhere.
merge_digit :
    (a c m n : ℕ)
    → (a ≡ 0) ⊎ (a ≡ 1)
    → (c ≡ 0) ⊎ (c ≡ 1)
    → m ≡ differ a c
    → n ≡ 1 - m
    → max (min a n) (min c m) ≡ c
merge_digit a c m n (inl x) (inl y) e f = rw (f, e, x, y) refl
merge_digit a c m n (inl x) (inr y) e f = rw (f, e, x, y) refl
merge_digit a c m n (inr x) (inl y) e f = rw (f, e, x, y) refl
merge_digit a c m n (inr x) (inr y) e f = rw (f, e, x, y) refl

merge_step :
    (a c m n : ℕ)
    → max (min (a % 2) (n % 2)) (min (c % 2) (m % 2)) ≡ c % 2
    → bit_or (bit_and (a / 2) (n / 2)) (bit_and (c / 2) (m / 2)) ≡ c / 2
    → bit_or (bit_and a n) (bit_and c m) ≡ c
unfolding Halves
merge_step a c m n d h =
    let (kept, kept_digit) = and-Halves a n in
    let (set, set_digit) = and-Halves c m in
    let (half, digit) = or-Halves (bit_and a n) (bit_and c m) in
    let same : bit_or (bit_and a n / 2) (bit_and c m / 2) ≡ c / 2 = rw (kept, set) h in
    let lowest : max (bit_and a n % 2) (bit_and c m % 2) ≡ c % 2 = rw (kept_digit, set_digit) d in
    omega (arith, half, digit, same, lowest)

pow_suc : (k : ℕ) → 2 ^ suc k ≡ 2 * 2 ^ k
pow_suc k = omega arith

bit_xor-lt : (k a c : ℕ) → a < 2 ^ k → c < 2 ^ k → bit_xor a c < 2 ^ k
unfolding Halves
bit_xor-lt zero a c p q =
    let x : a ≡ 0 = omega arith in let y : c ≡ 0 = omega arith in rw (x, y) (omega arith)
bit_xor-lt (suc k) a c p q = omega (
  arith,
  pow_suc k,
  (xor-Halves a c).0,
  bit_xor-lt k (a / 2) (c / 2) (omega (arith, pow_suc k)) (omega (arith, pow_suc k)),
  differ-lt (a % 2) (c % 2) (digit-cases a) (digit-cases c),
)

-- A word of `k` bits becomes another where a mask that has their differences says so.
merge_bits :
    (k a c m n : ℕ)
    → a < 2 ^ k
    → c < 2 ^ k
    → m ≡ bit_xor a c
    → n ≡ 2 ^ k - 1 - m
    → bit_or (bit_and a n) (bit_and c m) ≡ c
unfolding Halves
merge_bits zero a c m n p q e f =
    let x : a ≡ 0 = omega arith in let y : c ≡ 0 = omega arith in rw (f, e, x, y) refl
merge_bits (suc k) a c m n p q e f =
    let small : m < 2 ^ suc k = rw e (bit_xor-lt (suc k) a c p q) in
    let digit : differ (a % 2) (c % 2) < 2 =
      differ-lt (a % 2) (c % 2) (digit-cases a) (digit-cases c) in
    let (xor_half, xor_digit) = xor-Halves a c in
    let m_rest : m / 2 ≡ bit_xor (a / 2) (c / 2) = rw e xor_half in
    let m_digit : m % 2 ≡ differ (a % 2) (c % 2) = rw e xor_digit in
    merge_step a c m n
      (merge_digit (a % 2) (c % 2) (m % 2) (n % 2) (digit-cases a) (digit-cases c) m_digit
        (omega (arith, pow_suc k)))
      (merge_bits k (a / 2) (c / 2) (m / 2) (n / 2) (omega (arith, pow_suc k))
        (omega (arith, pow_suc k)) m_rest (omega (arith, pow_suc k)))

pub merge_changed :
    (a c : ℕ)
    → a < 2 ^ 32
    → c < 2 ^ 32
    → bit_or (bit_and a (2 ^ 32 - 1 - bit_xor a c)) (bit_and c (bit_xor a c)) ≡ c
merge_changed a c p q = merge_bits 32 a c (bit_xor a c) _ p q refl refl

-- No digit of the first number is in no digits.
digits-none : (rounds x : ℕ) → digits (λ n. zero) min rounds x 0 ≡ 0
digits-none zero x = refl
digits-none (suc rounds) zero = refl
digits-none (suc rounds) (suc x) =
    let others = digits-none rounds (suc x / 2) in omega (arith, others)

-- The mask that has every bit.
bit_and-ones : (k a m : ℕ) → a < 2 ^ k → m ≡ 2 ^ k - 1 → bit_and a m ≡ a
unfolding Halves
bit_and-ones zero a m p e = let x : a ≡ 0 = omega arith in rw x (bit_and-bitwise 0 m)
bit_and-ones (suc k) a m p e =
    let (half, digit) = and-Halves a m in
    let higher =
      bit_and-ones k (a / 2) (m / 2) (omega (arith, pow_suc k)) (omega (arith, pow_suc k)) in
    omega (arith, pow_suc k, half, digit, higher)

zero-bit_or : (b : ℕ) → bit_or 0 b ≡ b
zero-bit_or b = bit_or-bitwise 0 b

pub merge_all :
    (a c : ℕ) → c < 2 ^ 32 → bit_or (bit_and a (2 ^ 32 - 1 - 0xffffffff)) (bit_and c 0xffffffff) ≡ c
merge_all a c q =
    rw (bit_and-bitwise a 0 ∙ digits-none a a, bit_and-ones 32 c 0xffffffff q refl) (zero-bit_or c)
