-- ===== src/Prelude/Slices.antt =====
-- Parts of lists that are put together.
use Prim.Native.Nat.{ℕ, zero, suc, ◌+◌, ◌≤◌}
use Prim.Native.Nat.add
use mathlib.Core.Path.{◌≡◌, refl, sym, ap}
use mathlib.Core.List.{List, [], ◌∷◌, ◌++◌}
use native.Mathlib.Omega.{arith}
use ckmux.Prelude.Lists.{length, take, drop}

module _ {ℓ} {A : Type ℓ} where
  -- The first entries of a longer list.
  pub take-append_short : (n : ℕ) (xs ys : List A) → n ≤ length xs → take n (xs ++ ys) ≡ take n xs
  take-append_short zero xs ys h = refl
  take-append_short (suc n) [] ys h = absurd (omega arith)
  take-append_short (suc n) (x ∷ xs) ys h =
      ap (λ l. x ∷ l) (take-append_short n xs ys (omega arith))

  pub drop-append_short :
      (n : ℕ) (xs ys : List A) → n ≤ length xs → drop n (xs ++ ys) ≡ drop n xs ++ ys
  drop-append_short zero xs ys h = refl
  drop-append_short (suc n) [] ys h = absurd (omega arith)
  drop-append_short (suc n) (x ∷ xs) ys h = drop-append_short n xs ys (omega arith)

  drop-nil : (n : ℕ) (xs : List A) → length xs ≡ 0 → drop n xs ≡ []
  drop-nil zero [] e = refl
  drop-nil (suc n) [] e = refl
  drop-nil n (x ∷ xs) e = absurd (omega arith)

  pub drop_all : (n : ℕ) (xs : List A) → n ≡ length xs → drop n xs ≡ []
  drop_all zero [] e = refl
  drop_all zero (x ∷ xs) e = absurd (omega arith)
  drop_all (suc n) [] e = refl
  drop_all (suc n) (x ∷ xs) e = drop_all n xs (omega arith)

  pub drop-drop : (m n : ℕ) (xs : List A) → drop (m + n) xs ≡ drop n (drop m xs)
  drop-drop zero n xs = ap (λ k. drop k xs) (omega arith)
  drop-drop (suc m) n [] = rw add.suc (sym (drop-nil n [] refl))
  drop-drop (suc m) n (x ∷ xs) = rw add.suc (drop-drop m n xs)

  pub drop-append_past : (n : ℕ) (xs ys : List A) → drop (length xs + n) (xs ++ ys) ≡ drop n ys
  drop-append_past n [] ys = ap (λ k. drop k ys) (omega arith)
  drop-append_past n (x ∷ xs) ys = rw add.suc (drop-append_past n xs ys)

  take-nil : (n : ℕ) (xs : List A) → length xs ≡ 0 → take n xs ≡ []
  take-nil zero [] e = refl
  take-nil (suc n) [] e = refl
  take-nil n (x ∷ xs) e = absurd (omega arith)

  -- One more piece of `n` entries, behind `m`.
  pub take-take-drop : (m n : ℕ) (xs : List A) → take (m + n) xs ≡ take m xs ++ take n (drop m xs)
  take-take-drop zero n xs = ap (λ k. take k xs) (omega arith)
  take-take-drop (suc m) n [] = rw (add.suc, take-nil n [] refl) refl
  take-take-drop (suc m) n (x ∷ xs) = rw add.suc (ap (λ l. x ∷ l) (take-take-drop m n xs))

  pub take_all : (n : ℕ) (xs : List A) → n ≡ length xs → take n xs ≡ xs
  take_all zero [] e = refl
  take_all zero (x ∷ xs) e = absurd (omega arith)
  take_all (suc n) [] e = refl
  take_all (suc n) (x ∷ xs) e = ap (λ l. x ∷ l) (take_all n xs (omega arith))
