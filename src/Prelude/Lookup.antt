-- ===== src/Prelude/Lookup.antt =====
-- Entries of lists by their position.
use Prim.Native.Nat.{ℕ, zero, suc, ◌+◌, ◌-◌, ◌≤◌, ◌<◌}
use mathlib.Core.Path.{◌≡◌, refl, ap, ◌∙◌}
use mathlib.Core.Option.{Option, none, some}
use mathlib.Core.List.{List, [], ◌∷◌, ◌++◌}
use native.Mathlib.Omega.{arith}
use Prim.Native.Nat.add
use ckmux.Prelude.Lists.{length, take, drop}

module _ {ℓ} {A : Type ℓ} where
  abbrev pub get_elem? : List A → ℕ → Option A
  get_elem? [] i = none
  get_elem? (x ∷ xs) zero = some x
  get_elem? (x ∷ xs) (suc i) = get_elem? xs i

  head_same : (x y : A) → get_elem? (x ∷ []) 0 ≡ get_elem? (y ∷ []) 0 → x ≡ y
  head_same x y e = cc

  -- Lists with the same entries are the same.
  pub get_elem?-ext : (xs ys : List A) → ((i : ℕ) → get_elem? xs i ≡ get_elem? ys i) → xs ≡ ys
  get_elem?-ext [] [] h = refl
  get_elem?-ext [] (y ∷ ys) h = let e = h 0 in cc
  get_elem?-ext (x ∷ xs) [] h = let e = h 0 in cc
  get_elem?-ext (x ∷ xs) (y ∷ ys) h =
      let tail : xs ≡ ys = get_elem?-ext xs ys (λ i. h (suc i)) in
      let head : x ≡ y = head_same x y (h 0) in rw (head, tail) refl

  pub get_elem?-drop : (n i : ℕ) (xs : List A) → get_elem? (drop n xs) i ≡ get_elem? xs (n + i)
  get_elem?-drop zero i xs = ap (get_elem? xs) (omega arith)
  get_elem?-drop (suc n) i [] = refl
  get_elem?-drop (suc n) i (x ∷ xs) = rw add.suc (get_elem?-drop n i xs)

  pub get_elem?-take : (n i : ℕ) (xs : List A) → i < n → get_elem? (take n xs) i ≡ get_elem? xs i
  get_elem?-take zero i xs h = absurd (omega arith)
  get_elem?-take (suc n) i [] h = refl
  get_elem?-take (suc n) zero (x ∷ xs) h = refl
  get_elem?-take (suc n) (suc i) (x ∷ xs) h = get_elem?-take n i xs (omega arith)

  pub get_elem?-left :
      (i : ℕ) (xs ys : List A) → i < length xs → get_elem? (xs ++ ys) i ≡ get_elem? xs i
  get_elem?-left i [] ys h = absurd (omega arith)
  get_elem?-left zero (x ∷ xs) ys h = refl
  get_elem?-left (suc i) (x ∷ xs) ys h = get_elem?-left i xs ys (omega arith)

  pub get_elem?-right :
      (i : ℕ) (xs ys : List A)
      → length xs ≤ i
      → get_elem? (xs ++ ys) i ≡ get_elem? ys (i - length xs)
  get_elem?-right i [] ys h = ap (get_elem? ys) (omega arith)
  get_elem?-right zero (x ∷ xs) ys h = absurd (omega arith)
  get_elem?-right (suc i) (x ∷ xs) ys h =
      get_elem?-right i xs ys (omega arith) ∙ ap (get_elem? ys) (omega arith)
