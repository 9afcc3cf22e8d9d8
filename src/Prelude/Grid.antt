-- ===== src/Prelude/Grid.antt =====
-- Rows of a list that is a grid of `height` rows of `width` entries.
use Prim.Native.Nat.{ℕ, suc, ◌+◌, ◌*◌, ◌≤◌, ◌<◌}
use mathlib.Core.Path.{◌≡◌, refl, sym, ap, ◌∙◌}
use mathlib.Core.List.{List, ◌++◌}
use native.Mathlib.Omega.{arith}
use native.Mathlib.Nat.{mul-le-mul_right}
use ckmux.Prelude.Lists.{length, take, drop, length-drop, length-take, take-append-drop}
use ckmux.Prelude.Slices.{drop-drop, take-take-drop}

pub row_end : (row width : ℕ) → suc row * width ≡ row * width + width
row_end row width = omega arith

pub row-fits : (row height width : ℕ) → row < height → row * width + width ≤ height * width
row-fits row height width h =
    omega
      (arith, mul-le-mul_right {m = suc row} {n = height} width (omega arith), row_end row width)

module _ {ℓ} {A : Type ℓ} where
  -- Nothing is above the first row.
  pub from_first :
      (width : ℕ) (grid others : List A) → grid ≡ take (0 * width) others ++ drop (0 * width) grid
  from_first width grid others = let none : 0 * width ≡ 0 = omega arith in rw none refl

  pub length-row :
      (row height width : ℕ) (grid : List A)
      → row < height
      → length grid ≡ height * width
      → length (take width (drop (row * width) grid)) ≡ width
  length-row row height width grid h e = omega (
    arith,
    length-take width (drop (row * width) grid),
    length-drop (row * width) grid,
    row-fits row height width h,
  )

  pub length-above :
      (row height width : ℕ) (grid : List A)
      → row < height
      → length grid ≡ height * width
      → length (take (row * width) grid) ≡ row * width
  length-above row height width grid h e =
      omega (arith, length-take (row * width) grid, row-fits row height width h)

  -- What is below a row's start is the row, and what is below it.
  pub split_below :
      (row width : ℕ) (grid : List A)
      → drop (row * width) grid
        ≡ take width (drop (row * width) grid) ++ drop (suc row * width) grid
  split_below row width grid =
      sym (take-append-drop width (drop (row * width) grid))
      ∙ ap (λ l. take width (drop (row * width) grid) ++ l)
          (sym (drop-drop (row * width) width grid)
            ∙ ap (λ n. drop n grid) (sym (row_end row width)))

  -- What is above a row's end is what is above it, and the row.
  pub split_above :
      (row width : ℕ) (grid : List A)
      → take (suc row * width) grid
        ≡ take (row * width) grid ++ take width (drop (row * width) grid)
  split_above row width grid =
      ap (λ n. take n grid) (row_end row width) ∙ take-take-drop (row * width) width grid
