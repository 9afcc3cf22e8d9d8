-- ===== src/Delta/Shift.antt =====
-- What `shift_rows` of src/common/grid_delta.cpp keeps: the size of a grid, and the rows outside the
-- region that it moves.
use native.Mathlib.Nat.{mul-le-mul_right, add-mul}
use ckmux.Prelude.{
  ℕ, zero, suc, ◌+◌, ◌-◌, ◌*◌, ◌≤◌, ◌<◌, ◌≡◌, refl, sym, ap, ◌∙◌, ◌⊎◌, inl, inr, ◌||◌, some, List,
  [], ◌∷◌, ◌++◌, length, take, drop, replicate, length-append, length-drop, length-take,
  length-replicate, leb, ◌==◌, Bool-cases, leb_false→lt, arith,
}
use ckmux.Prelude.Int.{ℤ, pos, negsuc}
use ckmux.Prelude.Lookup.{
  get_elem?, get_elem?-drop, get_elem?-take, get_elem?-left, get_elem?-right,
}
use ckmux.Prelude.Grid.{row-fits}
use ckmux.Proto.CellLib.{CellLib}
use ckmux.Delta.State.{StyleLib, blank_cell}
use ckmux.Delta.Rows.{abs, row_of, moved, shift_rows}

rows_split : (a b width : ℕ) → a ≤ b → (b - a) * width + a * width ≡ b * width
rows_split a b width h = sym (add-mul (b - a) a width) ∙ ap (λ n. n * width) (omega arith)

outside_cells :
    (row i top bottom width : ℕ)
    → i < width
    → (row < top) ⊎ (bottom ≤ row)
    → (row * width + i < top * width) ⊎ (bottom * width ≤ row * width + i)
outside_cells row i top bottom width h (inl above) =
    inl (omega (arith, row-fits row top width above))
outside_cells row i top bottom width h (inr below) =
    inr (omega (arith, mul-le-mul_right {m = bottom} {n = row} width below))

take-ext {ℓ} :
    {A : Type ℓ} (n : ℕ) (xs ys : List A)
    → ((i : ℕ) → i < n → get_elem? xs i ≡ get_elem? ys i)
    → take n xs ≡ take n ys
take-ext zero xs ys h = refl
take-ext (suc n) [] [] h = refl
take-ext (suc n) [] (y ∷ ys) h = let e = h 0 (omega arith) in cc
take-ext (suc n) (x ∷ xs) [] h = let e = h 0 (omega arith) in cc
take-ext (suc n) (x ∷ xs) (y ∷ ys) h =
    let e : some x ≡ some y = h 0 (omega arith) in
    let tail : take n xs ≡ take n ys = take-ext n xs ys (λ i k. h (suc i) (omega arith)) in cc

module _ {ℓ} {A : Type ℓ} where
  -- A grid in which the rows from `top` to `bottom` are others.
  abbrev replaced : ℕ → ℕ → List A → List A → List A
  replaced start end grid region = take start grid ++ (region ++ drop end grid)

  length-replaced :
      (start end : ℕ) (grid region : List A)
      → start ≤ end
      → end ≤ length grid
      → length region ≡ end - start
      → length (replaced start end grid region) ≡ length grid
  length-replaced start end grid region a b e = omega (
    arith,
    length-append (take start grid) (region ++ drop end grid),
    length-append region (drop end grid),
    length-take start grid,
    length-drop end grid,
  )

  get_elem?-replaced :
      (start end : ℕ) (grid region : List A) (i : ℕ)
      → start ≤ end
      → end ≤ length grid
      → length region ≡ end - start
      → (i < start) ⊎ (end ≤ i)
      → get_elem? (replaced start end grid region) i ≡ get_elem? grid i
  get_elem?-replaced start end grid region i a b e (inl h) =
      get_elem?-left i (take start grid) _ (omega (arith, length-take start grid))
      ∙ get_elem?-take start i grid h
  get_elem?-replaced start end grid region i a b e (inr h) =
      let size : length (take start grid) ≡ start = omega (arith, length-take start grid) in
      let place : end + (i - start - length region) ≡ i = omega arith in
      get_elem?-right i (take start grid) _ (omega (arith, size))
      ∙ ap (λ n. get_elem? (region ++ drop end grid) (i - n)) size
      ∙ get_elem?-right (i - start) region _ (omega arith)
      ∙ get_elem?-drop end (i - start - length region) grid
      ∙ ap (get_elem? grid) place

module _ (L : CellLib) (k : StyleLib L) where
  length-moved :
      (width height : ℕ) (lines : ℤ) (region : List L.Cell)
      → abs lines < height
      → length region ≡ height * width
      → length (moved L k width height lines region) ≡ height * width
  unfolding moved
  length-moved width height (pos lines) region h e = omega (
    arith,
    length-append (drop (lines * width) region) (replicate (lines * width) (blank_cell L k)),
    length-drop (lines * width) region,
    length-replicate (lines * width) (blank_cell L k),
    rows_split lines height width (omega arith),
  )
  length-moved width height (negsuc lines) region h e = omega (
    arith,
    length-append (replicate (suc lines * width) (blank_cell L k))
        (take ((height - suc lines) * width) region),
    length-take ((height - suc lines) * width) region,
    length-replicate (suc lines * width) (blank_cell L k),
    rows_split (suc lines) height width (omega arith),
  )

  -- A shift leaves a grid as it was, or puts as many other cells into its region.
  shift_rows-replaced :
      (width top bottom : ℕ) (lines : ℤ) (grid : List L.Cell)
      → bottom * width ≤ length grid
      → (shift_rows L k width top bottom lines grid ≡ grid)
        ⊎ ((region : List L.Cell) × ((top < bottom)
              × ((length region ≡ (bottom - top) * width)
                  × (shift_rows L k width top bottom lines grid
                      ≡ replaced (top * width) (bottom * width) grid region))))
  unfolding shift_rows
  shift_rows-replaced width top bottom lines grid h =
      let few : top < bottom → (bottom - top) * width + top * width ≡ bottom * width =
        λ less. rows_split top bottom width (omega arith) in
      elim (Bool-cases (leb bottom top || abs lines == 0)) [
        | inl still ↦ inl (rw still refl)
        | inr moves ↦
            let less : top < bottom = ground (arith) in
            elim (Bool-cases (leb (bottom - top) (abs lines))) [
              | inl far ↦ inr (
                replicate ((bottom - top) * width) (blank_cell L k),
                (less, (length-replicate _ _, rw (moves, far) refl)),
              )
              | inr near ↦ inr (
                moved L k width (bottom - top) lines
                    (take ((bottom - top) * width) (drop (top * width) grid)),
                (
                  less,
                  (
                    length-moved width (bottom - top) lines _ (leb_false→lt _ _ near) (
                        omega (
                          arith,
                          length-take ((bottom - top) * width) (drop (top * width) grid),
                          length-drop (top * width) grid,
                          few less,
                        )),
                    rw (moves, near) refl,
                  ),
                ),
              )
            ]
      ]

  pub length-shift_rows :
      (width top bottom : ℕ) (lines : ℤ) (grid : List L.Cell)
      → bottom * width ≤ length grid
      → length (shift_rows L k width top bottom lines grid) ≡ length grid
  length-shift_rows width top bottom lines grid h =
      elim (shift_rows-replaced width top bottom lines grid h) [
        | inl same ↦ ap length same
        | inr (region, (less, (size, form))) ↦
            ap length form
            ∙ length-replaced (top * width) (bottom * width) grid region
                (omega (arith, rows_split top bottom width (omega arith))) h
                (omega (arith, size, rows_split top bottom width (omega arith)))
      ]

  -- A row outside the region stays.
  pub row_of-shift_rows :
      (width top bottom row : ℕ) (lines : ℤ) (grid : List L.Cell)
      → bottom * width ≤ length grid
      → (row < top) ⊎ (bottom ≤ row)
      → row_of (shift_rows L k width top bottom lines grid) width row ≡ row_of grid width row
  unfolding row_of
  row_of-shift_rows width top bottom row lines grid h outside =
      elim (shift_rows-replaced width top bottom lines grid h) [
        | inl same ↦ ap (λ g. take width (drop (row * width) g)) same
        | inr (region, (less, (size, form))) ↦ take-ext width _ _ (λ i k.
            get_elem?-drop (row * width) i _
            ∙ ap (λ g. get_elem? g (row * width + i)) form
            ∙ get_elem?-replaced (top * width) (bottom * width) grid region (row * width + i)
                (omega (arith, rows_split top bottom width (omega arith))) h
                (omega (arith, size, rows_split top bottom width (omega arith)))
                (outside_cells row i top bottom width k outside)
            ∙ sym (get_elem?-drop (row * width) i grid))
      ]
