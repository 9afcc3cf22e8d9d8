-- ===== src/Delta/Search/Bounds.antt =====
-- A shift that the search in src/common/grid_delta.cpp finds lies in the grid, and moves its region
-- by less than its height.
use ckmux.Prelude.{
  ℕ, zero, suc, ◌+◌, ◌-◌, ◌*◌, ◌≤◌, ◌<◌, ◌≡◌, Bool, ◌&&◌, not, none, some, leb, ltb, Bool-cases,
  inl, inr, arith,
}
use ckmux.Prelude.Int.{ℤ, pos}
use ckmux.Delta.Rows.{abs}
use ckmux.Delta.Search.{
  Best, find_bottom, candidate, is_zero, score_for, better, best_from, best_shift, standing,
}

pub find_bottom-le : (touched : ℕ → Bool) (top bottom : ℕ) → find_bottom touched top bottom ≤ bottom
unfolding find_bottom
find_bottom-le touched top zero = omega arith
find_bottom-le touched top (suc bottom) =
    elim (Bool-cases (ltb top (suc bottom) && not (touched bottom))) [
      | inl less ↦ rw less (omega (arith, find_bottom-le touched top bottom))
      | inr here ↦ rw here (omega arith)
    ]

abs-candidate : (band n : ℕ) → n ≤ 2 * (band - 1) → 0 < band → abs (candidate band n) < band
abs-candidate band n h less = elim (Bool-cases (leb (band - 1) n)) [
  | inl up ↦ rw up (omega arith)
  | inr down ↦ rw down (ground (arith))
]

some_lines : (a b : ℤ) → some a ≡ some b → a ≡ b
some_lines a b e = cc

none_lines : (a : ℤ) → ¬ (none ≡ some a)
none_lines a e = cc

module _ (top bottom : ℕ) (before after : ℕ → ℕ) (blank : ℕ) where
  abs-better :
      (lines : ℤ) (best : Best)
      → abs lines < bottom - top
      → abs best.lines < bottom - top
      → abs (better top bottom before after blank lines best).lines < bottom - top
  unfolding better
  abs-better lines best h k =
      elim (Bool-cases (
        not (is_zero lines)
        && ltb best.score (score_for top bottom before after blank (bottom - top) top lines))) [
          | inl more ↦ rw more h
          | inr less ↦ rw less k
        ]

  abs-best_from :
      (count n : ℕ) (best : Best)
      → n + count ≤ 2 * (bottom - top - 1) + 1
      → top < bottom
      → abs best.lines < bottom - top
      → abs (best_from top bottom before after blank count n best).lines < bottom - top
  unfolding best_from
  abs-best_from zero n best h less k = k
  abs-best_from (suc count) n best h less k =
      abs-best_from count (suc n) _ (omega arith) less
        (abs-better _ best (abs-candidate (bottom - top) n (omega arith) (omega arith)) k)

  pub best_shift-bounds :
      (lines : ℤ)
      → best_shift top bottom before after blank ≡ some lines
      → (top < bottom) × (abs lines < bottom - top)
  unfolding best_shift
  best_shift-bounds lines e =
      let last = bottom - top - 1 in
      let stay : Best = record { lines = pos 0; score = standing top bottom before after blank } in
      let best = best_from top bottom before after blank (2 * last + 1) 0 stay in
      elim (Bool-cases (
        leb 2 (bottom - top)
        && not (is_zero best.lines)
        && leb 2 (best.score - standing top bottom before after blank))) [
          | inl worth ↦
              let same : best.lines ≡ lines = some_lines _ _ (rw worth at e) in
              let less : top < bottom = ground (arith) in
              (
                less,
                rw (← same) (abs-best_from (2 * last + 1) 0 stay (omega arith) less (omega arith)),
              )
          | inr not_worth ↦ absurd (none_lines lines (rw not_worth at e))
        ]
