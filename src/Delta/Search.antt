-- ===== src/Delta/Search.antt =====
-- The search for a shift that explains many changed rows: the first half of `diff` in
-- src/common/grid_delta.cpp, on the hashes of the rows before and after. A row's hash is a function
-- of its number.
pub mod Bounds
use ckmux.Prelude.{
  ℕ, zero, suc, ◌+◌, ◌-◌, ◌*◌, Bool, true, false, ◌&&◌, not, Option, none, some, leb, ltb, ◌==◌,
  if◌then◌else◌,
}
use ckmux.Prelude.Int.{ℤ, pos, negsuc}

pub record Best : Type 0 where
  pub lines : ℤ
  pub score : ℕ

-- The first row from `top` on that has changed, of `count`.
unfoldable pub find_top : (ℕ → Bool) → ℕ → ℕ → ℕ
find_top touched zero top = top
find_top touched (suc count) top =
    let rest = find_top touched count (suc top) in if touched top then top else rest

-- The end of the last row that has changed, not before `top`.
unfoldable pub find_bottom : (ℕ → Bool) → ℕ → ℕ → ℕ
find_bottom touched top zero = zero
find_bottom touched top (suc bottom) =
    let rest = find_bottom touched top bottom in
    if ltb top (suc bottom) && not (touched bottom) then rest else suc bottom

-- row + lines
unfoldable pub source_of : ℕ → ℤ → Option ℕ
source_of row (pos n) = some (row + n)
source_of row (negsuc n) = if leb (suc n) row then some (row - suc n) else none

-- What row stands there after the shift: one of the band, or a blank one.
unfoldable pub moved_hash : ℕ → ℕ → (ℕ → ℕ) → ℕ → Option ℕ → ℕ
moved_hash top bottom before blank none = blank
moved_hash top bottom before blank (some source) =
    if leb top source && ltb source bottom then before source else blank

-- `n - (band - 1)`, which the loop reaches in its round `n`.
abbrev pub candidate : ℕ → ℕ → ℤ
candidate band n =
    let last = band - 1 in if leb last n then pos (n - last) else negsuc (last - n - 1)

abbrev pub is_zero : ℤ → Bool
is_zero (pos n) = n == 0
is_zero (negsuc n) = false

module _ (top bottom : ℕ) (before after : ℕ → ℕ) (blank : ℕ) where
  -- `score_for`, for `count` rows from `row` on.
  unfoldable pub score_for : ℕ → ℕ → ℤ → ℕ
  score_for zero row lines = 0
  score_for (suc count) row lines =
      let rest = score_for count (suc row) lines in
      if moved_hash top bottom before blank (source_of row lines) == after row
      then suc rest
      else rest

  unfoldable pub better : ℤ → Best → Best
  better lines best =
      let score = score_for (bottom - top) top lines in
      if not (is_zero lines) && ltb best.score score
      then record { lines = lines; score = score }
      else best

  -- The loop over the candidates, from round `n` on.
  unfoldable pub best_from : ℕ → ℕ → Best → Best
  best_from zero n best = best
  best_from (suc count) n best = best_from count (suc n) (better (candidate (bottom - top) n) best)

  unfoldable pub standing : ℕ
  standing = score_for (bottom - top) top (pos 0)

  -- The shift, when there is one that is worth its bytes.
  unfoldable pub best_shift : Option ℤ
  best_shift =
      let best =
        best_from (2 * (bottom - top - 1) + 1) 0 (record { lines = pos 0; score = standing }) in
      if leb 2 (bottom - top) && not (is_zero best.lines) && leb 2 (best.score - standing)
      then some best.lines
      else none
