-- ===== src/Delta/Repaint/Paint.antt =====
-- What cells that are copied to their own places make of a row: the operations of
-- `emit_changed_row` in src/common/grid_delta.cpp, one after the other.
use ckmux.Prelude.{
  ℕ, ◌+◌, ◌-◌, ◌≤◌, ◌<◌, ◌≡◌, refl, ap, ◌∙◌, ◌⊎◌, inl, inr, List, [], ◌∷◌, ◌++◌, length, take, drop,
  All, length-append, length-drop, length-take, take-append_past, ltb, ltb→lt, ltb_false→le,
  Bool-cases, arith, append_assoc,
}
use ckmux.Prelude.Lookup.{
  get_elem?, get_elem?-ext, get_elem?-drop, get_elem?-take, get_elem?-left, get_elem?-right,
}
use ckmux.Prelude.Slices.{take-append_short, drop-append_short, drop-append_past}
use ckmux.Delta.Rows.{copy_to}
use ckmux.Delta.Repaint.{Span, slice}
use ckmux.Delta.Repaint.Coverage.{In, Covered, EndsBy}

In-cases : (i : ℕ) (span : Span) → In i span ⊎ ((i < span.first) ⊎ (span.last ≤ i))
In-cases i span = elim (Bool-cases (ltb i span.first)) [
  | inl a ↦ inr (inl (ltb→lt i span.first a))
  | inr a ↦ elim (Bool-cases (ltb i span.last)) [
    | inl b ↦ inl (ltb_false→le i span.first a, ltb→lt i span.last b)
    | inr b ↦ inr (inr (ltb_false→le i span.last b))
  ]
]

module _ {ℓ} {A : Type ℓ} where
  pub length-copy_to :
      (offset : ℕ) (incoming grid : List A)
      → offset + length incoming ≤ length grid
      → length (copy_to offset incoming grid) ≡ length grid
  unfolding copy_to
  length-copy_to offset incoming grid h = omega (
    arith,
    length-append (take offset grid) (incoming ++ drop (offset + length incoming) grid),
    length-append incoming (drop (offset + length incoming) grid),
    length-take offset grid,
    length-drop (offset + length incoming) grid,
  )

  pub length-slice :
      (span : Span) (cells : List A)
      → EndsBy (length cells) span
      → length (slice span cells) ≡ span.last - span.first
  length-slice span cells (a, b) = omega (
    arith,
    length-take (span.last - span.first) (drop span.first cells),
    length-drop span.first cells,
  )

  -- The entries before, within and behind what is copied.
  copy_to-before :
      (offset i : ℕ) (incoming grid : List A)
      → i < offset
      → offset ≤ length grid
      → get_elem? (copy_to offset incoming grid) i ≡ get_elem? grid i
  unfolding copy_to
  copy_to-before offset i incoming grid h k =
      get_elem?-left i (take offset grid) _ (omega (arith, length-take offset grid))
      ∙ get_elem?-take offset i grid h

  copy_to-within :
      (offset i : ℕ) (incoming grid : List A)
      → offset ≤ i
      → i < offset + length incoming
      → offset ≤ length grid
      → get_elem? (copy_to offset incoming grid) i ≡ get_elem? incoming (i - offset)
  unfolding copy_to
  copy_to-within offset i incoming grid h k le =
      let size : length (take offset grid) ≡ offset = omega (arith, length-take offset grid) in
      get_elem?-right i (take offset grid) _ (omega (arith, size))
      ∙ ap (λ n. get_elem? (incoming ++ drop (offset + length incoming) grid) (i - n)) size
      ∙ get_elem?-left (i - offset) incoming _ (omega arith)

  copy_to-behind :
      (offset i : ℕ) (incoming grid : List A)
      → offset + length incoming ≤ i
      → offset ≤ length grid
      → get_elem? (copy_to offset incoming grid) i ≡ get_elem? grid i
  unfolding copy_to
  copy_to-behind offset i incoming grid h le =
      let size : length (take offset grid) ≡ offset = omega (arith, length-take offset grid) in
      let place : offset + length incoming + (i - offset - length incoming) ≡ i = omega arith in
      get_elem?-right i (take offset grid) _ (omega (arith, size))
      ∙ ap (λ n. get_elem? (incoming ++ drop (offset + length incoming) grid) (i - n)) size
      ∙ get_elem?-right (i - offset) incoming _ (omega arith)
      ∙ get_elem?-drop (offset + length incoming) (i - offset - length incoming) grid
      ∙ ap (get_elem? grid) place

  -- A span of the row that is wanted, copied to its place.
  abbrev pub paint : List A → Span → List A → List A
  paint wanted span row = copy_to span.first (slice span wanted) row

  abbrev pub paint_all : List A → List Span → List A → List A
  paint_all wanted [] row = row
  paint_all wanted (span ∷ spans) row = paint_all wanted spans (paint wanted span row)

  paint-outside :
      (wanted row : List A) (span : Span) (i : ℕ)
      → length row ≡ length wanted
      → EndsBy (length wanted) span
      → (i < span.first) ⊎ (span.last ≤ i)
      → get_elem? (paint wanted span row) i ≡ get_elem? row i
  paint-outside wanted row span i same h (inl before) =
      copy_to-before span.first i (slice span wanted) row before (omega arith)
  paint-outside wanted row span i same h (inr behind) =
      copy_to-behind span.first i (slice span wanted) row
        (omega (arith, length-slice span wanted h)) (omega arith)

  paint-inside :
      (wanted row : List A) (span : Span) (i : ℕ)
      → length row ≡ length wanted
      → EndsBy (length wanted) span
      → In i span
      → get_elem? (paint wanted span row) i ≡ get_elem? wanted i
  paint-inside wanted row span i same h (a, b) =
      let place : span.first + (i - span.first) ≡ i = omega arith in
      copy_to-within span.first i (slice span wanted) row a
        (omega (arith, length-slice span wanted h)) (omega arith)
      ∙ get_elem?-take (span.last - span.first) (i - span.first) (drop span.first wanted)
          (omega arith)
      ∙ get_elem?-drop span.first (i - span.first) wanted
      ∙ ap (get_elem? wanted) place

  -- An entry that was right is still right.
  paint-right :
      (wanted row : List A) (span : Span) (i : ℕ)
      → length row ≡ length wanted
      → EndsBy (length wanted) span
      → get_elem? row i ≡ get_elem? wanted i
      → get_elem? (paint wanted span row) i ≡ get_elem? wanted i
  paint-right wanted row span i same h e = elim (In-cases i span) [
    | inl here ↦ paint-inside wanted row span i same h here
    | inr outside ↦ paint-outside wanted row span i same h outside ∙ e
  ]

  pub length-paint :
      (wanted row : List A) (span : Span)
      → length row ≡ length wanted
      → EndsBy (length wanted) span
      → length (paint wanted span row) ≡ length wanted
  length-paint wanted row span same h =
      length-copy_to span.first (slice span wanted) row (omega (arith, length-slice span wanted h))
      ∙ same

  paint_all-right :
      (wanted row : List A) (spans : List Span) (i : ℕ)
      → length row ≡ length wanted
      → All (EndsBy (length wanted)) spans
      → (get_elem? row i ≡ get_elem? wanted i) ⊎ Covered i spans
      → get_elem? (paint_all wanted spans row) i ≡ get_elem? wanted i
  paint_all-right wanted row [] i same h (inl e) = e
  paint_all-right wanted row [] i same h (inr c) = absurd c
  paint_all-right wanted row (span ∷ spans) i same (h, hs) (inl e) =
      paint_all-right wanted (paint wanted span row) spans i (length-paint wanted row span same h)
        hs (inl (paint-right wanted row span i same h e))
  paint_all-right wanted row (span ∷ spans) i same (h, hs) (inr (inl here)) =
      paint_all-right wanted (paint wanted span row) spans i (length-paint wanted row span same h)
        hs (inl (paint-inside wanted row span i same h here))
  paint_all-right wanted row (span ∷ spans) i same (h, hs) (inr (inr there)) =
      paint_all-right wanted (paint wanted span row) spans i (length-paint wanted row span same h)
        hs (inr there)

  -- Spans that cover what is not right make the row right.
  pub paint_all-Covered :
      (wanted row : List A) (spans : List Span)
      → length row ≡ length wanted
      → All (EndsBy (length wanted)) spans
      → ((i : ℕ) → (get_elem? row i ≡ get_elem? wanted i) ⊎ Covered i spans)
      → paint_all wanted spans row ≡ wanted
  paint_all-Covered wanted row spans same h c =
      get_elem?-ext _ _ (λ i. paint_all-right wanted row spans i same h (c i))

  -- A copy into the middle part of a list.
  pub copy_to-inner :
      (offset column : ℕ) (above row below incoming : List A)
      → length above ≡ offset
      → column + length incoming ≤ length row
      → copy_to (offset + column) incoming (above ++ (row ++ below))
        ≡ above ++ (copy_to column incoming row ++ below)
  unfolding copy_to
  copy_to-inner offset column above row below incoming e h =
      let front : take (offset + column) (above ++ (row ++ below)) ≡ above ++ take column row =
        take-append_past (offset + column) above (row ++ below) (omega arith)
        ∙ ap (λ n. above ++ take n (row ++ below)) (omega arith)
        ∙ ap (λ l. above ++ l) (take-append_short column row below (omega arith)) in
      let back : drop (offset + column + length incoming) (above ++ (row ++ below))
          ≡ drop (column + length incoming) row ++ below =
        ap (λ n. drop n (above ++ (row ++ below))) (omega arith)
        ∙ drop-append_past (column + length incoming) above (row ++ below)
        ∙ drop-append_short (column + length incoming) row below h in
      rw (front, back, append_assoc, append_assoc, append_assoc) refl
