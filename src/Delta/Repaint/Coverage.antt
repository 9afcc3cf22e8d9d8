-- ===== src/Delta/Repaint/Coverage.antt =====
-- `emit_changed_row` of src/common/grid_delta.cpp leaves out no column that has changed.
use Prim.Native.Nat.{min}
use ckmux.Prelude.{
  ℕ, zero, suc, ◌+◌, ◌-◌, ◌^◌, ◌%◌, ◌≤◌, ◌<◌, ◌≡◌, refl, sym, ap, ◌∙◌, ◌⊎◌, inl, inr, true, Option,
  none, some, List, [], ◌∷◌, ◌++◌, length, drop, All, All-append, All-map, length-drop, ltb, ltb→lt,
  ltb_false→le, ◌==◌, ==→eq, Bool-cases, arith,
}
use ckmux.Prelude.Lookup.{get_elem?, get_elem?-drop}
use ckmux.Proto.CellLib.{CellLib}
use ckmux.Proto.Cells.{CellRun}
use ckmux.Proto.Runs.{CellTests}
use ckmux.Proto.Runs.RoundTrip.{CellTestsLaws}
use ckmux.Delta.Repaint.{
  Span, Pending, Round, flush, same_cell, same_count, changed, pass_run, take_run, round,
  spans_from, cells_op_overhead,
}

-- A column in some span.
abbrev pub In : ℕ → Span → Type 0
In i span = (span.first ≤ i) × (i < span.last)

abbrev pub Covered : ℕ → List Span → Type 0
Covered i [] = ⊥
Covered i (span ∷ spans) = In i span ⊎ Covered i spans

-- A span that ends by a column.
abbrev pub EndsBy : ℕ → Span → Type 0
EndsBy n span = (span.first ≤ span.last) × (span.last ≤ n)

Covered-left : (i : ℕ) (xs ys : List Span) → Covered i xs → Covered i (xs ++ ys)
Covered-left i [] ys c = absurd c
Covered-left i (x ∷ xs) ys (inl h) = inl h
Covered-left i (x ∷ xs) ys (inr h) = inr (Covered-left i xs ys h)

Covered-right : (i : ℕ) (xs ys : List Span) → Covered i ys → Covered i (xs ++ ys)
Covered-right i [] ys c = c
Covered-right i (x ∷ xs) ys c = inr (Covered-right i xs ys c)

-- What covers the end of a list of spans may be replaced.
Covered-map :
    (i : ℕ) (xs ys zs : List Span)
    → (Covered i ys → Covered i zs)
    → Covered i (xs ++ ys)
    → Covered i (xs ++ zs)
Covered-map i [] ys zs f c = f c
Covered-map i (x ∷ xs) ys zs f (inl h) = inl h
Covered-map i (x ∷ xs) ys zs f (inr h) = inr (Covered-map i xs ys zs f h)

EndsBy-mono : (n m : ℕ) (spans : List Span) → n ≤ m → All (EndsBy n) spans → All (EndsBy m) spans
EndsBy-mono n m spans le h = All-map (λ span (a, b). (a, omega arith)) spans h

module _ (L : CellLib) (t : CellTests L) where
  same_count-le : (first : L.Cell) (cells : List L.Cell) → same_count L t first cells ≤ length cells
  unfolding same_count
  same_count-le first [] = omega arith
  same_count-le first (cell ∷ cells) = elim (Bool-cases (same_cell L t first cell)) [
    | inl same ↦ rw same (omega (arith, same_count-le first cells))
    | inr other ↦ rw other (omega arith)
  ]

  pub same_cell-eq : CellTestsLaws L t → (a b : L.Cell) → same_cell L t a b ≡ true → a ≡ b
  unfolding same_cell
  same_cell-eq laws a b e = ground (arith, laws.same_cell a b)

  -- The span that the scan of a run finds.
  record Scan (from column count : ℕ) (mirror wanted : List L.Cell) (before after : Span)
      : Type 0 where
    low : from ≤ after.first
    first : after.first ≤ before.first
    last : before.last ≤ after.last
    end : after.last ≤ column + count
    kept : (after.first ≡ before.first) ⊎ (after.first < after.last)
    covers : (j : ℕ) → j < count → (get_elem? mirror j ≡ get_elem? wanted j) ⊎ In (column + j) after

  covers_step :
      (m w : L.Cell) (mirror wanted : List L.Cell) (column count : ℕ) (after : Span)
      → (m ≡ w) ⊎ In column after
      → ((j : ℕ)
          → j < count
          → (get_elem? mirror j ≡ get_elem? wanted j) ⊎ In (suc column + j) after)
      → (j : ℕ) → j < suc count
      → (get_elem? (m ∷ mirror) j ≡ get_elem? (w ∷ wanted) j) ⊎ In (column + j) after
  covers_step m w ms ws column count after (inl e) h zero k = inl (ap some e)
  covers_step m w ms ws column count after (inr (a, b)) h zero k =
      inr (omega (arith, a), omega (arith, b))
  covers_step m w ms ws column count after here h (suc j) k = elim (h j (omega arith)) [
    | inl e ↦ inl e
    | inr (a, b) ↦ inr (omega (arith, a), omega (arith, b))
  ]

  changed-Scan :
      CellTestsLaws L t
      → (low count column : ℕ) (mirror wanted : List L.Cell) (span : Span) → low ≤ column
      → low ≤ span.first
      → span.last ≤ column
      → count ≤ length mirror
      → count ≤ length wanted
      → Scan low column count mirror wanted span (changed L t count column mirror wanted span)
  unfolding changed
  changed-Scan laws low zero column mirror wanted span a b c d e = record {
    low = b;
    first = omega arith;
    last = omega arith;
    end = omega arith;
    kept = inl refl;
    covers = λ j h. absurd (omega arith);
  }
  changed-Scan laws low (suc count) column [] wanted span a b c d e = absurd (omega arith)
  changed-Scan laws low (suc count) column (m ∷ ms) [] span a b c d e = absurd (omega arith)
  changed-Scan laws low (suc count) column (m ∷ ms) (w ∷ ws) span a b c d e =
      elim (Bool-cases (same_cell L t m w)) [
        | inl same ↦
            let rest =
              changed-Scan laws low count (suc column) ms ws span (omega arith) b (omega arith)
                (omega arith) (omega arith) in
            rw same (record {
              low = rest.low;
              first = rest.first;
              last = rest.last;
              end = omega (arith, rest.end);
              kept = rest.kept;
              covers =
                  covers_step m w ms ws column count _ (inl (same_cell-eq laws m w same))
                    rest.covers;
            })
        | inr other ↦
            let wider : Span = record { first = min span.first column; last = suc column } in
            let rest =
              changed-Scan laws low count (suc column) ms ws wider (omega arith) (omega arith)
                (omega arith) (omega arith) (omega arith) in
            rw other (record {
              low = rest.low;
              first = omega (arith, rest.first);
              last = omega (arith, rest.last);
              end = omega (arith, rest.end);
              kept = inr (omega (arith, rest.first, rest.last));
              covers =
                  covers_step m w ms ws column count _
                    (inr (omega (arith, rest.first), omega (arith, rest.last))) rest.covers;
            })
      ]

  -- A pending span lies before the column that is looked at.
  abbrev Before : ℕ → Option Pending → Type 0
  Before n none = Unit
  Before n (some p) = EndsBy n p.span

  -- A round over a run that ends at `last`.
  record Rounded (last : ℕ) (span : Span) (before : Option Pending) (r : Round) : Type 0 where
    pending : Before last r.pending
    emitted : All (EndsBy last) r.emitted
    kept : (j : ℕ) → Covered j (flush before) → Covered j (r.emitted ++ flush r.pending)
    covers : (j : ℕ) → In j span → Covered j (r.emitted ++ flush r.pending)

  take_run-Rounded :
      (n last : ℕ) (span : Span) (before : Option Pending)
      → Before n before
      → n ≤ span.first
      → EndsBy last span
      → Rounded last span before (take_run L t span before)
  unfolding take_run
  take_run-Rounded n last span none h low (order, end) = record {
    pending = (order, end);
    emitted = tt;
    kept = λ j c. absurd c;
    covers = λ j c. inl c;
  }
  take_run-Rounded n last span (some p) (a, b) low (order, end) =
      elim (Bool-cases (ltb (cells_op_overhead L t) p.gap_bytes)) [
        | inl split ↦ rw split (record {
          pending = (order, end);
          emitted = ((a, omega arith), tt);
          kept = λ j c. elim c [ inl h ↦ inl h | inr h ↦ absurd h ];
          covers = λ j c. inr (inl c);
        })
        | inr joined ↦ rw joined (record {
          pending = (omega arith, end);
          emitted = tt;
          kept = λ j c. elim c [ inl (h, k) ↦ inl (h, omega arith) | inr h ↦ absurd h ];
          covers = λ j (h, k). inl (omega arith, k);
        })
      ]

  pass_run-Rounded :
      (n last : ℕ) (run : CellRun L) (span : Span) (before : Option Pending)
      → Before n before
      → n ≤ last
      → span.last ≤ last
      → span.first ≡ last
      → Rounded last span before (record { emitted = []; pending = pass_run L t run before })
  unfolding pass_run
  pass_run-Rounded n last run span none h le end e = record {
    pending = tt;
    emitted = tt;
    kept = λ j c. c;
    covers = λ j (a, b). absurd (omega arith);
  }
  pass_run-Rounded n last run span (some p) (a, b) le end e = record {
    pending = (a, omega arith);
    emitted = tt;
    kept = λ j c. c;
    covers = λ j (a, b). absurd (omega arith);
  }

  round-Rounded :
      (n last : ℕ) (run : CellRun L) (span : Span) (before : Option Pending)
      → Before n before
      → n ≤ last
      → n ≤ span.first
      → (span.first ≡ last) ⊎ (span.first < span.last)
      → span.last ≤ last
      → Rounded last span before (round L t n last run span before)
  unfolding round
  round-Rounded n last run span before h le low kept end = elim (Bool-cases (span.first == last)) [
    | inl same ↦
        rw same (pass_run-Rounded n last run span before h le end (==→eq span.first last same))
    | inr other ↦ rw other (take_run-Rounded n last span before h low (ground (arith), end))
  ]

  -- What the loop puts out from a column on, with a pending span before it.
  record Repaints (n : ℕ) (mirror wanted : List L.Cell) (pending : Option Pending)
      (spans : List Span) : Type 0 where
    ends : All (EndsBy (n + length wanted)) spans
    kept : (j : ℕ) → Covered j (flush pending) → Covered j spans
    covers : (i : ℕ) → (get_elem? mirror i ≡ get_elem? wanted i) ⊎ Covered (n + i) spans

  flush-ends :
      (n m : ℕ) (pending : Option Pending)
      → n ≤ m
      → Before n pending
      → All (EndsBy m) (flush pending)
  flush-ends n m none le h = tt
  flush-ends n m (some p) le (a, b) = ((a, omega arith), tt)

  flush-Repaints :
      (n : ℕ) (mirror wanted : List L.Cell) (pending : Option Pending)
      → Before n pending
      → length wanted ≡ 0
      → length mirror ≡ length wanted
      → Repaints n mirror wanted pending (flush pending)
  flush-Repaints n [] [] pending h e f = record {
    ends = flush-ends n _ pending (omega arith) h;
    kept = λ j c. c;
    covers = λ i. inl refl;
  }
  flush-Repaints n (m ∷ mirror) [] pending h e f = absurd (omega arith)
  flush-Repaints n mirror (w ∷ wanted) pending h e f = absurd (omega arith)

  -- The columns of a run, and those behind it.
  covers_run :
      (n count : ℕ) (mirror wanted : List L.Cell) (spans : List Span)
      → ((j : ℕ) → j < count → (get_elem? mirror j ≡ get_elem? wanted j) ⊎ Covered (n + j) spans)
      → ((i : ℕ)
          → (get_elem? (drop count mirror) i ≡ get_elem? (drop count wanted) i)
            ⊎ Covered (n + count + i) spans)
      → (i : ℕ) → (get_elem? mirror i ≡ get_elem? wanted i) ⊎ Covered (n + i) spans
  covers_run n count mirror wanted spans here there i = elim (Bool-cases (ltb i count)) [
    | inl a ↦ here i (ltb→lt i count a)
    | inr b ↦
        let split : count + (i - count) ≡ i = omega (arith, ltb_false→le i count b) in
        let place : n + count + (i - count) ≡ n + i = omega (arith, split) in
        elim (there (i - count)) [
          | inl e ↦ inl (
              sym (get_elem?-drop count (i - count) mirror ∙ ap (get_elem? mirror) split)
              ∙ e
              ∙ get_elem?-drop count (i - count) wanted
              ∙ ap (get_elem? wanted) split)
          | inr c ↦ inr (rw (← place) c)
        ]
  ]

  spans_from-Repaints :
      CellTestsLaws L t
      → (fuel n : ℕ) (mirror wanted : List L.Cell) (pending : Option Pending) → length wanted ≤ fuel
      → length mirror ≡ length wanted
      → Before n pending
      → Repaints n mirror wanted pending (spans_from L t fuel n mirror wanted pending)
  unfolding spans_from
  spans_from-Repaints laws zero n mirror wanted pending enough same h =
      flush-Repaints n mirror wanted pending h (omega arith) same
  spans_from-Repaints laws (suc fuel) n mirror [] pending enough same h =
      flush-Repaints n mirror [] pending h refl same
  spans_from-Repaints laws (suc fuel) n mirror (cell ∷ wanted) pending enough same h =
      let few : same_count L t cell wanted ≤ length wanted = same_count-le cell wanted in
      let count : ℕ = suc (same_count L t cell wanted) in
      let initial : Span = record { first = n + count; last = n } in
      let scan =
        changed-Scan laws n count n mirror (cell ∷ wanted) initial (omega arith) (omega arith)
          (omega arith) (omega (arith, few)) (omega (arith, few)) in
      let run : CellRun L = record { run_length = count % 2 ^ 16; cell = cell } in
      let span = changed L t count n mirror (cell ∷ wanted) initial in
      let r =
        round-Rounded n (n + count) run span pending h (omega arith) scan.low scan.kept scan.end in
      let rest =
        spans_from-Repaints laws fuel (n + count) (drop count mirror) (drop count (cell ∷ wanted))
          (round L t n (n + count) run span pending).pending
          (omega (arith, length-drop count (cell ∷ wanted)))
          (length-drop count mirror
            ∙ ap (λ k. k - count) same
            ∙ sym (length-drop count (cell ∷ wanted)))
          r.pending in
      record {
        ends =
            All-append (EndsBy (n + suc (length wanted))) _ _
              (EndsBy-mono (n + count) _ _ (omega (arith, few)) r.emitted)
              (EndsBy-mono _ _ _ (omega (arith, few, length-drop count (cell ∷ wanted))) rest.ends);
        kept = λ j c. Covered-map j _ _ _ (rest.kept j) (r.kept j c);
        covers =
            covers_run n count mirror (cell ∷ wanted) _
              (λ j k. elim (scan.covers j k) [
                | inl e ↦ inl e
                | inr c ↦ inr (Covered-map (n + j) _ _ _ (rest.kept (n + j)) (r.covers (n + j) c))
              ])
              (λ i. elim (rest.covers i) [
                | inl e ↦ inl e
                | inr c ↦ inr (Covered-right (n + count + i) _ _ c)
              ]);
      }

  -- The spans of a whole row end by its end, and cover what has changed.
  pub row-Covered :
      CellTestsLaws L t
      → (mirror wanted : List L.Cell) → length mirror ≡ length wanted
      → All (EndsBy (length wanted)) (spans_from L t (length wanted) 0 mirror wanted none)
        × ((i : ℕ)
            → (get_elem? mirror i ≡ get_elem? wanted i)
              ⊎ Covered i (spans_from L t (length wanted) 0 mirror wanted none))
  row-Covered laws mirror wanted same =
      let told =
        spans_from-Repaints laws (length wanted) 0 mirror wanted none (omega arith) same tt in
      (
        EndsBy-mono _ _ _ (omega arith) told.ends,
        λ i.
            let place : 0 + i ≡ i = omega arith in
            elim (told.covers i) [ inl e ↦ inl e | inr c ↦ inr (rw (← place) c) ],
      )
