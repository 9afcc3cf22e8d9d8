-- ===== src/Delta/State/History.antt =====
-- The history of a mirror: `push_scrollback_line` and `enforce_scrollback_capacity` of
-- src/common/grid_delta.cpp keep the newest lines, and what is dead stays small.
use Prim.Native.Nat.{max}
use native.Mathlib.Nat.{mul-div_cancel, mul-sub, mul_comm, mul-le-mul_right, add-mul}
use ckmux.Prelude.{
  ℕ, zero, suc, ◌+◌, ◌-◌, ◌*◌, ◌/◌, ◌≤◌, ◌<◌, ◌≡◌, refl, sym, ap, ◌∙◌, false, ◌&&◌, List, [], ◌∷◌,
  ◌++◌, length, take, drop, length-append, length-drop, leb, ltb, ◌==◌, ltb_false→le, ==→eq,
  lt→==_false, Bool-cases, inl, inr, arith,
}
use ckmux.Prelude.Grid.{row_end}
use ckmux.Prelude.Slices.{drop-drop, take_all, drop-append_short}
use ckmux.Proto.CellLib.{CellLib}
use ckmux.Delta.State.{
  Size, extent, StyleLib, GridState, scrollback_width, scrollback_lines, scrollback_cells,
  forget_oldest, reclaim, enforce_scrollback_capacity, padded, push_scrollback_line,
  push_scrollback_lines, relaid, resize_state, same_size, same_int,
}
use ckmux.Delta.State.Screen.{same_int→eq}
use ckmux.Prelude.Int.{ℤ}

-- What of a list is no more than its last `n` entries.
abbrev pub newest : {A : Type 0} → ℕ → List A → List A
newest n xs = drop (length xs - n) xs

pub rows_less : (a b width : ℕ) → (b - a) * width ≡ b * width - a * width
rows_less a b width = mul_comm (b - a) width ∙ mul-sub width b a ∙ omega arith

empty_list : {A : Type 0} (xs : List A) → length xs ≡ 0 → xs ≡ []
empty_list [] e = refl
empty_list (x ∷ xs) e = absurd (omega arith)

zero_rows : (width : ℕ) → 0 * width ≡ 0
zero_rows width = omega arith

small_start :
    {live start max : ℕ} → live ≤ max → (leb live start && ltb 0 start) ≡ false → start ≤ max
small_start h alive = ground (arith)

module _ (L : CellLib) (k : StyleLib L) where
  -- The buffer is whole lines of the width, of which the first ones are dead.
  pub record IsLaid (s : GridState L) (total : ℕ) : Type 0 where
    pub size : length s.scrollback ≡ total * scrollback_width L k s
    pub start : s.scrollback_start ≤ total

  pub width-pos : (s : GridState L) → 0 < scrollback_width L k s
  width-pos s = omega arith

  pub scrollback_lines-IsLaid :
      (s : GridState L) (total : ℕ)
      → IsLaid s total
      → scrollback_lines L k s ≡ total - s.scrollback_start
  unfolding scrollback_lines
  scrollback_lines-IsLaid s total h =
      let lines : length s.scrollback / scrollback_width L k s ≡ total =
        ap (λ n. n / scrollback_width L k s) h.size ∙ mul-div_cancel total (width-pos s) in
      elim (Bool-cases (ltb s.scrollback_start total)) [
        | inl some_live ↦ rw (lines, some_live) refl
        | inr none_live ↦
            rw (lines, none_live) (omega (arith, ltb_false→le s.scrollback_start total none_live))
      ]

  -- The cells that are kept are what is behind the dead ones.
  pub scrollback_cells-IsLaid :
      (s : GridState L) (total : ℕ)
      → IsLaid s total
      → scrollback_cells L k s ≡ drop (s.scrollback_start * scrollback_width L k s) s.scrollback
  unfolding scrollback_cells
  scrollback_cells-IsLaid s total h =
      let live = scrollback_lines-IsLaid s total h in
      let w = scrollback_width L k s in
      let rest : length (drop (s.scrollback_start * w) s.scrollback)
          ≡ (total - s.scrollback_start) * w =
        length-drop (s.scrollback_start * w) s.scrollback
        ∙ ap (λ n. n - s.scrollback_start * w) h.size
        ∙ sym (rows_less s.scrollback_start total w) in
      elim (Bool-cases (scrollback_lines L k s == 0)) [
        | inl nothing ↦
            let none_live : (total - s.scrollback_start) * w ≡ 0 =
              ap (λ n. n * w) (sym live ∙ ==→eq _ 0 nothing) ∙ omega arith in
            rw nothing (sym (empty_list _ (rest ∙ none_live)))
        | inr something ↦ rw something (
            ap (λ n. take (n * w) (drop (s.scrollback_start * w) s.scrollback)) live
            ∙ take_all _ _ (sym rest))
      ]

  length-scrollback_cells :
      (s : GridState L) (total : ℕ)
      → IsLaid s total
      → length (scrollback_cells L k s) ≡ (total - s.scrollback_start) * scrollback_width L k s
  length-scrollback_cells s total h =
      let w = scrollback_width L k s in
      ap length (scrollback_cells-IsLaid s total h)
      ∙ length-drop (s.scrollback_start * w) s.scrollback
      ∙ ap (λ n. n - s.scrollback_start * w) h.size
      ∙ sym (rows_less s.scrollback_start total w)

  forget_oldest-start :
      (s : GridState L)
      → forget_oldest L k s ≡ record s {
        scrollback_start = s.scrollback_start + (scrollback_lines L k s - s.max_scrollback_lines);
      }
  unfolding forget_oldest
  forget_oldest-start s = elim (Bool-cases (ltb s.max_scrollback_lines (scrollback_lines L k s))) [
    | inl over ↦ rw over refl
    | inr within ↦
        let none_over : scrollback_lines L k s - s.max_scrollback_lines ≡ 0 =
          omega (arith, ltb_false→le s.max_scrollback_lines (scrollback_lines L k s) within) in
        rw (within, none_over) (ap (λ (n : ℕ). record s { scrollback_start = n }) (omega arith))
  ]

  -- What an operation on the history leaves: whole lines, few of them dead, and some cells to read.
  pub record IsKept (s : GridState L) (cells : List L.Cell) (total : ℕ) : Type 0 where
    pub laid : IsLaid s total
    pub kept : total - s.scrollback_start ≤ s.max_scrollback_lines
    pub dead : s.scrollback_start ≤ s.max_scrollback_lines
    pub reads : scrollback_cells L k s ≡ cells

  reclaim-IsKept :
      (s : GridState L) (total : ℕ)
      → IsLaid s total
      → total - s.scrollback_start ≤ s.max_scrollback_lines
      → (n : ℕ) × IsKept
          (reclaim L k s)
          (drop (s.scrollback_start * scrollback_width L k s) s.scrollback)
          n
  unfolding reclaim
  reclaim-IsKept s total h few =
      let live = scrollback_lines-IsLaid s total h in
      let w = scrollback_width L k s in
      elim (Bool-cases
        (leb (scrollback_lines L k s) s.scrollback_start && ltb 0 s.scrollback_start)) [
          | inl dead ↦
              let whole : IsLaid
                  (record s {
                    scrollback = drop (s.scrollback_start * w) s.scrollback;
                    scrollback_start = 0;
                  })
                  (total - s.scrollback_start) =
                record {
                  size =
                      length-drop (s.scrollback_start * w) s.scrollback
                      ∙ ap (λ n. n - s.scrollback_start * w) h.size
                      ∙ sym (rows_less s.scrollback_start total w);
                  start = omega arith;
                } in
              (
                total - s.scrollback_start,
                rw dead (record {
                  laid = whole;
                  kept = omega (arith, few);
                  dead = omega arith;
                  reads =
                      scrollback_cells-IsLaid _ _ whole
                      ∙ ap (λ n. drop n (drop (s.scrollback_start * w) s.scrollback)) (zero_rows w);
                }),
              )
          | inr alive ↦ (
            total,
            rw alive (record {
              laid = h;
              kept = few;
              dead = small_start (omega (arith, live, few)) alive;
              reads = scrollback_cells-IsLaid s total h;
            }),
          )
        ]

  -- Of a buffer of whole lines, the newest that the capacity has are kept.
  pub enforce_scrollback_capacity-IsKept :
      (s : GridState L) (total : ℕ)
      → 0 < s.max_scrollback_lines
      → IsLaid s total
      → (n : ℕ) × IsKept
          (enforce_scrollback_capacity L k s)
          (newest (s.max_scrollback_lines * scrollback_width L k s) (scrollback_cells L k s))
          n
  unfolding enforce_scrollback_capacity
  enforce_scrollback_capacity-IsKept s total some_kept h =
      let w = scrollback_width L k s in
      let live = scrollback_lines-IsLaid s total h in
      let over = scrollback_lines L k s - s.max_scrollback_lines in
      let forgets : GridState L = record s { scrollback_start = s.scrollback_start + over } in
      let laid : IsLaid forgets total = record {
        size = h.size;
        start = omega (arith, live, h.start);
      } in
      let kept : total - forgets.scrollback_start ≤ s.max_scrollback_lines = omega (arith, live) in
      let reads : drop (forgets.scrollback_start * w) s.scrollback
          ≡ newest (s.max_scrollback_lines * w) (scrollback_cells L k s) =
        ap (λ n. drop n s.scrollback) (add-mul s.scrollback_start over w)
        ∙ drop-drop (s.scrollback_start * w) (over * w) s.scrollback
        ∙ ap (drop (over * w)) (sym (scrollback_cells-IsLaid s total h))
        ∙ ap (λ n. drop n (scrollback_cells L k s))
            (rows_less s.max_scrollback_lines (scrollback_lines L k s) w
              ∙ ap (λ n. n - s.max_scrollback_lines * w)
                  (sym (length-scrollback_cells s total h ∙ ap (λ n. n * w) (sym live)))) in
      rw (lt→==_false s.max_scrollback_lines 0 some_kept, forget_oldest-start s, ← reads)
        (reclaim-IsKept forgets total laid kept)

  length-padded : (width : ℕ) (line : List L.Cell) → length (padded L k width line) ≡ width
  unfolding padded
  length-padded zero line = refl
  length-padded (suc width) [] = ap suc (length-padded width [])
  length-padded (suc width) (cell ∷ line) = ap suc (length-padded width line)

  -- If a history is kept and the buffer is whole lines, then a line that is pushed is behind what was
  -- read before, padded with blanks or cut to the width, and the newest lines of the capacity are
  -- read; the buffer is whole lines again, and no more of them are live, or dead, than the capacity.
  pub push_scrollback_line-IsKept :
      (s : GridState L) (line : List L.Cell) (total : ℕ)
      → 0 < s.max_scrollback_lines
      → IsLaid s total
      → (n : ℕ) × IsKept
          (push_scrollback_line L k s line)
          (newest
            (s.max_scrollback_lines * scrollback_width L k s)
            (scrollback_cells L k s ++ padded L k (scrollback_width L k s) line))
          n
  unfolding push_scrollback_line
  push_scrollback_line-IsKept s line total some_kept h =
      let w = scrollback_width L k s in
      let behind : GridState L = record s { scrollback = s.scrollback ++ padded L k w line } in
      let laid : IsLaid behind (suc total) = record {
        size =
            length-append s.scrollback (padded L k w line)
            ∙ ap (λ n. n + length (padded L k w line)) h.size
            ∙ ap (λ n. total * w + n) (length-padded w line)
            ∙ sym (row_end total w);
        start = omega (arith, h.start);
      } in
      let reads : scrollback_cells L k behind ≡ scrollback_cells L k s ++ padded L k w line =
        scrollback_cells-IsLaid behind (suc total) laid
        ∙ drop-append_short (s.scrollback_start * w) s.scrollback (padded L k w line)
            (omega (arith, h.size, mul-le-mul_right {m = s.scrollback_start} {n = total} w h.start))
        ∙ ap (λ l. l ++ padded L k w line) (sym (scrollback_cells-IsLaid s total h)) in
      rw (lt→==_false s.max_scrollback_lines 0 some_kept, ← reads)
        (enforce_scrollback_capacity-IsKept behind (suc total) some_kept laid)

  -- Whole lines, no more of them live, and no more dead, than the capacity.
  pub record HasHistory (s : GridState L) : Type 0 where
    pub total : ℕ
    pub laid : IsLaid s total
    pub live : total - s.scrollback_start ≤ s.max_scrollback_lines
    pub dead : s.scrollback_start ≤ s.max_scrollback_lines

  IsKept-HasHistory :
      (s : GridState L) (cells : List L.Cell) (n : ℕ) → IsKept s cells n → HasHistory s
  IsKept-HasHistory s cells n h = record { total = n; laid = h.laid; live = h.kept; dead = h.dead }

  pub no_history : (s : GridState L) → s.scrollback ≡ [] → s.scrollback_start ≡ 0 → HasHistory s
  no_history s e f = record {
    total = 0;
    laid = record {
      size = ap length e ∙ sym (zero_rows (scrollback_width L k s));
      start = omega (arith, f);
    };
    live = omega arith;
    dead = omega (arith, f);
  }

  pub enforce_scrollback_capacity-HasHistory :
      (s : GridState L) (total : ℕ)
      → IsLaid s total
      → HasHistory (enforce_scrollback_capacity L k s)
  unfolding enforce_scrollback_capacity
  enforce_scrollback_capacity-HasHistory s total h =
      elim (Bool-cases (s.max_scrollback_lines == 0)) [
        | inl none_kept ↦ rw none_kept (no_history _ refl refl)
        | inr some_kept ↦
            let (n, kept) = enforce_scrollback_capacity-IsKept s total (ground arith) h in
            IsKept-HasHistory _ _ n kept
      ]

  push_scrollback_line-HasHistory :
      (s : GridState L) (line : List L.Cell)
      → HasHistory s
      → HasHistory (push_scrollback_line L k s line)
  unfolding push_scrollback_line
  push_scrollback_line-HasHistory s line h = elim (Bool-cases (s.max_scrollback_lines == 0)) [
    | inl none_kept ↦ rw none_kept h
    | inr some_kept ↦
        let (n, kept) = push_scrollback_line-IsKept s line h.total (ground arith) h.laid in
        IsKept-HasHistory _ _ n kept
  ]

  pub push_scrollback_lines-HasHistory :
      (s : GridState L) (lines : List (List L.Cell))
      → HasHistory s
      → HasHistory (push_scrollback_lines L k s lines)
  unfolding push_scrollback_lines
  push_scrollback_lines-HasHistory s [] h = h
  push_scrollback_lines-HasHistory s (line ∷ lines) h =
      push_scrollback_lines-HasHistory (push_scrollback_line L k s line) lines
        (push_scrollback_line-HasHistory s line h)

  pub resize_state-HasHistory :
      (s : GridState L) (cells : Size) → HasHistory s → HasHistory (resize_state L k s cells)
  unfolding resize_state relaid
  resize_state-HasHistory s cells h = elim (Bool-cases (same_size s.cells cells)) [
    | inl same ↦ rw same h
    | inr other ↦ elim (Bool-cases (same_int s.cells.width cells.width)) [
      | inl width ↦
          rw (other, width)
            (enforce_scrollback_capacity-HasHistory _ h.total (record {
              size =
                  h.laid.size
                  ∙ ap (λ (n : ℤ). h.total * max 1 (extent n))
                      (same_int→eq s.cells.width cells.width width);
              start = h.laid.start;
            }))
      | inr wider ↦
          rw (other, wider) (push_scrollback_lines-HasHistory _ _ (no_history _ refl refl))
    ]
  ]
