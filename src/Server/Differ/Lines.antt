-- ===== src/Server/Differ/Lines.antt =====
-- The lines that `newest_history_lines` of src/server/diff_engine.cpp takes are rows.
use Prim.Native.Nat.{min, max}
use native.Mathlib.Nat.{mul-le-mul_right, div-mul-le_self}
use ckmux.Prelude.{
  ℕ, zero, suc, ◌-◌, ◌*◌, ◌/◌, ◌≤◌, ◌<◌, ◌≡◌, List, length, drop, length-take, length-drop, All,
  ◌==◌, Bool-cases, inl, inr, arith,
}
use ckmux.Prelude.Grid.{row_end}
use ckmux.Prelude.Int.{pos}
use ckmux.Proto.CellLib.{CellLib}
use ckmux.Delta.State.History.{rows_less}
use ckmux.Delta.State.{rows_of}
use ckmux.Delta.Diff.Pieces.{IsLine}
use ckmux.Server.Differ.{newest_history_lines}

rows_of-IsLine :
    {A : Type 0} (count width : ℕ) (cells : List A)
    → 0 < width
    → count * width ≤ length cells
    → All (IsLine width) (rows_of count width cells)
rows_of-IsLine zero width cells h few = tt
rows_of-IsLine (suc count) width cells h few =
    let split = row_end count width in
    let row = length-take width cells in
    (
      (omega (arith, split, row), omega (arith, row)),
      rows_of-IsLine count width (drop width cells) h
          (omega (arith, split, length-drop width cells)),
    )

pub newest_history_lines-IsLine :
    (L : CellLib) (history : List L.Cell) (width count : ℕ)
    → 0 < width
    → All (IsLine width) (newest_history_lines L history (pos width) count)
unfolding newest_history_lines
newest_history_lines-IsLine L history width count h =
    let same : max 1 width ≡ width = omega arith in
    let available = length history / width in
    let taken = min count available in
    let fits : available * width ≤ length history = div-mul-le_self (length history) width in
    let few : taken * width ≤ available * width = mul-le-mul_right width (omega arith) in
    elim (Bool-cases (count == 0)) [
      | inl none_pushed ↦ rw none_pushed tt
      | inr some_pushed ↦
          rw (some_pushed, same)
            (rows_of-IsLine taken width (drop ((available - taken) * width) history) h (
              omega (
                arith,
                fits,
                few,
                rows_less taken available width,
                length-drop ((available - taken) * width) history,
              )))
    ]
