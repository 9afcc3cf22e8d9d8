-- ===== src/Proto/Cells/RoundTrip.antt =====
-- Colours, cells and runs of src/common/proto.cpp arrive as the wire carries them.
use ckmux.Prelude.{
  ℕ, suc, ◌+◌, ◌*◌, ◌^◌, ◌≤◌, ◌<◌, ◌≡◌, ◌≢◌, refl, true, false, List, [], ◌∷◌, length, arith, ◌==◌,
  inl, inr, Bool-cases, All, le→ltb_false,
}
use ckmux.Prelude.Int.{ℤ, pos, negsuc}
use ckmux.Proto.Wire.{◌>>=◌, ◌>>◌, pure, ready}
use ckmux.Proto.Reader
use ckmux.Proto.CellLib.{CellLib}
use ckmux.Proto.Cells.{
  CellRun, write_color, color_of, read_color, write_cell, cell_of, read_cell, clamp_u8, is_empty,
}
use ckmux.Proto.Cells.{write_run, read_run, write_runs, read_runs, write_lines, read_lines}
use ckmux.Proto.Cells.Fits.{FitsColor, FitsCell, FitsRun, FitsRuns, FitsLines}
use ckmux.Proto.Cells.Size.{run_size, runs_size, lines_size}
use ckmux.Proto.Carried.{
  carried_color, carried_style, carried_cell, carried_run, carried_runs, carried_lines,
}
use ckmux.Proto.Codes.{Codes, Codes-seq, Codes-last, Codes-resize}
use ckmux.Proto.Codes.Numbers.{Codes-u8, Codes-u16, Codes-u32, Codes-str, Codes-then, Codes-check}
use ckmux.Proto.Codes.Entries.{Codes-each_as, Codes-each_all_as, Codes-count}

clamp_u8-lt : (width : ℤ) → clamp_u8 width < 256
clamp_u8-lt (pos n) = omega arith
clamp_u8-lt (negsuc n) = omega arith

clamp_suc : (n : ℕ) → (clamp_u8 (pos (suc n)) == 0) ≡ false
clamp_suc n = ground arith

is_empty-false : (text : List ℕ) → text ≢ [] → is_empty text ≡ false
is_empty-false [] h = absurd (h refl)
is_empty-false (x ∷ xs) h = refl

pos→==_false : (n : ℕ) → 0 < n → (n == 0) ≡ false
pos→==_false n h = ground arith

module _ (L : CellLib) where
  color_of_rgb :
      (c : L.Color)
      → FitsColor L c
      → L.is_rgb c ≡ true
      → (rest : List ℕ)
      → color_of L (2 * 2 ^ 24 + L.red c * 2 ^ 16 + L.green c * 2 ^ 8 + L.blue c) (ready rest)
        ≡ (L.rgb (L.red c) (L.green c) (L.blue c), ready rest)
  unfolding color_of pure
  color_of_rgb c h e rest = ground arith

  color_of_indexed :
      (c : L.Color)
      → FitsColor L c
      → L.is_rgb c ≡ false
      → L.is_indexed c ≡ true
      → (rest : List ℕ)
      → color_of L (1 * 2 ^ 24 + L.index c) (ready rest) ≡ (L.indexed (L.index c), ready rest)
  unfolding color_of pure ◌>>=◌ Reader.fail_if
  color_of_indexed c h e i rest = ground arith

  color_of_default : (rest : List ℕ) → color_of L 0 (ready rest) ≡ (L.default_color, ready rest)
  unfolding color_of pure ◌>>=◌ Reader.fail_if
  color_of_default rest = refl

  pub Codes-color :
      (c : L.Color) → FitsColor L c → Codes (write_color L c) (read_color L) (carried_color L c) 4
  unfolding write_color read_color carried_color
  Codes-color c h = elim (Bool-cases (L.is_rgb c)) [
    | inl e ↦ rw e (Codes-then _ (Codes-u32 _ (omega arith)) (color_of_rgb c h e))
    | inr e ↦ rw e (elim (Bool-cases (L.is_indexed c)) [
      | inl i ↦ rw i (Codes-then _ (Codes-u32 _ (omega arith)) (color_of_indexed c h e i))
      | inr i ↦ rw i (Codes-then _ (Codes-u32 _ (omega arith)) color_of_default)
    ])
  ]

  -- What `cell` does behind the reserved field.
  reserved_lem :
      (c : L.Cell)
      → FitsCell L c
      → (rest : List ℕ)
      → (Reader.fail_if false
            >> cell_of L (L.grapheme c) (clamp_u8 (L.width c)) (
                L.make_style
                  (carried_color L (L.fg (L.style c)))
                  (carried_color L (L.bg (L.style c)))
                  (L.attrs (L.style c))))
          (ready rest)
        ≡ (carried_cell L c, ready rest)
  unfolding ◌>>=◌ Reader.fail_if cell_of carried_cell carried_style
  reserved_lem c h rest = elim h.shape [
    | inl far ↦ rw (far.width, far.text) refl
    | inr glyph ↦
        rw (glyph.width, clamp_suc glyph.columns, is_empty-false (L.grapheme c) glyph.text) refl
  ]

  pub Codes-cell :
      (c : L.Cell)
      → FitsCell L c
      → Codes (write_cell L c) (read_cell L) (carried_cell L c) (14 + length (L.grapheme c))
  unfolding write_cell read_cell
  Codes-cell c h =
      Codes-resize _
        (Codes-seq _ (Codes-str (L.grapheme c) (omega (arith, h.text))) (
          Codes-check _ _ (le→ltb_false 15 (length (L.grapheme c)) h.text) (
            Codes-seq _ (Codes-u8 _ (clamp_u8-lt (L.width c))) (
              Codes-seq _ (Codes-color _ h.fg) (
                Codes-seq _ (Codes-color _ h.bg) (
                  Codes-seq _ (Codes-u8 _ h.attrs)
                    (Codes-then _ (Codes-u16 0 (omega arith)) (reserved_lem c h))))))))
        (omega arith)

  pub Codes-run_of_cells :
      (run : CellRun L)
      → FitsRun L run
      → Codes (write_run L run) (read_run L) (carried_run L run) (run_size L run)
  unfolding write_run read_run run_size
  Codes-run_of_cells run h =
      Codes-resize _
        (Codes-seq _ (Codes-u16 run.run_length h.run_length) (
          Codes-check _ _ (pos→==_false run.run_length h.some_cells)
            (Codes-last _ (Codes-cell run.cell h.cell))))
        (omega arith)

  run_codes :
      (runs : List (CellRun L))
      → All (FitsRun L) runs
      → All (λ run. Codes (write_run L run) (read_run L) (carried_run L run) (run_size L run)) runs
  run_codes [] h = tt
  run_codes (run ∷ runs) (h, k) = (Codes-run_of_cells run h, run_codes runs k)

  run_large : (runs : List (CellRun L)) → All (λ run. 16 ≤ run_size L run) runs
  unfolding run_size
  run_large [] = tt
  run_large (run ∷ runs) = (omega arith, run_large runs)

  pub Codes-runs :
      (runs : List (CellRun L))
      → FitsRuns L runs
      → Codes (write_runs L runs) (read_runs L) (carried_runs L runs) (runs_size L runs)
  unfolding write_runs read_runs runs_size
  Codes-runs runs h =
      Codes-count _ _ _ 16 runs h.count (omega arith) (run_large runs)
        (Codes-each_as _ _ _ _ runs (run_codes runs h.each))

  runs_codes :
      (lines : List (List (CellRun L)))
      → All (FitsRuns L) lines
      → All
          (λ runs. Codes (write_runs L runs) (read_runs L) (carried_runs L runs) (runs_size L runs))
          lines
  runs_codes [] h = tt
  runs_codes (line ∷ lines) (h, k) = (Codes-runs line h, runs_codes lines k)

  runs_large : (lines : List (List (CellRun L))) → All (λ runs. 4 ≤ runs_size L runs) lines
  unfolding runs_size
  runs_large [] = tt
  runs_large (line ∷ lines) = (omega arith, runs_large lines)

  pub Codes-lines :
      (lines : List (List (CellRun L)))
      → FitsLines L lines
      → Codes (write_lines L lines) (read_lines L) (carried_lines L lines) (lines_size L lines)
  unfolding write_lines read_lines lines_size
  Codes-lines lines h =
      Codes-count _ _ _ 4 lines h.count (omega arith) (runs_large lines)
        (Codes-each_all_as _ _ _ _ lines (runs_codes lines h.each))
