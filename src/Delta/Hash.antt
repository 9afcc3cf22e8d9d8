-- ===== src/Delta/Hash.antt =====
-- `row_hash` of src/common/grid_delta.cpp: FNV-1a over what a row draws.
use Prim.Native.Nat.{bit_xor}
use ckmux.Prelude.{ℕ, ◌*◌, ◌%◌, ◌^◌, List, [], ◌∷◌, if◌then◌else◌}
use ckmux.Prelude.Int.{to_word}
use ckmux.Proto.CellLib.{CellLib}
use ckmux.Delta.State.{StyleLib}

unfoldable pub mix : ℕ → ℕ → ℕ
mix hash byte = bit_xor hash byte * 0x100000001b3 % 2 ^ 64

unfoldable pub mix_bytes : ℕ → List ℕ → ℕ
mix_bytes hash [] = hash
mix_bytes hash (byte ∷ bytes) = mix_bytes (mix hash byte) bytes

module _ (L : CellLib) (k : StyleLib L) where
  unfoldable pub mix_color : ℕ → L.Color → ℕ
  mix_color hash color =
      if L.is_rgb color
      then mix_bytes hash (2 ∷ L.red color ∷ L.green color ∷ L.blue color ∷ [])
      else if L.is_indexed color
      then mix_bytes hash (1 ∷ L.index color ∷ [])
      else mix hash 0

  unfoldable pub mix_cell : ℕ → L.Cell → ℕ
  mix_cell hash cell =
      let style = L.style cell in
      let text = mix (mix_bytes hash (L.grapheme cell)) 0xff in
      let width = mix text (to_word (2 ^ 7) (L.width cell)) in
      let fg = mix_color width (L.fg style) in
      let bg = mix_color fg (L.bg style) in
      mix_color (mix (mix bg (L.attrs style % 256)) (k.underline style % 256))
        (k.underline_color style)

  unfoldable pub row_hash_from : ℕ → List L.Cell → ℕ
  row_hash_from hash [] = hash
  row_hash_from hash (cell ∷ row) = row_hash_from (mix_cell hash cell) row

  unfoldable pub row_hash : List L.Cell → ℕ
  row_hash row = row_hash_from 0xcbf29ce484222325 row
