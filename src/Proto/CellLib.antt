-- ===== src/Proto/CellLib.antt =====
-- The cells, styles and colours of the ckVision library (cvision/core/cell.hpp), which is not part
-- of the repository: what src/common/proto.cpp calls of it, and what it relies on.
use ckmux.Prelude.{ℕ, Bool, List}
use ckmux.Prelude.Int.{ℤ}

pub record CellLib : Type 1 where
  pub Color : Type 0
  pub Style : Type 0
  pub Cell : Type 0
  pub is_rgb : Color → Bool
  pub is_indexed : Color → Bool
  pub red : Color → ℕ
  pub green : Color → ℕ
  pub blue : Color → ℕ
  pub index : Color → ℕ
  pub default_color : Color
  pub indexed : ℕ → Color
  pub rgb : ℕ → ℕ → ℕ → Color
  pub fg : Style → Color
  pub bg : Style → Color
  pub attrs : Style → ℕ
  -- A fresh `Style` whose three members are then assigned.
  pub make_style : Color → Color → ℕ → Style
  pub grapheme : Cell → List ℕ
  pub width : Cell → ℤ
  pub style : Cell → Style
  pub from_grapheme : List ℕ → Style → Cell
  pub continuation : Style → Cell
  -- `Cell{}`
  pub empty_cell : Cell
