-- ===== src/Proto/Tests/Plain.antt =====
-- ckVision's cells for the tests of src/common/proto.cpp: colours are the three kinds, styles and
-- cells are their members.
use ckmux.Prelude.{ℕ, Bool, true, false, List, [], ◌∷◌}
use ckmux.Prelude.Int.{ℤ, pos}
use ckmux.Proto.CellLib.{CellLib}

pub data Color : Type 0 where
  default_color : Color
  indexed : ℕ → Color
  rgb : ℕ → ℕ → ℕ → Color

pub record Style : Type 0 where
  pub fg : Color
  pub bg : Color
  pub attrs : ℕ
  pub underline : ℕ
  pub underline_color : Color

pub record Cell : Type 0 where
  pub grapheme : List ℕ
  pub width : ℤ
  pub style : Style

abbrev is_rgb : Color → Bool
is_rgb (Color.rgb r g b) = true
is_rgb _ = false

abbrev is_indexed : Color → Bool
is_indexed (Color.indexed i) = true
is_indexed _ = false

abbrev red : Color → ℕ
red (Color.rgb r g b) = r
red _ = 0

abbrev green : Color → ℕ
green (Color.rgb r g b) = g
green _ = 0

abbrev blue : Color → ℕ
blue (Color.rgb r g b) = b
blue _ = 0

abbrev index : Color → ℕ
index (Color.indexed i) = i
index _ = 0

abbrev pub plain_style : Style
plain_style = record {
  fg = Color.default_color;
  bg = Color.default_color;
  attrs = 0;
  underline = 0;
  underline_color = Color.default_color;
}

abbrev pub plain : CellLib
plain = record {
  Color = Color;
  Style = Style;
  Cell = Cell;
  is_rgb = is_rgb;
  is_indexed = is_indexed;
  red = red;
  green = green;
  blue = blue;
  index = index;
  default_color = Color.default_color;
  indexed = Color.indexed;
  rgb = Color.rgb;
  fg = λ s. s.fg;
  bg = λ s. s.bg;
  attrs = λ s. s.attrs;
  make_style = λ fg bg attrs. record plain_style { fg = fg; bg = bg; attrs = attrs };
  grapheme = λ c. c.grapheme;
  width = λ c. c.width;
  style = λ c. c.style;
  from_grapheme = λ text style. record { grapheme = text; width = pos 1; style = style };
  continuation = λ style. record { grapheme = []; width = pos 0; style = style };
  empty_cell = record { grapheme = 32 ∷ []; width = pos 1; style = plain_style };
}
