-- ===== src/Proto/Tests/Comparing.antt =====
-- Comparisons of those cells, for `to_runs` of src/common/proto.cpp.
use ckmux.Prelude.{
  same_text, ℕ, ◌≡◌, refl, ap, Bool, true, false, ◌&&◌, List, [], ◌∷◌, ◌==◌, ==→eq, arith,
}
use ckmux.Prelude.Int.{ℤ, pos, negsuc}
use ckmux.Proto.Runs.{CellTests}
use ckmux.Proto.Runs.RoundTrip.{CellTestsLaws}
use ckmux.Proto.Tests.Plain.{plain, Color, Style, Cell, plain_style}

abbrev same_width : ℤ → ℤ → Bool
same_width (pos a) (pos b) = a == b
same_width (negsuc a) (negsuc b) = a == b
same_width _ _ = false

abbrev same_color : Color → Color → Bool
same_color Color.default_color Color.default_color = true
same_color (Color.indexed a) (Color.indexed b) = a == b
same_color (Color.rgb r g b) (Color.rgb r' g' b') = (r == r') && (g == g') && (b == b')
same_color _ _ = false

abbrev same_style : Style → Style → Bool
same_style a b =
    same_color a.fg b.fg
    && same_color a.bg b.bg
    && (a.attrs == b.attrs)
    && (a.underline == b.underline)
    && same_color a.underline_color b.underline_color

abbrev pub plain-tests : CellTests plain
plain-tests = record { same_text = same_text; same_width = same_width; same_style = same_style }

abbrev pub blank : Cell
blank = record { grapheme = 32 ∷ []; width = pos 1; style = plain_style }

same_text→eq : (a b : List ℕ) → same_text a b ≡ true → a ≡ b
same_text→eq [] [] e = refl
same_text→eq [] (b ∷ ys) e = cc
same_text→eq (a ∷ xs) [] e = cc
same_text→eq (a ∷ xs) (b ∷ ys) e = grind (arith, ==→eq a b, same_text→eq xs ys)

same_width→eq : (a b : ℤ) → same_width a b ≡ true → a ≡ b
same_width→eq (pos a) (pos b) e = ap pos (==→eq a b e)
same_width→eq (pos a) (negsuc b) e = cc
same_width→eq (negsuc a) (pos b) e = cc
same_width→eq (negsuc a) (negsuc b) e = ap negsuc (==→eq a b e)

same_color→eq : (a b : Color) → same_color a b ≡ true → a ≡ b
same_color→eq Color.default_color Color.default_color e = refl
same_color→eq Color.default_color (Color.indexed b) e = cc
same_color→eq Color.default_color (Color.rgb r g b) e = cc
same_color→eq (Color.indexed a) Color.default_color e = cc
same_color→eq (Color.indexed a) (Color.indexed b) e = ap Color.indexed (==→eq a b e)
same_color→eq (Color.indexed a) (Color.rgb r g b) e = cc
same_color→eq (Color.rgb r g b) Color.default_color e = cc
same_color→eq (Color.rgb r g b) (Color.indexed a) e = cc
same_color→eq (Color.rgb r g b) (Color.rgb r' g' b') e =
    grind (arith, ==→eq r r', ==→eq g g', ==→eq b b')

same_style→eq : (a b : Style) → same_style a b ≡ true → a ≡ b
same_style→eq a b e = grind (
  arith,
  same_color→eq a.fg b.fg,
  same_color→eq a.bg b.bg,
  ==→eq a.attrs b.attrs,
  ==→eq a.underline b.underline,
  same_color→eq a.underline_color b.underline_color,
)

pub plain-CellTestsLaws : CellTestsLaws plain plain-tests
plain-CellTestsLaws = record {
  same_cell = λ a b text width style. rw (
    same_text→eq a.grapheme b.grapheme text,
    same_width→eq a.width b.width width,
    same_style→eq a.style b.style style,
  );
}
