-- ===== src/Tests/Canvas.antt =====
-- A square is filled by two triangles (canvas/canvas.cpp).
use imrmf_map_editor.Base.{
  ℕ, ◌+◌, ◌*◌, ◌-◌, ◌≡◌, refl, if◌then◌else◌, leb, some, List, [], ◌∷◌, arith,
}
use imrmf_map_editor.Base.Int.{ℤ, pos, negsuc, pos_part, neg_part, ltb_ℤ, leb_ℤ}
use imrmf_map_editor.Building.Double.{Double}
use imrmf_map_editor.Canvas.Fill.{Point, fill_within, fill_simple_polygon}
use imrmf_map_editor.Canvas.Fill.Triangles.{IsDrawn, fill_simple_polygon-IsDrawn}
use imrmf_map_editor.Canvas.Fill.Enough.{fill_within-enough}

-- The difference of two numbers.
abbrev of_diff : ℕ → ℕ → ℤ
of_diff m n = if leb n m then pos (m - n) else negsuc (n - m - 1)

abbrev integers : Double ℤ
integers = record {
  zero = pos 0;
  half = pos 0;
  one = pos 1;
  tiny = pos 0;
  add = λ a b. of_diff (pos_part a + pos_part b) (neg_part a + neg_part b);
  sub = λ a b. of_diff (pos_part a + neg_part b) (neg_part a + pos_part b);
  mul = λ a b.
      of_diff (pos_part a * pos_part b + neg_part a * neg_part b)
        (pos_part a * neg_part b + neg_part a * pos_part b);
  div = λ a b. a;
  neg = λ a. of_diff (neg_part a) (pos_part a);
  sqrt = λ a. a;
  cos = λ a. a;
  sin = λ a. a;
  atan2 = λ a b. a;
  of_int = λ a. a;
  lt = ltb_ℤ;
  le = leb_ℤ;
}

abbrev point : ℕ → ℕ → Point ℤ
point x y = record { x = pos x; y = pos y }

abbrev square : List (Point ℤ)
square = point 0 0 ∷ point 2 0 ∷ point 2 2 ∷ point 0 2 ∷ []

square-filled :
    fill_simple_polygon integers square
    ≡ some (
        record { a = point 0 2; b = point 0 0; c = point 2 0 }
        ∷ record { a = point 2 0; b = point 2 2; c = point 0 2 }
        ∷ [])
unfolding fill_simple_polygon
square-filled = refl

fill_simple_polygon-IsDrawn_example : IsDrawn square (fill_simple_polygon integers square)
fill_simple_polygon-IsDrawn_example = fill_simple_polygon-IsDrawn integers square

fill_within-enough_example : fill_within integers 30000 square ≡ fill_simple_polygon integers square
fill_within-enough_example = fill_within-enough integers square 30000 (omega arith) (omega arith)
