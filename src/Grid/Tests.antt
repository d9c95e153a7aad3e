-- ===== src/Grid/Tests.antt =====
-- A small grid of src/grid.c.
use tangent.Base.{ℕ, ◌≡◌, refl, true, some, List, [], ◌∷◌, length, All}
use tangent.Base.Int.{pos, negsuc}
use tangent.Base.Int.{◌+ℤ◌, ◌-ℤ◌}
use tangent.Base.Bind.{◌>>=◌}
use tangent.Grid.{
  Grid, print_rows, print_row, get_cell, draw_text, draw_chars, draw_box, draw_edge, draw_across,
  draw_sides, draw_marker, put_cell, measure_from, new_grid, print_grid, measure_text,
}
use tangent.Grid.Measure.{lines_of, longest, measure_text_lem}
use tangent.Grid.Print.{Stroke, marker, text, draw_all, print_grid-draw_all}

-- A box with the text "hi", and a marker off the grid.
abbrev strokes : List Stroke
strokes = text (b'h' ∷ b'i' ∷ []) (pos 0) (pos 2) true ∷ marker b'*' (pos 9) (negsuc 0) ∷ []

print_grid-draw_all_example :
    (g : Grid) × (lines : List (List ℕ)) × (draw_all (new_grid 4 3) strokes ≡ some g)
    × (print_grid g ≡ some lines)
    × (length lines ≡ 3)
    × All (λ line. length line ≡ 4) lines
print_grid-draw_all_example = print_grid-draw_all 4 3 strokes

abbrev two_lines : List ℕ
two_lines = b'a' ∷ b'b' ∷ 10 ∷ b'c' ∷ []

-- The newline counts into the width.
width : measure_text two_lines ≡ (3, 2)
unfolding measure_text measure_from
width = refl

printed :
    (draw_all (new_grid 4 3) strokes >>= print_grid)
    ≡ some (
        (b'+' ∷ b'-' ∷ b'-' ∷ b'+' ∷ [])
        ∷ (b'|' ∷ b'h' ∷ b'i' ∷ b'|' ∷ [])
        ∷ (b'+' ∷ b'-' ∷ b'-' ∷ b'+' ∷ [])
        ∷ [])
unfolding print_grid print_rows print_row get_cell new_grid draw_text draw_chars draw_box draw_edge
    draw_across draw_sides draw_marker put_cell measure_text measure_from ◌-ℤ◌ ◌+ℤ◌
printed = refl

measure_text_lem_example :
    measure_text two_lines ≡ (longest (lines_of two_lines), length (lines_of two_lines))
measure_text_lem_example = measure_text_lem two_lines
