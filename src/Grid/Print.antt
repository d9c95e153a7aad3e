-- ===== src/Grid/Print.antt =====
-- What src/grid.c prints of a grid after any drawing.
use tangent.Base.{
  ℕ, zero, suc, ◌+◌, ◌≤◌, ◌<◌, ◌≡◌, refl, ap, subst, ◌∙◌, Bool, Option, none, some, List, [], ◌∷◌,
  length, All, get_elem?, get_elem?-some, arith,
}
use tangent.Base.Int.{ℤ}
use tangent.Base.Bind.{◌>>=◌}
use tangent.Grid.{
  Grid, new_grid, draw_marker, draw_parametric, draw_box, draw_text, draw_centered_text, get_cell,
  print_row, print_rows, print_grid,
}
use tangent.Grid.Bounds.{
  IsGrid, new_grid-IsGrid, Drawn, drawn, bind-Drawn, draw_marker-Drawn, draw_parametric-Drawn,
  draw_box-Drawn, draw_text-Drawn, draw_centered_text-Drawn,
}

-- A call of a function that draws.
pub data Stroke : Type 0 where
  marker : ℕ → ℤ → ℤ → Stroke
  curve : ℕ → ℕ → (ℕ → ℤ × ℤ) → Stroke
  box : ℤ → ℤ → ℕ → ℕ → Stroke
  text : List ℕ → ℤ → ℤ → Bool → Stroke
  centered : List ℕ → ℤ → ℤ → Bool → Stroke

abbrev draw : Grid → Stroke → Option Grid
draw g (marker c col row) = draw_marker g c col row
draw g (curve c points at) = draw_parametric g c 0 points at
draw g (box x y width height) = draw_box g x y width height
draw g (text cs x y in_box) = draw_text g cs x y in_box
draw g (centered cs x y in_box) = draw_centered_text g cs x y in_box

abbrev pub draw_all : Grid → List Stroke → Option Grid
draw_all g [] = some g
draw_all g (s ∷ ss) = draw g s >>= (λ next. draw_all next ss)

draw-Drawn :
    (cols rows : ℕ) (g : Grid) (s : Stroke) → IsGrid cols rows g → Drawn cols rows (draw g s)
draw-Drawn cols rows g (marker c col row) w = draw_marker-Drawn cols rows g c col row w
draw-Drawn cols rows g (curve c points at) w = draw_parametric-Drawn cols rows points g c 0 at w
draw-Drawn cols rows g (box x y width height) w = draw_box-Drawn cols rows g x y width height w
draw-Drawn cols rows g (text cs x y b) w = draw_text-Drawn cols rows g cs x y b w
draw-Drawn cols rows g (centered cs x y b) w = draw_centered_text-Drawn cols rows g cs x y b w

draw_all-Drawn :
    (cols rows : ℕ) (ss : List Stroke) (g : Grid)
    → IsGrid cols rows g
    → Drawn cols rows (draw_all g ss)
draw_all-Drawn cols rows [] g w = drawn w
draw_all-Drawn cols rows (s ∷ ss) g w =
    bind-Drawn _ _ (draw-Drawn cols rows g s w) λ h v. draw_all-Drawn cols rows ss h v

Drawn-some :
    {cols rows : ℕ} (o : Option Grid)
    → Drawn cols rows o
    → (g : Grid) × (o ≡ some g) × IsGrid cols rows g
Drawn-some none d = elim d [ ]
Drawn-some (some g) (drawn w) = (g, refl, w)

All-get_elem? :
    (rows : ℕ) (cs : List (List ℕ)) (i : ℕ) (c : List ℕ)
    → All (λ c. length c ≡ rows) cs
    → get_elem? cs i ≡ some c
    → length c ≡ rows
All-get_elem? rows [] i c a e = cc
All-get_elem? rows (d ∷ cs) zero c a e =
    let same : d ≡ c = cc in subst (λ k. length k ≡ rows) same a.0
All-get_elem? rows (d ∷ cs) (suc i) c a e = All-get_elem? rows cs i c a.1 e

get_cell-some :
    (cols rows : ℕ) (g : Grid) (col row : ℕ)
    → IsGrid cols rows g
    → col < cols
    → row < rows
    → (c : ℕ) × (get_cell g col row ≡ some c)
unfolding get_cell
get_cell-some cols rows g col row w hc hr =
    let (c, e) = get_elem?-some g.cells col (omega (arith, w.full)) in
    let n = All-get_elem? rows g.cells col c w.columns e in
    let (x, f) = get_elem?-some c row (omega (arith, n)) in (x, rw (e, f))

print_row-some :
    (cols rows : ℕ) (g : Grid) (row n col : ℕ)
    → IsGrid cols rows g
    → col + n ≤ cols
    → row < rows
    → (line : List ℕ) × (print_row g row col n ≡ some line) × (length line ≡ n)
unfolding print_row
print_row-some cols rows g row zero col w h hr = ([], refl, refl)
print_row-some cols rows g row (suc n) col w h hr =
    let (c, e) = get_cell-some cols rows g col row w (omega arith) hr in
    let (cs, f, k) = print_row-some cols rows g row n (col + 1) w (omega arith) hr in
    (c ∷ cs, rw (e, f), ap suc k)

print_rows-some :
    (cols rows : ℕ) (g : Grid) (n row : ℕ)
    → IsGrid cols rows g
    → row + n ≤ rows
    → (lines : List (List ℕ)) × (print_rows g row n ≡ some lines)
      × (length lines ≡ n)
      × All (λ line. length line ≡ cols) lines
unfolding print_rows
print_rows-some cols rows g zero row w h = ([], refl, refl, tt)
print_rows-some cols rows g (suc n) row w h =
    let (line, e, k) =
      print_row-some cols rows g row g.cols 0 w (omega (arith, w.same_cols)) (omega arith) in
    let (lines, f, m, a) = print_rows-some cols rows g n (row + 1) w (omega arith) in
    (line ∷ lines, rw (e, f), ap suc m, (k ∙ w.same_cols, a))

-- Whatever is drawn into a new grid, with coordinates on it or off it, is written within the blocks
-- of its cells; printing what was drawn reads only cells of the grid, and prints as many lines as the
-- grid has rows, each with as many characters as it has columns.
pub print_grid-draw_all :
    (cols rows : ℕ) (strokes : List Stroke)
    → (g : Grid) × (lines : List (List ℕ)) × (draw_all (new_grid cols rows) strokes ≡ some g)
      × (print_grid g ≡ some lines)
      × (length lines ≡ rows)
      × All (λ line. length line ≡ cols) lines
unfolding print_grid
print_grid-draw_all cols rows strokes =
    let (g, e, w) =
      Drawn-some (draw_all (new_grid cols rows) strokes)
        (draw_all-Drawn cols rows strokes _ (new_grid-IsGrid cols rows)) in
    let (lines, f, k, a) = print_rows-some cols rows g g.rows 0 w (omega (arith, w.same_rows)) in
    (g, lines, e, f, k ∙ w.same_rows, a)
