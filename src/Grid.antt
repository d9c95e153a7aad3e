-- ===== src/Grid.antt =====
-- src/grid.c: drawing with characters into a grid. Coordinates are integers; the curves, which are
-- computed with `long double`, are a function from the number of a point to its rounded position. A
-- text is the list of its characters, without the final NUL. `none` is a read or a write outside of
-- the blocks of `cells`.
pub mod Bounds
pub mod Print
pub mod Measure
mod Tests
use tangent.Base.{
  ℕ, zero, suc, ◌+◌, ◌-◌, ◌*◌, ◌/◌, Bool, true, false, not, ◌&&◌, ◌||◌, Option, none, some, List,
  [], ◌∷◌, ◌++◌, length, get_elem?, set, take, drop, ◌==◌, ltb, if◌then◌else◌,
}
use tangent.Base.Int.{ℤ, pos, negsuc, ◌+ℤ◌, ◌-ℤ◌}
use tangent.Base.Bind.{◌>>=◌}

-- `cells` holds the columns.
pub record Grid : Type 0 where
  pub cols : ℕ
  pub rows : ℕ
  pub cells : List (List ℕ)

abbrev pub space : ℕ
space = 32

abbrev pub newline : ℕ
newline = 10

abbrev pub repeat {ℓ} : {A : Type ℓ} → ℕ → A → List A
repeat zero a = []
repeat (suc n) a = a ∷ repeat n a

unfoldable pub new_grid : ℕ → ℕ → Grid
new_grid cols rows = record { cols = cols; rows = rows; cells = repeat cols (repeat rows space) }

-- `g->cells[col][row] = marker`.
unfoldable pub put_cell : List (List ℕ) → ℕ → ℕ → ℕ → Option (List (List ℕ))
put_cell [] col row marker = none
put_cell (c ∷ cs) zero row marker =
    if ltb row (length c) then some (set c row marker ∷ cs) else none
put_cell (c ∷ cs) (suc col) row marker = do rest ← put_cell cs col row marker; some (c ∷ rest)

-- A negative coordinate is off the grid.
unfoldable pub draw_marker : Grid → ℕ → ℤ → ℤ → Option Grid
draw_marker g marker (pos col) (pos row) =
    if ltb row g.rows && ltb col g.cols
    then put_cell g.cells col row marker >>= (λ cells. some (record g { cells = cells }))
    else some g
draw_marker g marker _ _ = some g

-- `g->rows-1 - y`.
abbrev pub from_bottom : Grid → ℤ → ℤ
from_bottom g y = pos g.rows -ℤ pos 1 -ℤ y

-- The loop of `draw_parametric` over `points` points, from point `i` on.
unfoldable pub draw_parametric : Grid → ℕ → ℕ → ℕ → (ℕ → ℤ × ℤ) → Option Grid
draw_parametric g marker i zero at = some g
draw_parametric g marker i (suc points) at = do
  drawn ← draw_marker g marker (at i).0 (from_bottom g (at i).1)
  draw_parametric drawn marker (i + 1) points at

-- `this_line`, `longest_line` and `line_num` over the rest of the text; the results are the width and
-- the height.
unfoldable pub measure_from : List ℕ → ℕ → ℕ → ℕ → ℕ × ℕ
measure_from [] this_line longest_line line_num = (longest_line, line_num)
measure_from (c ∷ cs) this_line longest_line line_num =
    if c == newline || length cs == 0
    then measure_from cs 0
        (if ltb longest_line (this_line + 1) then this_line + 1 else longest_line) (line_num + 1)
    else measure_from cs (this_line + 1) longest_line line_num

unfoldable pub measure_text : List ℕ → ℕ × ℕ
measure_text text = measure_from text 0 0 0

-- `n` markers to the right of (col, row).
unfoldable pub draw_across : Grid → ℕ → ℤ → ℤ → ℕ → Option Grid
draw_across g marker col row zero = some g
draw_across g marker col row (suc n) = do
  drawn ← draw_marker g marker col row
  draw_across drawn marker (col +ℤ pos 1) row n

-- The sides of a box, `n` rows down from (x, row).
unfoldable pub draw_sides : Grid → ℤ → ℤ → ℤ → ℕ → Option Grid
draw_sides g x right row zero = some g
draw_sides g x right row (suc n) = do
  left ← draw_marker g b'|' x row
  both ← draw_marker left b'|' right row
  draw_sides both x right (row +ℤ pos 1) n

-- The top or the bottom of a box.
unfoldable pub draw_edge : Grid → ℤ → ℤ → ℕ → Option Grid
draw_edge g x row width = do
  left ← draw_marker g b'+' x row
  line ← draw_across left b'-' (x +ℤ pos 1) row (width - 2)
  draw_marker line b'+' (x +ℤ pos width -ℤ pos 1) row

unfoldable pub draw_box : Grid → ℤ → ℤ → ℕ → ℕ → Option Grid
draw_box g x y_up width height = do
  let y = from_bottom g y_up
  top ← draw_edge g x y width
  sides ← draw_sides top x (x +ℤ pos width -ℤ pos 1) (y +ℤ pos 1) (height - 2)
  draw_edge sides x (y +ℤ pos height -ℤ pos 1) width

abbrev pub margin_of : Bool → ℕ
margin_of in_box = if in_box then 1 else 0

-- The loop of `draw_text`; `left` is `x+margin`.
unfoldable pub draw_chars : Grid → List ℕ → ℤ → ℤ → ℤ → Option Grid
draw_chars g [] left col row = some g
draw_chars g (c ∷ cs) left col row =
    if c == newline
    then draw_chars g cs left left (row +ℤ pos 1)
    else draw_marker g c col row >>= (λ drawn. draw_chars drawn cs left (col +ℤ pos 1) row)

abbrev pub box_text : Grid → List ℕ → ℤ → ℤ → Bool → Option Grid
box_text g text x y in_box =
    if in_box
    then draw_box g x y ((measure_text text).0 + 2) ((measure_text text).1 + 2)
    else some g

unfoldable pub draw_text : Grid → List ℕ → ℤ → ℤ → Bool → Option Grid
draw_text g text x y in_box = do
  let left = x +ℤ pos (margin_of in_box)
  let row = from_bottom g y +ℤ pos (margin_of in_box)
  written ← draw_chars g text left left row
  box_text written text x y in_box

-- The characters of one line, from `col` on.
unfoldable pub draw_run : Grid → List ℕ → ℤ → ℤ → Option Grid
draw_run g [] col row = some g
draw_run g (c ∷ cs) col row = do
  drawn ← draw_marker g c col row
  draw_run drawn cs (col +ℤ pos 1) row

-- `/ 2` on an `int`, which goes towards 0.
abbrev pub half : ℤ → ℤ
half (pos n) = pos (n / 2)
half (negsuc n) = pos 0 -ℤ pos ((n + 1) / 2)

-- The end of a line in `draw_centered_text`: blanks in a box, and the line in the middle.
unfoldable pub draw_line : Grid → List ℕ → ℤ → ℤ → ℕ → Bool → Option Grid
draw_line g line left row text_width in_box = do
  blank ← if in_box then draw_across g space left row text_width else some g
  draw_run blank line (left +ℤ half (pos text_width -ℤ pos (length line))) row

-- The loop of `draw_centered_text`; `line` is the line so far.
unfoldable pub draw_lines : Grid → List ℕ → List ℕ → ℤ → ℤ → ℕ → Bool → Option Grid
draw_lines g [] line left row text_width in_box = some g
draw_lines g (c ∷ cs) line left row text_width in_box =
    let whole = if length cs == 0 then line ++ (c ∷ []) else line in
    if c == newline || length cs == 0
    then draw_line g whole left row text_width in_box
      >>= (λ drawn. draw_lines drawn cs [] left (row +ℤ pos 1) text_width in_box)
    else draw_lines g cs (line ++ (c ∷ [])) left row text_width in_box

unfoldable pub draw_centered_text : Grid → List ℕ → ℤ → ℤ → Bool → Option Grid
draw_centered_text g text x y in_box = do
  let left = x +ℤ pos (margin_of in_box)
  let row = from_bottom g y +ℤ pos (margin_of in_box)
  written ← draw_lines g text [] left row (measure_text text).0 in_box
  box_text written text x y in_box

-- `g->cells[col][row]`.
unfoldable pub get_cell : Grid → ℕ → ℕ → Option ℕ
get_cell g col row = get_elem? g.cells col >>= (λ c. get_elem? c row)

-- The `n` characters of a row from column `col` on.
unfoldable pub print_row : Grid → ℕ → ℕ → ℕ → Option (List ℕ)
print_row g row col zero = some []
print_row g row col (suc n) = do
  c ← get_cell g col row
  cs ← print_row g row (col + 1) n
  some (c ∷ cs)

unfoldable pub print_rows : Grid → ℕ → ℕ → Option (List (List ℕ))
print_rows g row zero = some []
print_rows g row (suc n) = do
  line ← print_row g row 0 g.cols
  lines ← print_rows g (row + 1) n
  some (line ∷ lines)

-- The lines that are printed.
unfoldable pub print_grid : Grid → Option (List (List ℕ))
print_grid g = print_rows g 0 g.rows
