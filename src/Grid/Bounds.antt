-- ===== src/Grid/Bounds.antt =====
-- Drawing in src/grid.c stays within the blocks of the grid, whatever the coordinates.
use tangent.Base.{
  ℕ, zero, suc, ◌+◌, ◌-◌, ◌<◌, ◌≡◌, inl, inr, refl, ap, ◌∙◌, Bool, true, false, ◌&&◌, ◌||◌, Option,
  none, some, List, [], ◌∷◌, length, All, length-set, set, arith, ltb, ◌==◌, Bool-cases,
}
use tangent.Base.Int.{ℤ, pos, negsuc}
use tangent.Base.Bind.{◌>>=◌}
use tangent.Grid.{
  Grid, space, newline, repeat, new_grid, put_cell, draw_marker, draw_parametric, draw_across,
  draw_sides, draw_edge, draw_box, draw_chars, box_text, draw_text, draw_run, draw_line, draw_lines,
  draw_centered_text,
}

-- As many columns as it says, each with as many cells.
pub record IsGrid (cols rows : ℕ) (g : Grid) : Type 0 where
  pub same_cols : g.cols ≡ cols
  pub same_rows : g.rows ≡ rows
  pub full : length g.cells ≡ cols
  pub columns : All (λ c. length c ≡ rows) g.cells

length-repeat {ℓ} : {A : Type ℓ} (n : ℕ) (a : A) → length (repeat n a) ≡ n
length-repeat zero a = refl
length-repeat (suc n) a = ap suc (length-repeat n a)

All-repeat {ℓ κ} : {A : Type ℓ} (P : A → Type κ) (n : ℕ) (a : A) → P a → All P (repeat n a)
All-repeat P zero a p = tt
All-repeat P (suc n) a p = (p, All-repeat P n a p)

pub new_grid-IsGrid : (cols rows : ℕ) → IsGrid cols rows (new_grid cols rows)
unfolding new_grid
new_grid-IsGrid cols rows = record {
  same_cols = refl;
  same_rows = refl;
  full = length-repeat cols _;
  columns = All-repeat _ cols _ (length-repeat rows space);
}

-- Drawing that gave a grid of these sizes, and wrote within its blocks.
pub data Drawn (cols rows : ℕ) : Option Grid → Type 0 where
  drawn : {g : Grid} → IsGrid cols rows g → Drawn cols rows (some g)

pub bind-Drawn :
    {cols rows : ℕ} (o : Option Grid) (k : Grid → Option Grid)
    → Drawn cols rows o
    → ((g : Grid) → IsGrid cols rows g → Drawn cols rows (k g))
    → Drawn cols rows (o >>= k)
bind-Drawn none k d next = elim d [ ]
bind-Drawn (some g) k (drawn w) next = next g w

-- A cell within the blocks can be written, and the blocks keep their sizes.
put_cell-some :
    (rows : ℕ) (cs : List (List ℕ)) (col row marker : ℕ)
    → All (λ c. length c ≡ rows) cs
    → col < length cs
    → row < rows
    → (ds : List (List ℕ)) × (put_cell cs col row marker ≡ some ds)
      × (length ds ≡ length cs)
      × All (λ c. length c ≡ rows) ds
unfolding put_cell
put_cell-some rows [] col row marker a h k = absurd (omega arith)
put_cell-some rows (c ∷ cs) zero row marker a h k =
    let fits : ltb row (length c) ≡ true = ground (arith, a.0) in
    (set c row marker ∷ cs, rw (fits, put_cell), refl, (length-set c row marker ∙ a.0, a.1))
put_cell-some rows (c ∷ cs) (suc col) row marker a h k =
    let (ds, e, n, b) = put_cell-some rows cs col row marker a.1 (omega arith) k in
    (c ∷ ds, rw (e, put_cell), ap suc n, (a.0, b))

module _ (cols rows : ℕ) where
  pub draw_marker-Drawn :
      (g : Grid) (marker : ℕ) (col row : ℤ)
      → IsGrid cols rows g
      → Drawn cols rows (draw_marker g marker col row)
  unfolding draw_marker
  draw_marker-Drawn g marker (pos col) (pos row) w =
      elim (Bool-cases (ltb row g.rows && ltb col g.cols)) [
        | inl inside ↦
            let h : (row < g.rows) × (col < g.cols) = ground arith in
            let (ds, e, n, a) =
              put_cell-some rows g.cells col row marker w.columns
                (omega (arith, w.full, w.same_cols)) (omega (arith, w.same_rows)) in
            rw (inside, e, draw_marker)
              (drawn (record {
                same_cols = w.same_cols;
                same_rows = w.same_rows;
                full = n ∙ w.full;
                columns = a;
              }))
        | inr outside ↦ rw outside (drawn w)
      ]
  draw_marker-Drawn g marker (pos col) (negsuc row) w = drawn w
  draw_marker-Drawn g marker (negsuc col) row w = drawn w

  pub draw_parametric-Drawn :
      (points : ℕ) (g : Grid) (marker i : ℕ) (at : ℕ → ℤ × ℤ)
      → IsGrid cols rows g
      → Drawn cols rows (draw_parametric g marker i points at)
  unfolding draw_parametric
  draw_parametric-Drawn zero g marker i at w = drawn w
  draw_parametric-Drawn (suc n) g marker i at w =
      bind-Drawn _ _ (draw_marker-Drawn g marker _ _ w)
        λ h v. draw_parametric-Drawn n h marker (i + 1) at v

  draw_across-Drawn :
      (n : ℕ) (g : Grid) (marker : ℕ) (col row : ℤ)
      → IsGrid cols rows g
      → Drawn cols rows (draw_across g marker col row n)
  unfolding draw_across
  draw_across-Drawn zero g marker col row w = drawn w
  draw_across-Drawn (suc n) g marker col row w =
      bind-Drawn _ _ (draw_marker-Drawn g marker col row w)
        λ h v. draw_across-Drawn n h marker _ row v

  draw_sides-Drawn :
      (n : ℕ) (g : Grid) (x right row : ℤ)
      → IsGrid cols rows g
      → Drawn cols rows (draw_sides g x right row n)
  unfolding draw_sides
  draw_sides-Drawn zero g x right row w = drawn w
  draw_sides-Drawn (suc n) g x right row w = bind-Drawn _ _ (draw_marker-Drawn g _ x row w) λ h v.
      bind-Drawn _ _ (draw_marker-Drawn h _ right row v) λ h' v'. draw_sides-Drawn n h' x right _ v'

  draw_edge-Drawn :
      (g : Grid) (x row : ℤ) (width : ℕ)
      → IsGrid cols rows g
      → Drawn cols rows (draw_edge g x row width)
  unfolding draw_edge
  draw_edge-Drawn g x row width w = bind-Drawn _ _ (draw_marker-Drawn g _ x row w) λ h v.
      bind-Drawn _ _ (draw_across-Drawn (width - 2) h _ _ row v)
        λ h' v'. draw_marker-Drawn h' _ _ row v'

  pub draw_box-Drawn :
      (g : Grid) (x y : ℤ) (width height : ℕ)
      → IsGrid cols rows g
      → Drawn cols rows (draw_box g x y width height)
  unfolding draw_box
  draw_box-Drawn g x y width height w = bind-Drawn _ _ (draw_edge-Drawn g x _ width w) λ h v.
      bind-Drawn _ _ (draw_sides-Drawn (height - 2) h x _ _ v)
        λ h' v'. draw_edge-Drawn h' x _ width v'

  box_text-Drawn :
      (g : Grid) (text : List ℕ) (x y : ℤ) (in_box : Bool)
      → IsGrid cols rows g
      → Drawn cols rows (box_text g text x y in_box)
  box_text-Drawn g text x y true w = draw_box-Drawn g x y _ _ w
  box_text-Drawn g text x y false w = drawn w

  draw_chars-Drawn :
      (cs : List ℕ) (g : Grid) (left col row : ℤ)
      → IsGrid cols rows g
      → Drawn cols rows (draw_chars g cs left col row)
  unfolding draw_chars
  draw_chars-Drawn [] g left col row w = drawn w
  draw_chars-Drawn (c ∷ cs) g left col row w = elim (Bool-cases (c == newline)) [
    | inl e ↦ rw e (draw_chars-Drawn cs g left left _ w)
    | inr e ↦
        rw e (
          bind-Drawn _ _ (draw_marker-Drawn g c col row w)
            λ h v. draw_chars-Drawn cs h left _ row v)
  ]

  draw_run-Drawn :
      (cs : List ℕ) (g : Grid) (col row : ℤ)
      → IsGrid cols rows g
      → Drawn cols rows (draw_run g cs col row)
  unfolding draw_run
  draw_run-Drawn [] g col row w = drawn w
  draw_run-Drawn (c ∷ cs) g col row w =
      bind-Drawn _ _ (draw_marker-Drawn g c col row w) λ h v. draw_run-Drawn cs h _ row v

  draw_line-Drawn :
      (g : Grid) (line : List ℕ) (left row : ℤ) (text_width : ℕ) (in_box : Bool)
      → IsGrid cols rows g
      → Drawn cols rows (draw_line g line left row text_width in_box)
  unfolding draw_line
  draw_line-Drawn g line left row n true w =
      bind-Drawn _ _ (draw_across-Drawn n g space left row w) λ h v. draw_run-Drawn line h _ row v
  draw_line-Drawn g line left row n false w = draw_run-Drawn line g _ row w

  draw_lines-Drawn :
      (cs : List ℕ) (g : Grid) (line : List ℕ) (left row : ℤ) (n : ℕ) (in_box : Bool)
      → IsGrid cols rows g
      → Drawn cols rows (draw_lines g cs line left row n in_box)
  unfolding draw_lines
  draw_lines-Drawn [] g line left row n b w = drawn w
  draw_lines-Drawn (c ∷ cs) g line left row n b w =
      elim (Bool-cases (c == newline || length cs == 0)) [
        | inl e ↦ rw e (
            bind-Drawn _ _ (draw_line-Drawn g _ left row n b w)
              λ h v. draw_lines-Drawn cs h [] left _ n b v)
        | inr e ↦ rw e (draw_lines-Drawn cs g _ left row n b w)
      ]

  pub draw_text-Drawn :
      (g : Grid) (text : List ℕ) (x y : ℤ) (in_box : Bool)
      → IsGrid cols rows g
      → Drawn cols rows (draw_text g text x y in_box)
  unfolding draw_text
  draw_text-Drawn g text x y b w =
      bind-Drawn _ _ (draw_chars-Drawn text g _ _ _ w) λ h v. box_text-Drawn h text x y b v

  pub draw_centered_text-Drawn :
      (g : Grid) (text : List ℕ) (x y : ℤ) (in_box : Bool)
      → IsGrid cols rows g
      → Drawn cols rows (draw_centered_text g text x y in_box)
  unfolding draw_centered_text
  draw_centered_text-Drawn g text x y b w =
      bind-Drawn _ _ (draw_lines-Drawn text g _ _ _ _ b w) λ h v. box_text-Drawn h text x y b v
