-- ===== src/Clog/Color.antt =====
-- src/logger/color.c, and the colours of src/logger/file.c: the escape sequences around a leader. A
-- sequence is its number. `none` is a read outside a table.
use Prim.Native.Nat.{bit_or}
use tangent.Base.{
  ℕ, zero, suc, ◌+◌, ◌/◌, ◌%◌, ◌^◌, ◌≡◌, refl, Bool, not, Option, some, List, [], ◌∷◌, ◌++◌,
  get_elem?, get_or, ◌==◌, if◌then◌else◌,
}
use tangent.Base.Int.{ℤ, pos, negsuc}
use tangent.Base.Bind.{◌>>=◌}

abbrev attr_bold : ℕ
attr_bold = 2

-- FG_COLORS, BG_COLORS, FG_HI_COLORS and BG_HI_COLORS.
abbrev fg_colors : List ℕ
fg_colors = 30 ∷ 31 ∷ 32 ∷ 33 ∷ 34 ∷ 35 ∷ 36 ∷ 37 ∷ []

abbrev bg_colors : List ℕ
bg_colors = 40 ∷ 41 ∷ 42 ∷ 43 ∷ 44 ∷ 45 ∷ 46 ∷ 47 ∷ []

abbrev fg_hi_colors : List ℕ
fg_hi_colors = 90 ∷ 91 ∷ 92 ∷ 93 ∷ 94 ∷ 95 ∷ 96 ∷ 97 ∷ []

abbrev bg_hi_colors : List ℕ
bg_hi_colors = 100 ∷ 101 ∷ 102 ∷ 103 ∷ 104 ∷ 105 ∷ 106 ∷ 107 ∷ []

-- The attribute of bit `i`, from ATTR_OFF to ATTR_CONCEALED.
unfoldable pub get_attr_code : ℕ → ℕ
get_attr_code i = get_or (0 ∷ 1 ∷ 4 ∷ 5 ∷ 7 ∷ 8 ∷ []) i 0

-- The loop over `left` bits from bit `i` on.
unfoldable pub attr_codes : ℕ → ℕ → ℕ → List ℕ
attr_codes attr zero i = []
attr_codes attr (suc left) i =
    let rest = attr_codes attr left (i + 1) in
    if attr / 2 ^ i % 2 == 0 then rest else get_attr_code i ∷ rest

-- The sequence for one of the grounds, whose default is 0.
unfoldable pub ground_code : List ℕ → List ℕ → Bool → ℕ → Option (List ℕ)
ground_code colors hi_colors intense zero = some []
ground_code colors hi_colors intense (suc index) =
    get_elem? (if intense then hi_colors else colors) index >>= (λ code. some (code ∷ []))

-- For the 32 bits of an `int`.
unfoldable pub start_color : ℕ → Option (List ℕ)
start_color color = do
  fg ← ground_code fg_colors fg_hi_colors (not (color / 2 ^ 24 % 2 == 0)) (color / 2 ^ 8 % 256)
  bg ← ground_code bg_colors bg_hi_colors (not (color / 2 ^ 25 % 2 == 0)) (color / 2 ^ 16 % 256)
  some (attr_codes (color % 256) 6 0 ++ fg ++ bg)

unfoldable pub default_color : List ℕ
default_color = 0 ∷ []

-- The codes before a text and behind it.
unfoldable pub cvfprintf : Bool → ℕ → Option (List ℕ × List ℕ)
cvfprintf tty color =
    if tty then start_color color >>= (λ codes. some (codes, default_color)) else some ([], [])

-- The colours of the levels from TRACE to FATAL.
unfoldable pub level_color : ℤ → ℕ
level_color (pos level) =
    get_or
      (bit_or 1536 16777216
        ∷ bit_or 1792 16777216
        ∷ bit_or 768 16777216
        ∷ bit_or 1024 16777216
        ∷ bit_or 512 16777216
        ∷ bit_or 2048 131072
        ∷ [])
      level 0
level_color (negsuc level) = 0

-- The colours of `start_file_msg`, before the leader and behind it.
unfoldable pub leader_colors : ℤ → Option (List ℕ × List ℕ)
leader_colors level = do
  before ← start_color (bit_or (level_color level) attr_bold)
  behind ← start_color (level_color level)
  some (before, default_color ++ behind)

-- The colours of a leader are in the tables, whatever the level.
pub leader_colors-some :
    (level : ℤ) → (codes : List ℕ × List ℕ) × (leader_colors level ≡ some codes)
unfolding leader_colors start_color ground_code level_color attr_codes get_attr_code default_color
leader_colors-some (negsuc level) = (_, refl)
leader_colors-some (pos zero) = (_, refl)
leader_colors-some (pos (suc zero)) = (_, refl)
leader_colors-some (pos (suc (suc zero))) = (_, refl)
leader_colors-some (pos (suc (suc (suc zero)))) = (_, refl)
leader_colors-some (pos (suc (suc (suc (suc zero))))) = (_, refl)
leader_colors-some (pos (suc (suc (suc (suc (suc zero)))))) = (_, refl)
leader_colors-some (pos (suc (suc (suc (suc (suc (suc level))))))) = (_, refl)
