-- ===== src/Id/Value.antt =====
-- The number that an identifier stands for, and the circle of 2 ^ 160 numbers.
use native.Mathlib.Nat.{pow-suc}
use tangent.Base.{
  ℕ, zero, suc, ◌+◌, ◌-◌, ◌*◌, ◌^◌, ◌<◌, ◌≡◌, refl, sym, ap, ap₂, ◌∙◌, List, [], ◌∷◌, arith, length,
  get_or, set, length-set, All,
}
use tangent.Id.{ChordId, IsId, id_bits}

abbrev pub circle : ℕ
circle = 2 ^ id_bits

unfoldable pub value : List ℕ → ℕ
value [] = 0
value (b ∷ bs) = b * 256 ^ length bs + value bs

pub pow_256 : (n : ℕ) → 256 ^ suc n ≡ 256 * 256 ^ n
pow_256 n = omega (arith, pow-suc 256 n)

pub value-lt : (x : List ℕ) → All (λ b. b < 256) x → value x < 256 ^ length x
unfolding value
value-lt [] h = omega arith
value-lt (b ∷ bs) h = grind (arith, value-lt bs h.1, pow_256 (length bs))

digit_unique : (x y u v p : ℕ) → u < p → v < p → x * p + u ≡ y * p + v → x ≡ y
digit_unique x y u v p hu hv e = grind arith

-- Equal lengths and values make equal identifiers.
pub value-injective :
    (x y : List ℕ)
    → All (λ b. b < 256) x
    → All (λ b. b < 256) y
    → length x ≡ length y
    → value x ≡ value y
    → x ≡ y
unfolding value
value-injective [] [] hx hy l e = refl
value-injective [] (y ∷ ys) hx hy l e = absurd (omega arith)
value-injective (x ∷ xs) [] hx hy l e = absurd (omega arith)
value-injective (x ∷ xs) (y ∷ ys) hx hy l e =
    let lens : length xs ≡ length ys = omega arith in
    let heads : x ≡ y = head_eq lens in
    ap₂ ◌∷◌ heads (value-injective xs ys hx.1 hy.1 lens (tail_eq lens heads))
  where
    lx : value xs < 256 ^ length xs
    lx = value-lt xs hx.1

    ly : value ys < 256 ^ length ys
    ly = value-lt ys hy.1

    same : length xs ≡ length ys → x * 256 ^ length ys + value xs ≡ y * 256 ^ length ys + value ys
    same l' = rw l' at e

    head_eq : length xs ≡ length ys → x ≡ y
    head_eq l' = digit_unique x y (value xs) (value ys) (256 ^ length ys) (rw l' at lx) ly (same l')

    tail_eq : length xs ≡ length ys → x ≡ y → value xs ≡ value ys
    tail_eq l' h = omega (arith, same l', ap (λ (t : ℕ). t * 256 ^ length ys) h)

-- Writing one byte changes the value by that byte's weight.
pub value-set :
    (x : List ℕ) (i v : ℕ)
    → i < length x
    → value (set x i v) + get_or x i 0 * 256 ^ (length x - 1 - i)
      ≡ value x + v * 256 ^ (length x - 1 - i)
unfolding value
value-set [] i v h = absurd (omega arith)
value-set (x ∷ xs) zero v h = rw (weight) (omega arith)
  where
    weight : suc (length xs) - 1 - 0 ≡ length xs
    weight = omega arith
value-set (x ∷ xs) (suc i) v h =
    rw (length-set xs i v, weight) (omega (arith, value-set xs i v (omega arith)))
  where
    weight : suc (length xs) - 1 - suc i ≡ length xs - 1 - i
    weight = omega arith

pub value-lt-circle : (x : ChordId) → IsId x → value x < circle
value-lt-circle x h = rw h.size at (value-lt x h.bytes)

pub id-ext : (x y : ChordId) → IsId x → IsId y → value x ≡ value y → x ≡ y
id-ext x y hx hy e = value-injective x y hx.bytes hy.bytes (hx.size ∙ sym hy.size) e
