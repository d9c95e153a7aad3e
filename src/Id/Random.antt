-- ===== src/Id/Random.antt =====
-- `random_from` and `id_random_between` of src/util.c: a random identifier in an arc.
use native.Mathlib.Nat.{one-le-pow}
use tangent.Base.{
  ℕ, zero, suc, ◌+◌, ◌*◌, ◌/◌, ◌%◌, ◌^◌, ◌≤◌, ◌<◌, ◌≡◌, refl, ap, ◌∙◌, List, [], ◌∷◌, map, arith,
  length, All, ◌⊎◌, inl, inr, Bool-cases, ◌==◌, ==_iff,
}
use tangent.Id.{ChordId, IsId, random_from, id_subtract, id_random_between}
use tangent.Id.Value.{value, value-lt-circle, id-ext}
use tangent.Id.Arith.{value-id_add, value-id_subtract}
use tangent.Id.Between.{offset}

-- Scaling every byte by `m / 11`, where `m ≤ 10`, makes no byte larger and a positive one smaller.
abbrev scaled : ℕ → List ℕ → List ℕ
scaled m = map (λ x. x * m / 11)

module _ (m : ℕ) (small : m ≤ 10) where
  length-scaled : (xs : List ℕ) → length (scaled m xs) ≡ length xs
  length-scaled [] = refl
  length-scaled (x ∷ xs) = ap suc (length-scaled xs)

  scale_le : (x : ℕ) → x * m / 11 ≤ x
  scale_le x = let h : x * m ≤ x * 10 = grind arith in omega arith

  scale_lt : (x : ℕ) → 0 < x → x * m / 11 < x
  scale_lt x pos = let h : x * m ≤ x * 10 = grind arith in omega arith

  All-scaled : (xs : List ℕ) → All (λ b. b < 256) xs → All (λ b. b < 256) (scaled m xs)
  All-scaled [] h = tt
  All-scaled (x ∷ xs) h = (omega (arith, scale_le x, h.0), All-scaled xs h.1)

  value-scaled-le : (xs : List ℕ) → value (scaled m xs) ≤ value xs
  unfolding value
  value-scaled-le [] = omega arith
  value-scaled-le (x ∷ xs) = rw (length-scaled xs) (grind (arith, scale_le x, value-scaled-le xs))

  scaled_head : (x u v p : ℕ) → 1 ≤ p → 0 < x → u ≤ v → x * m / 11 * p + u < x * p + v
  scaled_head x u v p hp hx h = let low : x * m / 11 < x = scale_lt x hx in grind arith

  value-scaled-lt : (xs : List ℕ) → 0 < value xs → value (scaled m xs) < value xs
  unfolding value
  value-scaled-lt [] h = h
  value-scaled-lt (zero ∷ xs) h = rw (length-scaled xs) (
      omega
        (arith, value-scaled-lt xs (omega arith), ap (λ (t : ℕ). t * 256 ^ length xs) none_left))
    where
      none_left : 0 * m / 11 ≡ 0
      none_left = omega (arith, scale_le 0)
  value-scaled-lt (suc x ∷ xs) h = rw (length-scaled xs) (
      scaled_head (suc x) (value (scaled m xs)) (value xs) (256 ^ length xs)
        (one-le-pow (length xs) 256 (omega arith)) (omega arith) (value-scaled-le xs))

  scaled-IsId : (a : ChordId) → IsId a → IsId (scaled m a)
  scaled-IsId a h = record { size = length-scaled a ∙ h.size; bytes = All-scaled a h.bytes }

-- A random identifier between `a` and `b` is `a` itself or lies on the way from `a` to `b`, whatever
-- the random number; between `a` and `a` it is `a`.
pub id_random_between-arc :
    (rnd : ℕ) (a b : ChordId)
    → IsId a
    → IsId b
    → IsId (id_random_between rnd a b)
      × ((offset a (id_random_between rnd a b) < offset a b)
          ⊎ ((a ≡ b) × (id_random_between rnd a b ≡ a)))
unfolding id_random_between random_from offset
id_random_between-arc rnd a b ha hb =
    let m = rnd % 10 + 1 in
    let small : m ≤ 10 = omega arith in
    let (hd, d) = value-id_subtract b a hb ha in
    let gap = id_subtract b a in
    let hr = scaled-IsId m small gap hd in
    let (hs, s) = value-id_add a (scaled m gap) ha hr in
    let la = value-lt-circle a ha in
    let lb = value-lt-circle b hb in
    let ld = value-lt-circle gap hd in
    let le = value-scaled-le m small gap in
    (
      hs,
      elim (Bool-cases (value gap == 0)) [
        | inr t ↦ let lt = value-scaled-lt m small gap (ground arith) in inl (omega arith)
        | inl t ↦
            let none_left : value gap ≡ 0 = (==_iff _ _).0 t in
            (inr (id-ext a b ha hb (omega arith), id-ext _ a hs ha (omega arith)))
      ],
    )
