-- ===== src/Id/Between.antt =====
-- `id_equals`, `is_less` and `id_is_between` of src/util.c, against distances on the circle.
use Prim.Native.Nat.{compare, Ordering}
use tangent.Base.{
  ℕ, ◌+◌, ◌-◌, ◌*◌, ◌%◌, ◌^◌, ◌≤◌, ◌<◌, ◌≡◌, ◌↔◌, refl, sym, ap, ap₂, ◌∙◌, true, List, [], ◌∷◌,
  arith, length, All, ltb, ◌==◌, not, ◌&&◌, ◌||◌, ◌⊎◌, if◌then◌else◌, inl, inr, ==_iff,
}
use tangent.Id.{ChordId, IsId, memcmp, bytes_equal, id_equals, is_less, id_is_between}
use tangent.Id.Value.{circle, value, value-lt, value-lt-circle, id-ext}

compare_scaled_lt : (x y u v p : ℕ) → x < y → u < p → compare (x * p + u) (y * p + v) ≡ Ordering.lt
compare_scaled_lt x y u v p h hu = compare_lt (x * p + u) (y * p + v) (grind arith)
  where
    compare_lt : (m n : ℕ) → m < n → compare m n ≡ Ordering.lt
    compare_lt m n l = ground arith

compare_scaled_gt : (x y u v p : ℕ) → y < x → v < p → compare (x * p + u) (y * p + v) ≡ Ordering.gt
compare_scaled_gt x y u v p h hv = compare_gt (x * p + u) (y * p + v) (grind arith)
  where
    compare_gt : (m n : ℕ) → n < m → compare m n ≡ Ordering.gt
    compare_gt m n l = ground arith

compare_add : (k m n : ℕ) → compare (k + m) (k + n) ≡ compare m n
compare_add k m n = ground arith

compare-cases :
    (m n : ℕ)
    → ((compare m n ≡ Ordering.lt) × (m < n))
      ⊎ ((compare m n ≡ Ordering.eq) × (m ≡ n))
      ⊎ ((compare m n ≡ Ordering.gt) × (n < m))
compare-cases m n = ground arith

memcmp-value :
    (a b : List ℕ)
    → All (λ x. x < 256) a
    → All (λ x. x < 256) b
    → length a ≡ length b
    → memcmp a b ≡ compare (value a) (value b)
unfolding memcmp value
memcmp-value [] [] ha hb l = refl
memcmp-value [] (y ∷ ys) ha hb l = absurd (omega arith)
memcmp-value (x ∷ xs) [] ha hb l = absurd (omega arith)
memcmp-value (x ∷ xs) (y ∷ ys) ha hb l =
    let l' : length xs ≡ length ys = omega arith in
    let lx = value-lt xs ha.1 in
    let ly = rw (← l') at (value-lt ys hb.1) in
    let ih = memcmp-value xs ys ha.1 hb.1 l' in
    elim (compare-cases x y) [
      | inl (e, h) ↦
          rw (e, memcmp, ← l')
            (sym (compare_scaled_lt x y (value xs) (value ys) (256 ^ length xs) h lx))
      | inr (inl (e, h)) ↦ rw (e, memcmp, ← l', h, compare_add) ih
      | inr (inr (e, h)) ↦
          rw (e, memcmp, ← l')
            (sym (compare_scaled_gt x y (value xs) (value ys) (256 ^ length xs) h ly))
    ]

-- `memcmp` of blocks of one length finds no difference exactly when there is none.
pub bytes_equal_iff : (a b : List ℕ) → length a ≡ length b → (bytes_equal a b ≡ true) ↔ (a ≡ b)
unfolding bytes_equal memcmp
bytes_equal_iff [] [] l = ((λ e. refl), λ e. refl)
bytes_equal_iff [] (y ∷ ys) l = absurd (omega arith)
bytes_equal_iff (x ∷ xs) [] l = absurd (omega arith)
bytes_equal_iff (x ∷ xs) (y ∷ ys) l =
    let ih = bytes_equal_iff xs ys (omega arith) in
    elim (compare-cases x y) [
      | inl (e, h) ↦
          rw (e, bytes_equal, memcmp)
            ((λ k. cc), λ k. let heads : x ≡ y = cc in absurd (omega arith))
      | inr (inl (e, h)) ↦
          rw (e, bytes_equal, memcmp)
            ((λ k. ap₂ ◌∷◌ h (ih.0 k)), λ k. let tails : xs ≡ ys = cc in ih.1 tails)
      | inr (inr (e, h)) ↦
          rw (e, bytes_equal, memcmp)
            ((λ k. cc), λ k. let heads : x ≡ y = cc in absurd (omega arith))
    ]

module _ (a b : ChordId) (ha : IsId a) (hb : IsId b) where
  compare-value : memcmp a b ≡ compare (value a) (value b)
  compare-value = memcmp-value a b ha.bytes hb.bytes (ha.size ∙ sym hb.size)

  pub is_less-value : is_less a b ≡ ltb (value a) (value b)
  unfolding is_less
  is_less-value = rw (compare-value, is_less)

  pub id_equals-value : id_equals a b ≡ (value a == value b)
  unfolding id_equals
  id_equals-value = rw (compare-value, bytes_equal)

  -- `id_equals` decides equality of identifiers.
  pub id_equals_iff : (id_equals a b ≡ true) ↔ (a ≡ b)
  id_equals_iff =
      rw id_equals-value
        ((λ e. id-ext a b ha hb ((==_iff _ _).0 e)), (λ e. (==_iff _ _).1 (ap value e)))

-- How far clockwise `x` lies from `a`; `a` itself lies a full turn away.
abbrev distance : ℕ → ℕ → ℕ
distance a x = (x + circle - a) % circle

abbrev turn : ℕ → ℕ → ℕ
turn a x = if distance a x == 0 then circle else distance a x

-- The same for identifiers, from 0 on.
unfoldable pub offset : ChordId → ChordId → ℕ
offset a x = distance (value a) (value x)

unfoldable pub rank : ChordId → ChordId → ℕ
rank a x = turn (value a) (value x)

between_value :
    (x a b : ℕ)
    → x < circle
    → a < circle
    → b < circle
    → (if a == b then not (x == a) else if ltb a b then ltb a x && ltb x b else ltb a x || ltb x b)
      ≡ ltb (turn a x) (turn a b)
between_value x a b hx ha hb = ground arith

-- For three identifiers, `id_is_between x a b` holds exactly when going clockwise from `a` one
-- meets `x` before `b`.
pub id_is_between-rank :
    (x a b : ChordId) → IsId x → IsId a → IsId b → id_is_between x a b ≡ ltb (rank a x) (rank a b)
unfolding id_is_between rank
id_is_between-rank x a b hx ha hb =
    rw
      (
        id_equals-value a b ha hb,
        id_equals-value x a hx ha,
        is_less-value a b ha hb,
        is_less-value a x ha hx,
        is_less-value x b hx hb,
      )
      (between_value (value x) (value a) (value b) (value-lt-circle x hx) (value-lt-circle a ha)
        (value-lt-circle b hb))

pub rank_bounds : (a x : ChordId) → IsId a → IsId x → (1 ≤ rank a x) × (rank a x ≤ circle)
unfolding rank
rank_bounds a x ha hx = ground (arith, value-lt-circle a ha, value-lt-circle x hx)

turn-injective : (a x y : ℕ) → a < circle → x < circle → y < circle → turn a x ≡ turn a y → x ≡ y
turn-injective a x y ha hx hy e = ground arith

-- Different identifiers lie at different distances.
pub rank-injective : (a x y : ChordId) → IsId a → IsId x → IsId y → rank a x ≡ rank a y → x ≡ y
unfolding rank
rank-injective a x y ha hx hy e = id-ext x y hx hy (
    turn-injective (value a) (value x) (value y) (value-lt-circle a ha) (value-lt-circle x hx)
      (value-lt-circle y hy) e)

turn-turn :
    (a n x : ℕ)
    → a < circle
    → n < circle
    → x < circle
    → turn a n < turn a x
    → turn n x + turn a n ≡ turn a x
turn-turn a n x ha hn hx before = ground arith

-- Steps clockwise add up: past `n`, what is left to `x` is shorter by the step to `n`.
pub rank-rank :
    (a n x : ChordId)
    → IsId a
    → IsId n
    → IsId x
    → rank a n < rank a x
    → rank n x + rank a n ≡ rank a x
unfolding rank
rank-rank a n x ha hn hx before =
    turn-turn (value a) (value n) (value x) (value-lt-circle a ha) (value-lt-circle n hn)
      (value-lt-circle x hx) before
