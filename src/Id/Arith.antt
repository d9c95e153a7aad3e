-- ===== src/Id/Arith.antt =====
-- `id_add` and `id_subtract` of src/util.c are addition and subtraction on the circle.
use tangent.Base.{
  ℕ, suc, ◌+◌, ◌-◌, ◌*◌, ◌/◌, ◌%◌, ◌^◌, ◌≤◌, ◌<◌, ◌≡◌, refl, sym, ap, ◌∙◌, List, [], ◌∷◌, arith,
  length, All, ltb, Bool-cases, inl, inr,
}
use tangent.Id.{ChordId, IsId, add_bytes, subtract_bytes, id_add, id_subtract}
use tangent.Id.Value.{circle, value, value-lt-circle, id-ext, pow_256}

-- The byte and the carry of one step weigh as much as their sum.
split_byte : (s p : ℕ) → (s % 256) * p + (s / 256) * (256 * p) ≡ s * p
split_byte s p =
    let e : s % 256 + (s / 256) * 256 ≡ s = omega arith in omega (arith, ap (λ (t : ℕ). t * p) e)

-- A result of one of the byte loops: as many bytes as `n`, and one digit beyond them.
record IsBytes (n : ℕ) (r : List ℕ × ℕ) : Type 0 where
  pub size : length r.0 ≡ n
  pub bytes : All (λ b. b < 256) r.0
  pub extra : r.1 ≤ 1

add_bytes-IsBytes :
    (a b : List ℕ)
    → All (λ x. x < 256) a
    → All (λ x. x < 256) b
    → length a ≡ length b
    → IsBytes (length a) (add_bytes a b)
unfolding add_bytes
add_bytes-IsBytes [] b ha hb l = record { size = refl; bytes = tt; extra = omega arith }
add_bytes-IsBytes (x ∷ xs) [] ha hb l = absurd (omega arith)
add_bytes-IsBytes (x ∷ xs) (y ∷ ys) ha hb l =
    let ih : IsBytes (length xs) (add_bytes xs ys) =
      add_bytes-IsBytes xs ys ha.1 hb.1 (omega arith) in
    record {
      size = ap suc ih.size;
      bytes = (omega arith, ih.bytes);
      extra = omega (arith, ha.0, hb.0, ih.extra);
    }

-- One step of the addition, at a byte of weight `p`.
add_step :
    (x y c vr vx vy p : ℕ)
    → vr + c * p ≡ vx + vy
    → ((x + y + c) % 256) * p + vr + ((x + y + c) / 256) * (256 * p) ≡ x * p + vx + (y * p + vy)
add_step x y c vr vx vy p e = omega (arith, split_byte (x + y + c) p)

add_bytes-value :
    (a b : List ℕ)
    → All (λ x. x < 256) a
    → All (λ x. x < 256) b
    → length a ≡ length b
    → let (res, carry) = add_bytes a b in value res + carry * 256 ^ length a ≡ value a + value b
unfolding add_bytes value
add_bytes-value [] [] ha hb l = refl
add_bytes-value [] (y ∷ ys) ha hb l = absurd (omega arith)
add_bytes-value (x ∷ xs) [] ha hb l = absurd (omega arith)
add_bytes-value (x ∷ xs) (y ∷ ys) ha hb l =
    let l' : length xs ≡ length ys = omega arith in
    let sz = (add_bytes-IsBytes xs ys ha.1 hb.1 l').size in
    rw (sz, pow_256, ← l')
      (add_step x y _ _ (value xs) (value ys) (256 ^ length xs)
        (add_bytes-value xs ys ha.1 hb.1 l'))

-- `id_add` of two identifiers yields an identifier, whose value is the sum modulo 2 ^ 160.
pub value-id_add :
    (a b : ChordId)
    → IsId a
    → IsId b
    → IsId (id_add a b) × (value (id_add a b) ≡ (value a + value b) % circle)
unfolding id_add
value-id_add a b ha hb =
    let l = ha.size ∙ sym hb.size in
    let w = add_bytes-IsBytes a b ha.bytes hb.bytes l in
    let id : IsId (add_bytes a b).0 = record { size = w.size ∙ ha.size; bytes = w.bytes } in
    let e = rw ha.size at (add_bytes-value a b ha.bytes hb.bytes l) in
    let lt = value-lt-circle _ id in (id, omega (arith, w.extra))

subtract_bytes-IsBytes :
    (a b : List ℕ)
    → All (λ x. x < 256) a
    → All (λ x. x < 256) b
    → length a ≡ length b
    → IsBytes (length a) (subtract_bytes a b)
unfolding subtract_bytes
subtract_bytes-IsBytes [] b ha hb l = record { size = refl; bytes = tt; extra = omega arith }
subtract_bytes-IsBytes (x ∷ xs) [] ha hb l = absurd (omega arith)
subtract_bytes-IsBytes (x ∷ xs) (y ∷ ys) ha hb l =
    let ih : IsBytes (length xs) (subtract_bytes xs ys) =
      subtract_bytes-IsBytes xs ys ha.1 hb.1 (omega arith) in
    elim (Bool-cases (ltb x (y + (subtract_bytes xs ys).1))) [
      | inl t ↦
          rw t (record {
            size = ap suc ih.size;
            bytes = (ground arith, ih.bytes);
            extra = omega arith;
          })
      | inr t ↦
          rw t (record {
            size = ap suc ih.size;
            bytes = (ground arith, ih.bytes);
            extra = omega arith;
          })
    ]

subtract_step :
    (d x y c e vr vx vy p : ℕ)
    → d + y + c ≡ x + e * 256
    → vr + vy ≡ vx + c * p
    → d * p + vr + (y * p + vy) ≡ x * p + vx + e * (256 * p)
subtract_step d x y c e vr vx vy p h k = omega (arith, ap (λ (t : ℕ). t * p) h)

subtract_bytes-value :
    (a b : List ℕ)
    → All (λ x. x < 256) a
    → All (λ x. x < 256) b
    → length a ≡ length b
    → let (res, borrow) = subtract_bytes a b in
      value res + value b ≡ value a + borrow * 256 ^ length a
unfolding subtract_bytes value
subtract_bytes-value [] [] ha hb l = refl
subtract_bytes-value [] (y ∷ ys) ha hb l = absurd (omega arith)
subtract_bytes-value (x ∷ xs) [] ha hb l = absurd (omega arith)
subtract_bytes-value (x ∷ xs) (y ∷ ys) ha hb l =
    let l' : length xs ≡ length ys = omega arith in
    let w = subtract_bytes-IsBytes xs ys ha.1 hb.1 l' in
    let c = (subtract_bytes xs ys).1 in
    let ih = subtract_bytes-value xs ys ha.1 hb.1 l' in
    elim (Bool-cases (ltb x (y + (subtract_bytes xs ys).1))) [
      | inl t ↦
          rw (t, w.size, pow_256, ← l')
            (subtract_step _ x y c 1 _ (value xs) (value ys) (256 ^ length xs)
              (ground (arith, w.extra)) ih)
      | inr t ↦
          rw (t, w.size, pow_256, ← l')
            (subtract_step _ x y c 0 _ (value xs) (value ys) (256 ^ length xs)
              (ground (arith, w.extra)) ih)
    ]

-- `id_subtract` of two identifiers yields an identifier, whose value is the difference modulo 2
-- ^ 160.
pub value-id_subtract :
    (a b : ChordId)
    → IsId a
    → IsId b
    → IsId (id_subtract a b) × (value (id_subtract a b) ≡ (value a + circle - value b) % circle)
unfolding id_subtract
value-id_subtract a b ha hb =
    let l = ha.size ∙ sym hb.size in
    let w = subtract_bytes-IsBytes a b ha.bytes hb.bytes l in
    let id : IsId (subtract_bytes a b).0 = record { size = w.size ∙ ha.size; bytes = w.bytes } in
    let e = rw ha.size at (subtract_bytes-value a b ha.bytes hb.bytes l) in
    let lt = value-lt-circle _ id in
    let lb = value-lt-circle b hb in let la = value-lt-circle a ha in (id, omega (arith, w.extra))

-- Going from `a` by the difference to `b` arrives at `b`, byte for byte.
pub id_add-id_subtract : (a b : ChordId) → IsId a → IsId b → id_add a (id_subtract b a) ≡ b
id_add-id_subtract a b ha hb =
    let (hd, d) = value-id_subtract b a hb ha in
    let (hs, s) = value-id_add a (id_subtract b a) ha hd in
    id-ext _ b hs hb (omega (arith, value-lt-circle a ha, value-lt-circle b hb))
