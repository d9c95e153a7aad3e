-- ===== src/Id/Step.antt =====
-- `chord_id_successor` and `chord_id_predecessor` of src/util.c: id + (1 << n) and id - (1 << n).
use native.Mathlib.Numerals.{towards_suc}
use tangent.Base.{
  ℕ, zero, suc, ◌+◌, ◌-◌, ◌*◌, ◌/◌, ◌%◌, ◌^◌, ◌≤◌, ◌<◌, ◌≡◌, sym, ap, ◌∙◌, arith, length, ltb, ◌==◌,
  get_or, set, length-set, All-set, All-get_or, Bool-cases, inl, inr,
}
use tangent.Id.{
  ChordId, IsId, id_bytes, id_bits, carry_up, borrow_up, chord_id_successor, chord_id_predecessor,
}
use tangent.Id.Value.{circle, value, value-set, value-lt-circle, id-ext, pow_256}

set-IsId : (x : ChordId) (i v : ℕ) → IsId x → v < 256 → IsId (set x i v)
set-IsId x i v h hv = record {
  size = length-set x i v ∙ h.size;
  bytes = All-set _ x i v h.bytes hv;
}

carry_up-IsId : (k : ℕ) (x : ChordId) → IsId x → IsId (carry_up k x)
unfolding carry_up
carry_up-IsId zero x h = h
carry_up-IsId (suc k) x h =
    let h' = set-IsId x k ((get_or x k 0 + 1) % 256) h (omega arith) in
    elim (Bool-cases ((get_or x k 0 + 1) % 256 == 0)) [
      | inl e ↦ rw e (carry_up-IsId k _ h')
      | inr e ↦ rw e h'
    ]

-- `value-set` at the byte of weight 256 ^ w.
weigh :
    (x : ChordId) (k w b : ℕ)
    → IsId x
    → suc k + w ≡ 20
    → value (set x k b) + get_or x k 0 * 256 ^ w ≡ value x + b * 256 ^ w
weigh x k w b h e =
    let e' : length x - 1 - k ≡ w = omega (arith, h.size) in
    rw e' at (value-set x k b (omega (arith, h.size)))

-- A byte `g` that became `b`, when `s` was added to it and 256 was taken off, or nothing was.
carry_arith :
    (g b s v' v w : ℕ)
    → g + s ≡ b + 256
    → v' + g * 256 ^ w ≡ v + b * 256 ^ w
    → v' + 256 ^ suc w ≡ v + s * 256 ^ w
carry_arith g b s v' v w z put = omega (arith, pow_256 w, ap (λ (t : ℕ). t * 256 ^ w) z)

stay_arith : (g b s v' v p : ℕ) → b ≡ g + s → v' + g * p ≡ v + b * p → v' + 0 * circle ≡ v + s * p
stay_arith g b s v' v p z put = omega (arith, ap (λ (t : ℕ). t * p) z)

-- Adding one at weight 256 ^ w, as the loop does with 20 - w rounds left: `c` is what leaves the circle.
carry_up-value :
    (k w : ℕ) (x : ChordId)
    → IsId x
    → k + w ≡ 20
    → (c : ℕ) × (value (carry_up k x) + c * circle ≡ value x + 256 ^ w)
unfolding carry_up
carry_up-value zero w x h e = let e' : w ≡ 20 = omega arith in (1, rw e' (omega arith))
carry_up-value (suc k) w x h e =
    let g = get_or x k 0 in
    let b = (g + 1) % 256 in
    let h' = set-IsId x k b h (omega arith) in
    let (c, ih) = carry_up-value k (suc w) (set x k b) h' (omega arith) in
    let put = weigh x k w b h e in
    let low = All-get_or (λ t. t < 256) x k 0 h.bytes (omega arith) in
    elim (Bool-cases (b == 0)) [
      | inl t ↦ (
        c,
        rw t (
            omega
              (arith, ih, carry_arith g b 1 (value (set x k b)) (value x) w (ground arith) put)),
      )
      | inr t ↦ (
        0,
        rw t (
            omega
              (arith, stay_arith g b 1 (value (set x k b)) (value x) (256 ^ w) (ground arith) put)),
      )
    ]

two-pow-add_eight : (n : ℕ) → 2 ^ (n + 8) ≡ 256 * 2 ^ n
two-pow-add_eight n = simp towards_suc (omega arith)

two-pow-split : (q r : ℕ) → 2 ^ (r + 8 * q) ≡ 2 ^ r * 256 ^ q
two-pow-split zero r = let e : r + 8 * 0 ≡ r = omega arith in rw e (omega arith)
two-pow-split (suc q) r =
    let e : r + 8 * suc q ≡ r + 8 * q + 8 = omega arith in
    rw (e, two-pow-add_eight, pow_256) (omega (arith, ap (λ (t : ℕ). 256 * t) (two-pow-split q r)))

-- 1 << n weighs 1 << (n % 8) at the byte that the code starts from.
two-pow-byte : (n : ℕ) → 2 ^ n ≡ 2 ^ (n % 8) * 256 ^ (n / 8)
two-pow-byte n =
    let e : n % 8 + 8 * (n / 8) ≡ n = omega arith in rw e at (two-pow-split (n / 8) (n % 8))

two-pow-small : (r : ℕ) → r < 8 → (1 ≤ 2 ^ r) × (2 ^ r ≤ 128)
two-pow-small zero h = omega arith
two-pow-small (suc zero) h = omega arith
two-pow-small (suc (suc zero)) h = omega arith
two-pow-small (suc (suc (suc zero))) h = omega arith
two-pow-small (suc (suc (suc (suc zero)))) h = omega arith
two-pow-small (suc (suc (suc (suc (suc zero))))) h = omega arith
two-pow-small (suc (suc (suc (suc (suc (suc zero)))))) h = omega arith
two-pow-small (suc (suc (suc (suc (suc (suc (suc zero))))))) h = omega arith
two-pow-small (suc (suc (suc (suc (suc (suc (suc (suc r)))))))) h = absurd (omega arith)

-- Reduction modulo the circle, from a value and what left the circle.
mod_circle : (v c t : ℕ) → v < circle → v + c * circle ≡ t → v ≡ t % circle
mod_circle v c t h e = omega arith

-- Taking one off at weight 256 ^ w: `c` circles are borrowed.
borrow_up-IsId : (k : ℕ) (x : ChordId) → IsId x → IsId (borrow_up k x)
unfolding borrow_up
borrow_up-IsId zero x h = h
borrow_up-IsId (suc k) x h =
    let h' = set-IsId x k ((get_or x k 0 + 256 - 1) % 256) h (omega arith) in
    elim (Bool-cases (get_or x k 0 == 0)) [ inl e ↦ rw e (borrow_up-IsId k _ h') | inr e ↦ rw e h' ]

borrow_up-value :
    (k w : ℕ) (x : ChordId)
    → IsId x
    → k + w ≡ 20
    → (c : ℕ) × (value (borrow_up k x) + 256 ^ w ≡ value x + c * circle)
unfolding borrow_up
borrow_up-value zero w x h e = let e' : w ≡ 20 = omega arith in (1, rw e' (omega arith))
borrow_up-value (suc k) w x h e =
    let g = get_or x k 0 in
    let b = (g + 256 - 1) % 256 in
    let h' = set-IsId x k b h (omega arith) in
    let (c, ih) = borrow_up-value k (suc w) (set x k b) h' (omega arith) in
    let put = weigh x k w b h e in
    let low = All-get_or (λ t. t < 256) x k 0 h.bytes (omega arith) in
    elim (Bool-cases (g == 0)) [
      | inl t ↦ (
        c,
        rw t (
            omega (
              arith,
              ih,
              carry_arith b g 1 (value x) (value (set x k b)) w (ground arith) (sym put),
            )),
      )
      | inr t ↦ (
        0,
        rw t (
            omega (
              arith,
              stay_arith b g 1 (value x) (value (set x k b)) (256 ^ w) (ground arith) (sym put),
            )),
      )
    ]

module _ (x : ChordId) (n : ℕ) (hx : IsId x) (hn : n < id_bits) where
  successor_value :
      let r = chord_id_successor x n in
      IsId r × ((c : ℕ) × (value r + c * circle ≡ value x + 2 ^ n))
  unfolding chord_id_successor
  successor_value =
      let st = id_bytes - 1 - n / 8 in
      let old = get_or x st 0 in
      let s = 2 ^ (n % 8) in
      let new = (old + s) % 256 in
      let x' = set x st new in
      let h' = set-IsId x st new hx (omega arith) in
      let low = All-get_or (λ t. t < 256) x st 0 hx.bytes (omega arith) in
      let put = weigh x st (n / 8) new hx (omega arith) in
      let small = two-pow-small (n % 8) (omega arith) in
      elim (Bool-cases (ltb new old)) [
        | inl t ↦
            let (c, up) = carry_up-value st (suc (n / 8)) x' h' (omega arith) in
            let wrap = carry_arith old new s (value x') (value x) (n / 8) (ground arith) put in
            rw t (carry_up-IsId st _ h', (c, up ∙ wrap ∙ rw (two-pow-byte n)))
        | inr t ↦
            let stay =
              stay_arith old new s (value x') (value x) (256 ^ (n / 8)) (ground arith) put in
            rw t (h', (0, stay ∙ rw (two-pow-byte n)))
      ]

  -- For an identifier `x` and `n` below 160, `chord_id_successor x n` is an identifier, and
  -- stands for x + 2 ^ n on the circle.
  pub value-chord_id_successor :
      IsId (chord_id_successor x n) × (value (chord_id_successor x n) ≡ (value x + 2 ^ n) % circle)
  value-chord_id_successor =
      let (h, (c, e)) = successor_value in
      (h, mod_circle _ c (value x + 2 ^ n) (value-lt-circle _ h) e)

  predecessor_value :
      let r = chord_id_predecessor x n in
      IsId r × ((c : ℕ) × (value r + 2 ^ n ≡ value x + c * circle))
  unfolding chord_id_predecessor
  predecessor_value =
      let st = id_bytes - 1 - n / 8 in
      let old = get_or x st 0 in
      let s = 2 ^ (n % 8) in
      let new = (old + 256 - s) % 256 in
      let x' = set x st new in
      let h' = set-IsId x st new hx (omega arith) in
      let low = All-get_or (λ t. t < 256) x st 0 hx.bytes (omega arith) in
      let put = weigh x st (n / 8) new hx (omega arith) in
      let small = two-pow-small (n % 8) (omega arith) in
      elim (Bool-cases (ltb old new)) [
        | inl t ↦
            let (c, up) = borrow_up-value st (suc (n / 8)) x' h' (omega arith) in
            let wrap =
              carry_arith new old s (value x) (value x') (n / 8) (ground arith) (sym put) in
            rw t (borrow_up-IsId st _ h', (c, omega (arith, up, wrap, two-pow-byte n)))
        | inr t ↦
            let stay =
              stay_arith new old s (value x) (value x') (256 ^ (n / 8)) (ground arith) (sym put) in
            rw t (h', (0, omega (arith, stay, two-pow-byte n)))
      ]

  -- For an identifier `x` and `n` below 160, `chord_id_predecessor x n` is an identifier, and
  -- adding 2 ^ n to it on the circle gives x back.
  pub value-chord_id_predecessor :
      IsId (chord_id_predecessor x n)
      × ((value (chord_id_predecessor x n) + 2 ^ n) % circle ≡ value x)
  value-chord_id_predecessor =
      let (h, (c, e)) = predecessor_value in
      (h, sym (mod_circle _ c _ (value-lt-circle x hx) (sym e)))

-- The two functions undo each other, at every identifier and every power below 160.
pub chord_id_successor-predecessor :
    (x : ChordId) (n : ℕ)
    → IsId x
    → n < id_bits
    → (chord_id_successor (chord_id_predecessor x n) n ≡ x)
      × (chord_id_predecessor (chord_id_successor x n) n ≡ x)
chord_id_successor-predecessor x n hx hn =
    let (hp, p) = value-chord_id_predecessor x n hx hn in
    let (hs, s) = value-chord_id_successor x n hx hn in
    let (hsp, sp) = value-chord_id_successor (chord_id_predecessor x n) n hp hn in
    let (hps, ps) = value-chord_id_predecessor (chord_id_successor x n) n hs hn in
    let lx = value-lt-circle x hx in
    let lps = value-lt-circle _ hps in (id-ext _ x hsp hx (sp ∙ p), id-ext _ x hps hx (omega arith))
