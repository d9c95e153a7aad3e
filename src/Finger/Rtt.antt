-- ===== src/Finger/Rtt.antt =====
-- `update_rtt` of src/util.c: the round trip estimate. A `long` is an integer; the theorem bounds
-- the results by the arguments, so that nothing overflows where those are in range.
use tangent.Base.{ℕ, ◌+◌, Bool, false, ◌==◌, if◌then◌else◌, arith, Bool-cases, inl, inr}
use tangent.Base.Int.{
  ℤ, pos, negsuc, ◌+ℤ◌, ◌-ℤ◌, ◌≤ℤ◌, shr_ℤ, ltb_ℤ, pos_part, +ℤ_parts, -ℤ_parts, shr_parts,
  parts_apart,
}

is_zero : ℤ → Bool
is_zero (pos n) = n == 0
is_zero (negsuc n) = false

abs : ℤ → ℤ
abs err = if ltb_ℤ err (pos 0) then pos 0 -ℤ err else err

-- The new average and deviation.
unfoldable pub update_rtt : ℤ → ℤ → ℤ → ℤ × ℤ
unfolding is_zero abs
update_rtt rtt_avg rtt_dev new_rtt = if is_zero rtt_avg then (new_rtt, pos 0) else (
  rtt_avg +ℤ shr_ℤ (new_rtt -ℤ rtt_avg) 3,
  rtt_dev +ℤ shr_ℤ (abs (new_rtt -ℤ rtt_avg) -ℤ rtt_dev) 2,
)

abs-nonneg : (e : ℤ) → pos 0 ≤ℤ abs e
unfolding abs ◌-ℤ◌
abs-nonneg e = ground arith

-- A shifted difference moves a value towards the other, and not beyond it.
moved_bounds :
    (k : ℕ) (a n lo hi : ℤ)
    → lo ≤ℤ a
    → lo ≤ℤ n
    → a ≤ℤ hi
    → n ≤ℤ hi
    → let m = a +ℤ shr_ℤ (n -ℤ a) k in (lo ≤ℤ m) × (m ≤ℤ hi)
moved_bounds k a n lo hi la ln ha hn =
    omega (
      arith,
      shr_parts (n -ℤ a) k,
      parts_apart (n -ℤ a),
      -ℤ_parts n a,
      +ℤ_parts a (shr_ℤ (n -ℤ a) k),
    )

-- Whatever lies below and above the old average and the measurement bounds the new average, and
-- a deviation that is not negative stays so.
pub update_rtt_bounds :
    (rtt_avg rtt_dev new_rtt lo hi : ℤ)
    → lo ≤ℤ rtt_avg
    → lo ≤ℤ new_rtt
    → rtt_avg ≤ℤ hi
    → new_rtt ≤ℤ hi
    → pos 0 ≤ℤ rtt_dev
    → let (avg, dev) = update_rtt rtt_avg rtt_dev new_rtt in
      (lo ≤ℤ avg) × (avg ≤ℤ hi) × (pos 0 ≤ℤ dev)
unfolding update_rtt
update_rtt_bounds a d n lo hi la ln ha hn hd = elim (Bool-cases (is_zero a)) [
  | inl e ↦ rw e (ln, hn, omega arith)
  | inr e ↦
      let (low, high) = moved_bounds 3 a n lo hi la ln ha hn in
      let err = abs (n -ℤ a) in
      let top = pos (pos_part d + pos_part err) in
      let (dev, _) =
        moved_bounds 2 d err (pos 0) top hd (abs-nonneg (n -ℤ a)) (omega arith) (omega arith) in
      rw e (low, high, dev)
]
