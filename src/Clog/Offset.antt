-- ===== src/Clog/Offset.antt =====
-- `clog_time_offset` of src/logger/clog.c gives the milliseconds since its first call.
use tangent.Base.{
  ℕ, ◌+◌, ◌-◌, ◌*◌, ◌/◌, ◌%◌, ◌<◌, ◌≤◌, ◌≡◌, inl, inr, Bool-cases, ltb, ltb_iff, ap, true, false,
  arith,
}
use tangent.Base.Int.{pos, negsuc, ltb_ℤ, ◌+ℤ◌, ◌-ℤ◌}
use tangent.Clog.{Timespec, to_msec, time_diff}

abbrev pub nanos : Timespec → ℕ
nanos t = t.tv_sec * 1000000000 + t.tv_nsec

minus_below : (a b : ℕ) → b ≤ a → pos a -ℤ pos b ≡ pos (a - b)
unfolding ◌-ℤ◌
minus_below a b h = ground arith

minus_above : (a b : ℕ) → a < b → pos a -ℤ pos b ≡ negsuc (b - a - 1)
unfolding ◌-ℤ◌
minus_above a b h = ground arith

plus_above : (n k : ℕ) → n < k → negsuc n +ℤ pos k ≡ pos (k - n - 1)
unfolding ◌+ℤ◌
plus_above n k h = ground arith

msec_below : (n : ℕ) → (n - n % 1000000) / 1000000 ≡ n / 1000000
msec_below n = omega arith

-- For two readings of the clock with less than a billion nanoseconds, the later one second, the
-- result is a number of whole seconds and of milliseconds below a thousand, which together make up
-- the time between the readings, rounded down to milliseconds.
pub time_diff_lem :
    (start now : Timespec)
    → start.tv_nsec < 1000000000
    → now.tv_nsec < 1000000000
    → nanos start ≤ nanos now
    → (sec : ℕ) × (msec : ℕ) × (time_diff start now ≡ (pos sec, pos msec))
      × (msec < 1000)
      × (sec * 1000 + msec ≡ (nanos now - nanos start) / 1000000)
unfolding time_diff to_msec
time_diff_lem start now hs hn later = elim (Bool-cases (ltb now.tv_nsec start.tv_nsec)) [
  | inl borrow ↦
      let lt = (ltb_iff _ _).0 borrow in
      let sec_lt : start.tv_sec < now.tv_sec = omega arith in
      let n : ℕ = start.tv_nsec - now.tv_nsec - 1 in
      let below_zero : ltb_ℤ (negsuc n) (pos 0) ≡ true = ground arith in
      (
        now.tv_sec - start.tv_sec - 1,
        (now.tv_nsec + 1000000000 - start.tv_nsec) / 1000000,
        rw
            (
              minus_above now.tv_nsec start.tv_nsec lt,
              minus_below now.tv_sec start.tv_sec (omega arith),
              minus_below (now.tv_sec - start.tv_sec) 1 (omega arith),
              plus_above n 1000000000 (omega arith),
            )
            (rw below_zero (ap (λ k. (pos (now.tv_sec - start.tv_sec - 1), pos k)) (omega arith))),
        omega arith,
        omega arith,
      )
  | inr plain ↦
      let le : start.tv_nsec ≤ now.tv_nsec = ground arith in
      let from_zero : ltb_ℤ (pos (now.tv_nsec - start.tv_nsec)) (pos 0) ≡ false = ground arith in
      (
        now.tv_sec - start.tv_sec,
        (now.tv_nsec - start.tv_nsec) / 1000000,
        rw
            (
              minus_below now.tv_nsec start.tv_nsec le,
              minus_below now.tv_sec start.tv_sec (omega arith),
            )
            (rw from_zero (ap (λ k. (pos (now.tv_sec - start.tv_sec), pos k)) (omega arith))),
        omega arith,
        omega arith,
      )
]
