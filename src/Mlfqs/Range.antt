-- ===== src/Mlfqs/Range.antt =====
-- The ranges of the multi-level feedback queue scheduler's numbers.
use gpintosy.Prelude.{ℕ, ◌+◌, ◌*◌, ◌/◌, ◌^◌, ◌≤◌, ◌<◌, ◌≡◌, refl, true, arith}
use gpintosy.Prelude.Int.{pos, negsuc, ltb_ℤ, ◌+ℤ◌, ◌-ℤ◌, ◌*ℤ◌}
use gpintosy.FixedPoint.{
  to_int, ◌/ℤ◌, int_to_fp, fp_to_int_zero, add_fp, add_fp_int, mul_fp, mul_fp_int, div_fp,
  div_fp_int,
}
use gpintosy.Scheduler.{pri_max}
use gpintosy.Mlfqs.{priority_of, load_avg_of, recent_cpu_of}

-- The load average stays between 0 and the greatest number of threads that were ever ready, as
-- fixed-point numbers, if that is at most 65536: it does not overflow.
pub load_avg_of_bounds :
    (a ready_threads n : ℕ)
    → n ≤ 65536
    → a ≤ n * 2 ^ 14
    → ready_threads ≤ n
    → (b : ℕ) × (load_avg_of (pos a) ready_threads ≡ pos b) × (b ≤ n * 2 ^ 14)
unfolding load_avg_of add_fp mul_fp div_fp mul_fp_int int_to_fp to_int ◌*ℤ◌ ◌/ℤ◌ ◌+ℤ◌
load_avg_of_bounds a r n h i j = (a * 16110 / 2 ^ 14 + 273 * r, ground arith, omega arith)

-- A thread with a negative nice value, of at least -20, that has used at most 4 ticks of the
-- processor gets a priority above PRI_MAX.
pub priority_of-above :
    (recent_cpu n : ℕ)
    → recent_cpu ≤ 65536
    → n < 20
    → ltb_ℤ pri_max (priority_of (pos recent_cpu) (negsuc n)) ≡ true
unfolding priority_of fp_to_int_zero add_fp_int div_fp_int to_int ◌*ℤ◌ ◌/ℤ◌ ◌+ℤ◌ ◌-ℤ◌
priority_of-above r n h i = ground arith

-- A thread whose `recent_cpu` is 256 or more, with a nice value of 0 to 20, gets a priority below
-- PRI_MIN, which is 0.
priority_of-below :
    (recent_cpu n : ℕ)
    → 2 ^ 22 ≤ recent_cpu
    → recent_cpu < 2 ^ 31
    → n ≤ 20
    → ltb_ℤ (priority_of (pos recent_cpu) (pos n)) (pos 0) ≡ true
unfolding priority_of fp_to_int_zero add_fp_int div_fp_int to_int ◌*ℤ◌ ◌/ℤ◌ ◌+ℤ◌ ◌-ℤ◌
priority_of-below r n h i j = ground arith

-- What `recent_cpu` is multiplied by, as a fixed-point number, is less than 1.
decay-lt : (a : ℕ) → a * 2 * 2 ^ 14 / (a * 2 + 1 * 2 ^ 14) < 2 ^ 14
decay-lt a = grind arith

decay_mul : (c r : ℕ) → c < 2 ^ 14 → c * r / 2 ^ 14 ≤ r
decay_mul c r h = grind arith

-- Nonnegative numbers whose result fits do not wrap.
mul_fp_int-pos : (a n : ℕ) → a * n < 2 ^ 31 → mul_fp_int (pos a) (pos n) ≡ pos (a * n)
unfolding mul_fp_int to_int ◌*ℤ◌
mul_fp_int-pos a n h = ground arith

add_fp_int-pos :
    (a n : ℕ) → a + n * 2 ^ 14 < 2 ^ 31 → add_fp_int (pos a) (pos n) ≡ pos (a + n * 2 ^ 14)
unfolding add_fp_int to_int ◌*ℤ◌ ◌+ℤ◌
add_fp_int-pos a n h = ground arith

div_fp-pos : (a b : ℕ) → a * 2 ^ 14 / b < 2 ^ 31 → div_fp (pos a) (pos b) ≡ pos (a * 2 ^ 14 / b)
unfolding div_fp to_int ◌*ℤ◌ ◌/ℤ◌
div_fp-pos a b h = ground arith

mul_fp-pos : (a b : ℕ) → a * b / 2 ^ 14 < 2 ^ 31 → mul_fp (pos a) (pos b) ≡ pos (a * b / 2 ^ 14)
unfolding mul_fp to_int ◌*ℤ◌ ◌/ℤ◌
mul_fp-pos a b h = ground arith

-- The new `recent_cpu` of a thread with a nice value of 0 to 20 does not overflow, if it is below 2 ^ 30 and
-- the load average below 2 ^ 29, as fixed-point numbers; it exceeds the old one by at most the nice
-- value.
pub recent_cpu_of_bounds :
    (load_avg recent_cpu nice : ℕ)
    → load_avg < 2 ^ 29
    → recent_cpu < 2 ^ 30
    → nice ≤ 20
    → (b : ℕ) × (recent_cpu_of (pos load_avg) (pos recent_cpu) (pos nice) ≡ pos b)
      × (b ≤ recent_cpu + nice * 2 ^ 14)
unfolding recent_cpu_of
recent_cpu_of_bounds a r n h i j =
    let c = a * 2 * 2 ^ 14 / (a * 2 + 1 * 2 ^ 14) in
    let small : c < 2 ^ 14 = decay-lt a in
    let less : c * r / 2 ^ 14 ≤ r = decay_mul c r small in
    (
      c * r / 2 ^ 14 + n * 2 ^ 14,
      rw
          (
            mul_fp_int-pos a 2 (omega arith),
            add_fp_int-pos (a * 2) 1 (omega arith),
            div_fp-pos (a * 2) (a * 2 + 1 * 2 ^ 14) (omega arith),
            mul_fp-pos c r (omega arith),
            add_fp_int-pos (c * r / 2 ^ 14) n (omega arith),
          )
          refl,
      omega arith,
    )
