-- ===== src/Hash/Words.antt =====
-- The number of buckets: the masks pick a bucket that exists.
use Prim.Native.Nat.{bit_and, bit_and-bitwise, digits, min}
use gpintosy.Prelude.{
  ℕ, zero, suc, ◌-◌, ◌/◌, ◌≤◌, ◌<◌, ◌≡◌, ◌≢◌, true, false, arith, ltb, if◌then◌else◌, Bool-cases,
  inl, inr,
}
use gpintosy.Hash.{turn_off_least_1bit, is_power_of_2, round_to_power, best_bucket_cnt}

digits-le : (n a b : ℕ) → digits (λ b. zero) min n a b ≤ b
digits-le zero a b = omega arith
digits-le (suc n) zero b = omega arith
digits-le (suc n) (suc a) b = omega (arith, digits-le n (suc a / 2) (b / 2))

pub bit_and-le : (a b : ℕ) → bit_and a b ≤ b
bit_and-le a b = omega (arith, bit_and-bitwise a b, digits-le a a b)

off_some : (x : ℕ) → x ≢ 0 → is_power_of_2 x ≡ false → turn_off_least_1bit x ≢ 0
unfolding is_power_of_2
off_some x h e = ground arith

off-lt : (x : ℕ) → x ≢ 0 → turn_off_least_1bit x < x
unfolding turn_off_least_1bit
off-lt x h = omega (arith, bit_and-le x (x - 1))

power_some : (x : ℕ) → is_power_of_2 x ≡ true → x ≢ 0
unfolding is_power_of_2
power_some x e = ground arith

-- With enough fuel the loop of `rehash` ends at a power of 2 that is no greater.
pub round_to_power_lem :
    (n x : ℕ)
    → x ≢ 0
    → x ≤ n
    → (is_power_of_2 (round_to_power n x) ≡ true) × (round_to_power n x ≤ x)
unfolding round_to_power
round_to_power_lem zero x h k = absurd (omega arith)
round_to_power_lem (suc n) x h k = elim (Bool-cases (is_power_of_2 x)) [
  | inl e ↦ rw e (e, omega arith)
  | inr e ↦
      let rest =
        round_to_power_lem n (turn_off_least_1bit x) (off_some x h e) (omega (arith, off-lt x h)) in
      rw e (rest.0, omega (arith, rest.1, off-lt x h))
]

-- A table of any number of elements gets a power of 2 of buckets.
pub best_bucket_cnt_lem :
    (n : ℕ) → (is_power_of_2 (best_bucket_cnt n) ≡ true) × (best_bucket_cnt n ≢ 0)
unfolding best_bucket_cnt
best_bucket_cnt_lem n =
    let cnt = if ltb (n / 2) 4 then 4 else n / 2 in
    let r = round_to_power_lem cnt cnt (ground arith) (omega arith) in (r.0, power_some _ r.0)
