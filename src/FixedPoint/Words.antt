-- ===== src/FixedPoint/Words.antt =====
-- Where the `int` arithmetic of the fixed-point numbers does not wrap.
use gpintosy.Prelude.{◌^◌, ◌≤◌, ◌<◌, ◌≡◌, arith}
use gpintosy.Prelude.Int.{ℤ, pos, negsuc, pos_part, neg_part, ◌+ℤ◌, ◌-ℤ◌, ◌*ℤ◌}
use gpintosy.FixedPoint.{to_int, ◌/ℤ◌, int_to_fp, fp_to_int_zero, fp_to_int_round}

-- The range of `int`.
abbrev pub IsInt : ℤ → Type 0
IsInt z = (pos_part z < 2 ^ 31) × (neg_part z ≤ 2 ^ 31)

pub to_int-IsInt : (z : ℤ) → IsInt (to_int z)
unfolding to_int
to_int-IsInt z = ground arith

pub to_int_of_IsInt : (z : ℤ) → IsInt z → to_int z ≡ z
unfolding to_int
to_int_of_IsInt (pos n) h = ground arith
to_int_of_IsInt (negsuc n) h = ground arith

-- An integer of 17 bits and a sign survives the conversion to fixed point and back, by truncation
-- and by rounding.
pub fp_to_int-int_to_fp :
    (n : ℤ)
    → pos_part n < 2 ^ 17
    → neg_part n < 2 ^ 17
    → (fp_to_int_zero (int_to_fp n) ≡ n) × (fp_to_int_round (int_to_fp n) ≡ n)
unfolding int_to_fp fp_to_int_zero fp_to_int_round to_int ◌*ℤ◌ ◌/ℤ◌ ◌+ℤ◌ ◌-ℤ◌
fp_to_int-int_to_fp (pos n) h i = (ground arith, ground arith)
fp_to_int-int_to_fp (negsuc n) h i = (ground arith, ground arith)
