-- ===== src/FixedPoint.antt =====
-- src/threads/arithmetic.h: 17.14 fixed-point numbers in a 32-bit `int`.
pub mod Words
use gpintosy.Prelude.{ℕ, suc, ◌+◌, ◌-◌, ◌*◌, ◌/◌, ◌%◌, ◌^◌, Bool, ltb, if◌then◌else◌}
use gpintosy.Prelude.Int.{ℤ, pos, negsuc, pos_part, neg_part, sub_ℕ, ◌+ℤ◌, ◌-ℤ◌, ◌*ℤ◌, ltb_ℤ}

-- The value of an `int` with the bits of `z`: two's complement.
unfoldable pub to_int : ℤ → ℤ
to_int z =
    let bits = (pos_part z + (2 ^ 32 - neg_part z % 2 ^ 32)) % 2 ^ 32 in
    if ltb bits (2 ^ 31) then pos bits else negsuc (2 ^ 32 - bits - 1)

-- The division of C: it rounds toward zero.
infixl 70 ◌/ℤ◌
unfoldable pub ◌/ℤ◌ : ℤ → ℤ → ℤ
pos a /ℤ pos b = pos (a / b)
negsuc a /ℤ pos b = sub_ℕ 0 (suc a / b)
pos a /ℤ negsuc b = sub_ℕ 0 (a / suc b)
negsuc a /ℤ negsuc b = pos (suc a / suc b)

-- FP_F
abbrev pub fp_f : ℤ
fp_f = pos (2 ^ 14)

unfoldable pub int_to_fp : ℤ → ℤ
int_to_fp n = to_int (n *ℤ fp_f)

unfoldable pub fp_to_int_zero : ℤ → ℤ
fp_to_int_zero x = x /ℤ fp_f

unfoldable pub fp_to_int_round : ℤ → ℤ
fp_to_int_round x =
    if ltb_ℤ x (pos 0)
    then to_int (x -ℤ fp_f /ℤ pos 2) /ℤ fp_f
    else to_int (x +ℤ fp_f /ℤ pos 2) /ℤ fp_f

unfoldable pub add_fp : ℤ → ℤ → ℤ
add_fp x y = to_int (x +ℤ y)

unfoldable pub sub_fp : ℤ → ℤ → ℤ
sub_fp x y = to_int (x -ℤ y)

unfoldable pub add_fp_int : ℤ → ℤ → ℤ
add_fp_int x n = to_int (x +ℤ to_int (n *ℤ fp_f))

unfoldable pub sub_fp_int : ℤ → ℤ → ℤ
sub_fp_int x n = to_int (x -ℤ to_int (n *ℤ fp_f))

-- The product of two `int`s fits in the 64 bits that it is taken in.
unfoldable pub mul_fp : ℤ → ℤ → ℤ
mul_fp x y = to_int ((x *ℤ y) /ℤ fp_f)

unfoldable pub mul_fp_int : ℤ → ℤ → ℤ
mul_fp_int x n = to_int (x *ℤ n)

unfoldable pub div_fp : ℤ → ℤ → ℤ
div_fp x y = to_int ((x *ℤ fp_f) /ℤ y)

unfoldable pub div_fp_int : ℤ → ℤ → ℤ
div_fp_int x n = to_int (x /ℤ n)
