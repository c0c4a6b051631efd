-- ===== src/Bitmap/Bits.antt =====
-- The operations on one bit of a bitmap, as operations on an array of bits.
use gpintosy.Prelude.{
  ℕ, zero, suc, ◌/◌, ◌%◌, ◌<◌, ◌≡◌, Bool, true, false, not, ◌&&◌, arith, ltb, ◌==◌, if◌then◌else◌,
}
use gpintosy.Kernel.{ok}
use gpintosy.Bitmap.{Word, Bitmap, any_bit, bitmap_mark, bitmap_reset, bitmap_flip, bitmap_test}

-- The array of bits that a bitmap stands for.
abbrev pub bit : Bitmap → ℕ → Bool
bit b i = b.bits (i / 32) (i % 32)

any_bit-mask : (n m : ℕ) (w : Word) → any_bit n (λ j. w j && (j == m)) ≡ (ltb m n && w m)
unfolding any_bit
any_bit-mask zero m w = ground arith
any_bit-mask (suc n) m w = ground (arith, any_bit-mask n m w)

module _ (b : Bitmap) (i : ℕ) where
  pub bitmap_test-bit : i < b.bit_cnt → bitmap_test b i ≡ ok (bit b i)
  unfolding bitmap_test
  bitmap_test-bit h = ground (arith, any_bit-mask 32 (i % 32) (b.bits (i / 32)))

  pub bit-mark : (j : ℕ) → bit (bitmap_mark b i) j ≡ (if j == i then true else bit b j)
  unfolding bitmap_mark
  bit-mark j = ground arith

  pub bit-reset : (j : ℕ) → bit (bitmap_reset b i) j ≡ (if j == i then false else bit b j)
  unfolding bitmap_reset
  bit-reset j = ground arith

  pub bit-flip : (j : ℕ) → bit (bitmap_flip b i) j ≡ (if j == i then not (bit b j) else bit b j)
  unfolding bitmap_flip
  bit-flip j = ground arith
