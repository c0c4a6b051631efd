-- ===== src/Bitmap/Ranges.antt =====
-- The operations on groups of bits.
use gpintosy.Prelude.{
  ℕ, zero, suc, ◌+◌, ◌^◌, ◌<◌, ◌≤◌, ◌≡◌, refl, ◌∙◌, Bool, true, false, not, ◌&&◌, ◌⊎◌, inl, inr,
  arith, ltb, leb, ◌==◌, Bool-cases, if◌then◌else◌,
}
use gpintosy.Kernel.{ok, Succeeds, Succeeds-mono}
use gpintosy.Bitmap.{
  Bitmap, bitmap_set, bitmap_mark, bitmap_reset, check_range, set_range, bitmap_set_multiple,
  is_value, contains_range, bitmap_contains,
}
use gpintosy.Bitmap.Bits.{bit, bitmap_test-bit, bit-mark, bit-reset}

-- `b'` is `b` with the `cnt` bits from `start` on set to `value`.
pub record IsSetTo (b : Bitmap) (start cnt : ℕ) (value : Bool) (b' : Bitmap) : Type 0 where
  pub same_cnt : b'.bit_cnt ≡ b.bit_cnt
  pub bits : (j : ℕ) → bit b' j ≡ (if leb start j && ltb j (start + cnt) then value else bit b j)

-- All the `cnt` bits from `start` on are `value`.
abbrev pub AllAre : Bitmap → ℕ → ℕ → Bool → Type 0
AllAre b start cnt value = (k : ℕ) → start ≤ k → k < start + cnt → bit b k ≡ value

-- One of the `cnt` bits from `start` on is `value`.
abbrev pub SomeIs : Bitmap → ℕ → ℕ → Bool → Type 0
SomeIs b start cnt value = (k : ℕ) × (start ≤ k) × (k < start + cnt) × (bit b k ≡ value)

-- The answer to whether a bit of a group is `value`.
abbrev pub Answers : Bitmap → ℕ → ℕ → Bool → Bool → Type 0
Answers b start cnt value x =
    ((x ≡ true) × SomeIs b start cnt value) ⊎ ((x ≡ false) × AllAre b start cnt (not value))

abbrev with_bit : Bitmap → ℕ → Bool → Bitmap
with_bit b i value = if value then bitmap_mark b i else bitmap_reset b i

bitmap_set-ok :
    (b : Bitmap) (i : ℕ) (value : Bool)
    → i < b.bit_cnt
    → bitmap_set b i value ≡ ok (with_bit b i value)
unfolding bitmap_set
bitmap_set-ok b i value h = ground arith

with_bit-bit :
    (b : Bitmap) (i : ℕ) (value : Bool) (j : ℕ)
    → bit (with_bit b i value) j ≡ (if j == i then value else bit b j)
with_bit-bit b i true j = bit-mark b i j
with_bit-bit b i false j = bit-reset b i j

with_bit-cnt : (b : Bitmap) (i : ℕ) (value : Bool) → (with_bit b i value).bit_cnt ≡ b.bit_cnt
unfolding bitmap_mark bitmap_reset
with_bit-cnt b i true = refl
with_bit-cnt b i false = refl

set_range-IsSetTo :
    (n i : ℕ) (value : Bool) (b : Bitmap)
    → i + n ≤ b.bit_cnt
    → Succeeds (IsSetTo b i n value) (set_range n i value b)
unfolding set_range
set_range-IsSetTo zero i value b h = record { same_cnt = refl; bits = λ j. ground arith }
set_range-IsSetTo (suc n) i value b h =
    let b1 = with_bit b i value in
    rw (bitmap_set-ok b i value (omega arith)) (
      Succeeds-mono (IsSetTo b1 (suc i) n value) (IsSetTo b i (suc n) value) _
        (set_range-IsSetTo n (suc i) value b1 (rw (with_bit-cnt b i value) (omega arith)))
        λ b2 s. record {
          same_cnt = s.same_cnt ∙ with_bit-cnt b i value;
          bits = λ j. ground (arith, s.bits j, with_bit-bit b i value j);
        })

check_range-ok :
    (b : Bitmap) (start cnt : ℕ)
    → start + cnt ≤ b.bit_cnt
    → b.bit_cnt < 2 ^ 32
    → check_range b start cnt ≡ ok tt
unfolding check_range
check_range-ok b start cnt h i = ground arith

-- In a bitmap of less than 2 ^ 32 bits, `bitmap_set_multiple` of a group that lies in it fails no
-- assertion, sets the bits of the group, and leaves the others as they are.
pub bitmap_set_multiple-IsSetTo :
    (b : Bitmap) (start cnt : ℕ) (value : Bool)
    → start + cnt ≤ b.bit_cnt
    → b.bit_cnt < 2 ^ 32
    → Succeeds (IsSetTo b start cnt value) (bitmap_set_multiple b start cnt value)
unfolding bitmap_set_multiple
bitmap_set_multiple-IsSetTo b start cnt value h i =
    rw (check_range-ok b start cnt h i) (set_range-IsSetTo cnt start value b h)

widen :
    (n i : ℕ) (value x : Bool) (b : Bitmap)
    → bit b i ≡ not value
    → Answers b (suc i) n value x
    → Answers b i (suc n) value x
widen n i value x b h (inl (e, (k, l, m, v))) = inl (e, (k, omega arith, omega arith, v))
widen n i value x b h (inr (e, all)) = inr (e, λ k l m. ground (arith, all k))

first-Answers :
    (n i : ℕ) (value : Bool) (b : Bitmap) → bit b i ≡ value → Answers b i (suc n) value true
first-Answers n i value b h = inl (refl, (i, omega arith, omega arith, h))

contains_range-step :
    (n i : ℕ) (value : Bool) (b : Bitmap)
    → i < b.bit_cnt
    → contains_range (suc n) i value b
      ≡ (if is_value value (bit b i) then ok true else contains_range n (suc i) value b)
unfolding contains_range
contains_range-step n i value b h = rw (bitmap_test-bit b i h) refl

contains_range-Answers :
    (n i : ℕ) (value : Bool) (b : Bitmap)
    → i + n ≤ b.bit_cnt
    → Succeeds (Answers b i n value) (contains_range n i value b)
unfolding contains_range
contains_range-Answers zero i value b h = inr (refl, λ k l m. absurd (omega arith))
contains_range-Answers (suc n) i value b h = elim (Bool-cases (is_value value (bit b i))) [
  | inl e ↦
      rw (contains_range-step n i value b (omega arith), e)
        (first-Answers n i value b (ground arith))
  | inr e ↦
      rw (contains_range-step n i value b (omega arith), e)
        (Succeeds-mono (Answers b (suc i) n value) (Answers b i (suc n) value) _
          (contains_range-Answers n (suc i) value b (omega arith))
          (λ x a. widen n i value x b (ground arith) a))
]

-- In a bitmap of less than 2 ^ 32 bits, `bitmap_contains` of a group that lies in it fails no
-- assertion; it answers true if a bit of the group has the value, and false if all have the other.
pub bitmap_contains-Answers :
    (b : Bitmap) (start cnt : ℕ) (value : Bool)
    → start + cnt ≤ b.bit_cnt
    → b.bit_cnt < 2 ^ 32
    → Succeeds (Answers b start cnt value) (bitmap_contains b start cnt value)
unfolding bitmap_contains
bitmap_contains-Answers b start cnt value h i =
    rw (check_range-ok b start cnt h i) (contains_range-Answers cnt start value b h)
