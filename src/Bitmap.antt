-- ===== src/Bitmap.antt =====
-- src/lib/kernel/bitmap.c: arrays of bits in words of 32 bits.
--
-- A word is what its bits are; the bits from 32 on mean nothing. The allocation of a bitmap, and its
-- transfer to a file, are left out. A loop that runs past the last bit fails the assertion of
-- `bitmap_set` or `bitmap_test` before its index wraps around.
pub mod Bits
pub mod Ranges
pub mod Scan
use gpintosy.Prelude.{
  ℕ, zero, suc, ◌+◌, ◌-◌, ◌/◌, ◌%◌, ◌^◌, Bool, true, false, not, ◌&&◌, ◌||◌, Option, none, some,
  ltb, leb, ◌==◌, if◌then◌else◌,
}
use gpintosy.Kernel.{Result, ok, ◌>>=◌, ◌>>◌, assert, update}

abbrev pub elem_bits : ℕ
elem_bits = 32

abbrev pub Word : Type 0
Word = ℕ → Bool

pub record Bitmap : Type 0 where
  pub bit_cnt : ℕ
  pub bits : ℕ → Word

abbrev pub elem_idx : ℕ → ℕ
elem_idx bit_idx = bit_idx / elem_bits

abbrev pub bit_mask : ℕ → Word
bit_mask bit_idx = λ j. j == bit_idx % elem_bits

-- Whether one of the first `n` bits of a word is set; for 32, whether the word is not 0.
unfoldable pub any_bit : ℕ → Word → Bool
any_bit zero w = false
any_bit (suc n) w = w n || any_bit n w

-- The words of a bitmap with word `idx` replaced.
abbrev pub set_elem : Bitmap → ℕ → Word → Bitmap
set_elem b idx w = record b { bits = update b.bits idx w }

unfoldable pub bitmap_mark : Bitmap → ℕ → Bitmap
bitmap_mark b i = set_elem b (elem_idx i) λ j. b.bits (elem_idx i) j || bit_mask i j

unfoldable pub bitmap_reset : Bitmap → ℕ → Bitmap
bitmap_reset b i = set_elem b (elem_idx i) λ j. b.bits (elem_idx i) j && not (bit_mask i j)

unfoldable pub bitmap_flip : Bitmap → ℕ → Bitmap
bitmap_flip b i =
    set_elem b (elem_idx i)
      λ j. if bit_mask i j then not (b.bits (elem_idx i) j) else b.bits (elem_idx i) j

unfoldable pub bitmap_set : Bitmap → ℕ → Bool → Result Bitmap
bitmap_set b idx value = do
  assert (ltb idx b.bit_cnt)
  ok (if value then bitmap_mark b idx else bitmap_reset b idx)

unfoldable pub bitmap_test : Bitmap → ℕ → Result Bool
bitmap_test b idx = do
  assert (ltb idx b.bit_cnt)
  ok (any_bit elem_bits λ j. b.bits (elem_idx idx) j && bit_mask idx j)

-- The assertions on a group of `cnt` bits from `start` on.
unfoldable pub check_range : Bitmap → ℕ → ℕ → Result (Unit {0})
check_range b start cnt = do
  assert (leb start b.bit_cnt)
  assert (leb ((start + cnt) % 2 ^ 32) b.bit_cnt)

-- The loop of `bitmap_set_multiple`, with the rounds left and the bit it has come to.
unfoldable pub set_range : ℕ → ℕ → Bool → Bitmap → Result Bitmap
set_range zero i value b = ok b
set_range (suc n) i value b = do b ← bitmap_set b i value; set_range n (suc i) value b

unfoldable pub bitmap_set_multiple : Bitmap → ℕ → ℕ → Bool → Result Bitmap
bitmap_set_multiple b start cnt value = do check_range b start cnt; set_range cnt start value b

unfoldable pub bitmap_set_all : Bitmap → Bool → Result Bitmap
bitmap_set_all b value = bitmap_set_multiple b 0 b.bit_cnt value

abbrev pub is_value : Bool → Bool → Bool
is_value value x = if value then x else not x

unfoldable pub count_range : ℕ → ℕ → Bool → Bitmap → Result ℕ
count_range zero i value b = ok 0
count_range (suc n) i value b = do
  x ← bitmap_test b i
  rest ← count_range n (suc i) value b
  ok (if is_value value x then suc rest else rest)

unfoldable pub bitmap_count : Bitmap → ℕ → ℕ → Bool → Result ℕ
bitmap_count b start cnt value = do check_range b start cnt; count_range cnt start value b

unfoldable pub contains_range : ℕ → ℕ → Bool → Bitmap → Result Bool
contains_range zero i value b = ok false
contains_range (suc n) i value b = do
  x ← bitmap_test b i
  let rest = contains_range n (suc i) value b
  if is_value value x then ok true else rest

unfoldable pub bitmap_contains : Bitmap → ℕ → ℕ → Bool → Result Bool
bitmap_contains b start cnt value = do check_range b start cnt; contains_range cnt start value b

unfoldable pub bitmap_any : Bitmap → ℕ → ℕ → Result Bool
bitmap_any b start cnt = bitmap_contains b start cnt true

unfoldable pub bitmap_none : Bitmap → ℕ → ℕ → Result Bool
bitmap_none b start cnt = do x ← bitmap_contains b start cnt true; ok (not x)

unfoldable pub bitmap_all : Bitmap → ℕ → ℕ → Result Bool
bitmap_all b start cnt = do x ← bitmap_contains b start cnt false; ok (not x)

-- The loop of `bitmap_scan`, with the rounds left and the start it has come to. BITMAP_ERROR is
-- `none`.
unfoldable pub scan_from : ℕ → ℕ → ℕ → Bool → Bitmap → Result (Option ℕ)
scan_from zero i cnt value b = ok none
scan_from (suc n) i cnt value b = do
  x ← bitmap_contains b i cnt (not value)
  let rest = scan_from n (suc i) cnt value b
  if x then rest else ok (some i)

unfoldable pub bitmap_scan : Bitmap → ℕ → ℕ → Bool → Result (Option ℕ)
bitmap_scan b start cnt value = do
  assert (leb start b.bit_cnt)
  if leb cnt b.bit_cnt then scan_from (b.bit_cnt - cnt + 1 - start) start cnt value b else ok none

-- The group that a scan found, if any, is flipped.
unfoldable pub flip_group : Bitmap → ℕ → Bool → Option ℕ → Result (Option ℕ × Bitmap)
flip_group b cnt value none = ok (none, b)
flip_group b cnt value (some idx) = do
  b ← bitmap_set_multiple b idx cnt (not value)
  ok (some idx, b)

unfoldable pub bitmap_scan_and_flip : Bitmap → ℕ → ℕ → Bool → Result (Option ℕ × Bitmap)
bitmap_scan_and_flip b start cnt value = do
  idx ← bitmap_scan b start cnt value
  flip_group b cnt value idx
