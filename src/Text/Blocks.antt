-- ===== src/Text/Blocks.antt =====
-- src/lib/string.c: the functions on blocks of memory.
pub mod Moved
use gpintosy.Prelude.{
  ℕ, zero, suc, ◌+◌, ◌-◌, Bool, true, false, not, ◌||◌, Option, none, some, ltb, ◌==◌,
  if◌then◌else◌,
}
use gpintosy.Prelude.Int.{ℤ, pos, negsuc}
use gpintosy.Kernel.{Ptr, null, Result, ok, panic, undefined, ◌>>=◌, ◌>>◌, assert, update}
use gpintosy.Vaddr.{Memory}

-- The loop of `memcpy`, with the bytes left.
unfoldable pub copy_up : Ptr → Ptr → ℕ → Memory → Memory
copy_up dst src zero m = m
copy_up dst src (suc size) m = copy_up (dst + 1) (src + 1) size (update m dst (m src))

-- The second loop of `memmove`, with the bytes left, which are the first of the blocks.
unfoldable pub copy_down : Ptr → Ptr → ℕ → Memory → Memory
copy_down dst src zero m = m
copy_down dst src (suc size) m = copy_down dst src size (update m (dst + size) (m (src + size)))

abbrev pub is_block : Ptr → ℕ → Bool
is_block p size = not (p == null) || (size == 0)

unfoldable pub memcpy : Ptr → Ptr → ℕ → Memory → Result (Ptr × Memory)
memcpy dst src size m = do
  assert (is_block dst size)
  assert (is_block src size)
  ok (dst, copy_up dst src size m)

-- What is returned is the pointer that the loop has moved.
unfoldable pub memmove : Ptr → Ptr → ℕ → Memory → Result (Ptr × Memory)
memmove dst src size m = do
  assert (is_block dst size)
  assert (is_block src size)
  ok (if ltb dst src then (dst + size, copy_up dst src size m) else (dst, copy_down dst src size m))

-- The loop of `memcmp`, with the bytes left.
unfoldable pub compare_from : Ptr → Ptr → ℕ → Memory → ℤ
compare_from a b zero m = pos 0
compare_from a b (suc size) m =
    if m a == m b
    then compare_from (a + 1) (b + 1) size m
    else if ltb (m b) (m a)
    then pos 1
    else negsuc 0

unfoldable pub memcmp : Ptr → Ptr → ℕ → Memory → Result ℤ
memcmp a b size m = do
  assert (is_block a size)
  assert (is_block b size)
  ok (compare_from a b size m)

-- The loop of `memchr`, with the bytes left.
unfoldable pub find_byte : Ptr → ℕ → ℕ → Memory → Ptr
find_byte block ch zero m = null
find_byte block ch (suc size) m = if m block == ch then block else find_byte (block + 1) ch size m

unfoldable pub memchr : Ptr → ℕ → ℕ → Memory → Result Ptr
memchr block ch size m = do assert (is_block block size); ok (find_byte block ch size m)
