-- ===== src/Vaddr.antt =====
-- src/threads/vaddr.h: addresses and pages. Memory holds a byte at each address.
use gpintosy.Prelude.{ℕ, zero, suc, ◌+◌, ◌-◌, ◌/◌, ◌%◌, ◌^◌, Bool, ltb, leb, ◌&&◌, if◌then◌else◌}
use gpintosy.Kernel.{Ptr, Result, ok, ◌>>◌, assert, update}

abbrev pub pgsize : ℕ
pgsize = 4096

abbrev pub phys_base : Ptr
phys_base = 3221225472

unfoldable pub pg_ofs : Ptr → ℕ
pg_ofs va = va % pgsize

unfoldable pub pg_no : Ptr → ℕ
pg_no va = va / pgsize

unfoldable pub pg_round_up : Ptr → Ptr
pg_round_up va = let end = (va + pgsize - 1) % 2 ^ 32 in end - end % pgsize

unfoldable pub pg_round_down : Ptr → Ptr
pg_round_down va = va - va % pgsize

unfoldable pub is_user_vaddr : Ptr → Bool
is_user_vaddr vaddr = ltb vaddr phys_base

unfoldable pub is_kernel_vaddr : Ptr → Bool
is_kernel_vaddr vaddr = leb phys_base vaddr

unfoldable pub ptov : ℕ → Result Ptr
ptov paddr = do assert (ltb paddr phys_base); ok ((paddr + phys_base) % 2 ^ 32)

unfoldable pub vtop : Ptr → Result ℕ
vtop vaddr = do assert (is_kernel_vaddr vaddr); ok (vaddr - phys_base)

abbrev pub Memory : Type 0
Memory = Ptr → ℕ

-- The loop of `memset`, with the bytes left, for a value that is a byte, as those of the callers are.
unfoldable pub memset : Ptr → ℕ → ℕ → Memory → Memory
memset dst value zero m = m
memset dst value (suc size) m = memset (suc dst) value size (update m dst value)

-- Memory with the first `n` bytes of a buffer from an address on.
abbrev pub put_bytes : Memory → Ptr → ℕ → (ℕ → ℕ) → Memory
put_bytes m p n c = λ a. if leb p a && ltb a (p + n) then c (a - p) else m a
