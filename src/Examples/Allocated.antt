-- ===== src/Examples/Allocated.antt =====
-- The theorem on the page allocator at two pools of four pages.
use gpintosy.Prelude.{true, false, arith, ◌==◌}
use gpintosy.Kernel.{Succeeds}
use gpintosy.Palloc.{Pools, pool_of, palloc_get_multiple}
use gpintosy.Palloc.Get.{IsPool, Gets, palloc_get_multiple-Gets}

-- The first page of each pool is used.
abbrev pools : Pools
pools = record {
  kernel_pool = record { used_map = record { bit_cnt = 4; bits = λ w j. j == 0 }; base = 8192 };
  user_pool = record { used_map = record { bit_cnt = 4; bits = λ w j. j == 0 }; base = 24576 };
  memory = λ a. 7;
}

user-IsPool : IsPool (pool_of true pools)
user-IsPool = record { some_base = ground arith; room = omega arith }

palloc_get_multiple-Gets_example :
    Succeeds (Gets true true 2 pools) (
      palloc_get_multiple (record { pal_assert = false; pal_zero = true; pal_user = true }) 2 pools)
palloc_get_multiple-Gets_example =
    palloc_get_multiple-Gets true 2 pools true user-IsPool (ground arith)
