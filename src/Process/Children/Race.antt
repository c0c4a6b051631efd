-- ===== src/Process/Children/Race.antt =====
-- src/userprog/process.c: two releases of a status, by a parent and its child, in two orders.
use gpintosy.Prelude.{◌≡◌, true, false, arith}
use gpintosy.Kernel.{Ptr, undefined, ◌>>=◌, Succeeds}
use gpintosy.Process.Children.{
  Family, child_at, set_child, decrement_ref_cnt, free_if_unused, release_child_process,
}

-- Of an allocated status with the `ref_cnt` 2, two releases, one after the other, use only an
-- allocated status, and free it. If the second comes between the two statements of the first, it
-- frees the status, and the first then reads freed memory.
pub release_child_process-interleaved :
    (c : Ptr) (f : Family)
    → f.allocated c ≡ true
    → (f.children c).ref_cnt ≡ 2
    → Succeeds
        (λ f'. f'.allocated c ≡ false)
        (release_child_process c f >>= λ f1. release_child_process c f1)
      × ((decrement_ref_cnt c f >>= λ f1. release_child_process c f1 >>= λ f2. free_if_unused c f2)
          ≡ undefined)
unfolding release_child_process decrement_ref_cnt free_if_unused child_at set_child
release_child_process-interleaved c f a r = (ground (arith, a, r), ground (arith, a, r))
