-- ===== src/Machine.antt =====
-- The calls of src/threads/synch.c that go on when their thread runs again.
pub mod Locks
use gpintosy.Prelude.{List, [], ◌∷◌, ◌==◌, if◌then◌else◌}
use gpintosy.Kernel.{
  Result, ok, Frame, down_again, lock_taken, lock_up, lock_given, cond_relock, cond_more, Kernel,
  set_thread,
}
use gpintosy.Synch.{sema_down, sema_up, lock_acquire, lock_acquired, lock_released, cond_broadcast}

-- What a frame stands for.
unfoldable pub run_frame : Frame → Kernel → Result Kernel
run_frame (down_again sema) = sema_down sema
run_frame (lock_taken lock) = lock_acquired lock
run_frame (lock_up lock) = sema_up lock
run_frame (lock_given lock) = lock_released lock
run_frame (cond_relock lock) = lock_acquire lock
run_frame (cond_more cond lock) = cond_broadcast cond lock

-- The current thread takes its newest frame off and carries it out; without one it is back in the
-- code that called the kernel.
unfoldable pub resume : Kernel → Result Kernel
resume k =
    let t = k.threads k.current in
    elim (t.frames) [
      | [] ↦ ok k
      | f ∷ l ↦ run_frame f (set_thread k k.current (record t { frames = l }))
    ]
