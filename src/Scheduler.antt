-- ===== src/Scheduler.antt =====
-- src/threads/thread.c: the run queue, the switch of threads, and the life of a thread.
--
-- Interrupts are off in each of these functions, so each is one step; the checks of the interrupt
-- level, the switch of stacks, `process_activate`, `process_exit` and the wait for `tid_lock` are
-- left out.
pub mod Order
use gpintosy.Prelude.{
  ℕ, ◌+◌, true, not, ◌&&◌, Option, none, some, [], ◌∷◌, ◌++◌, ◌==◌, leb, keep, if◌then◌else◌,
}
use gpintosy.Prelude.Int.{ℤ, pos, ltb_ℤ}
use gpintosy.KernelList.{insert_ordered}
use gpintosy.Kernel.{
  Ptr, null, Result, ok, ◌>>=◌, ◌>>◌, assert, running, ready, blocked, dying, is_running,
  is_blocked, is_dying, Thread, Kernel, set_thread, set_status, priority_compare, thread_current,
  is_thread,
}

abbrev pub time_slice : ℕ
time_slice = 4

abbrev pub pri_max : ℤ
pri_max = pos 63

-- The idle thread, if nothing is ready; else the first of the run queue, which it leaves.
unfoldable pub next_thread_to_run : Kernel → Ptr × Kernel
next_thread_to_run k = elim (k.ready_list) [
  | [] ↦ (k.idle_thread, k)
  | t ∷ l ↦ (t, record k { ready_list = l })
]

-- Runs in the new thread; `prev` is NULL if there was no switch.
unfoldable pub thread_schedule_tail : Ptr → Kernel → Result Kernel
thread_schedule_tail prev k = do
  let k = record (set_status k k.current running) { thread_ticks = 0 }
  if not (prev == null) && is_dying (k.threads prev).status && not (prev == k.initial_thread)
      then (do assert (not (prev == k.current)); ok (record k { freed = prev ∷ k.freed }))
      else ok k

-- The rest of `schedule`: `switch_threads` makes the next thread the current one.
unfoldable pub switch_to : Ptr → Kernel → Result Kernel
switch_to next k = do
  let cur = k.current
  assert (not (is_running (k.threads cur).status))
  assert (is_thread next)
  if cur == next
      then thread_schedule_tail null k
      else thread_schedule_tail cur (record k { current = next })

unfoldable pub schedule : Kernel → Result Kernel
schedule k = let (next, k) = next_thread_to_run k in switch_to next k

unfoldable pub thread_block : Kernel → Result Kernel
thread_block k = do
  assert (not k.in_external_intr)
  cur ← thread_current k
  schedule (set_status k cur blocked)

unfoldable pub thread_unblock : Ptr → Kernel → Result Kernel
thread_unblock t k = do
  assert (is_thread t)
  assert (is_blocked (k.threads t).status)
  let k = record k { ready_list = insert_ordered (priority_compare k) k.ready_list t }
  ok (set_status k t ready)

unfoldable pub thread_yield : Kernel → Result Kernel
thread_yield k = do
  cur ← thread_current k
  assert (not k.in_external_intr)
  let queue =
      if cur == k.idle_thread
      then k.ready_list
      else insert_ordered (priority_compare k) k.ready_list cur
  schedule (set_status (record k { ready_list = queue }) cur ready)

-- Gives way to the first of the run queue, if that has the higher priority.
unfoldable pub thread_test_yield : Kernel → Result Kernel
thread_test_yield k = elim (k.ready_list) [
  | [] ↦ ok k
  | front ∷ l ↦ do
    cur ← thread_current k
    if ltb_ℤ (k.threads cur).priority (k.threads front).priority
        then if k.in_external_intr then ok (record k { yield_on_return = true }) else thread_yield k
        else ok k
]

unfoldable pub thread_exit : Kernel → Result Kernel
thread_exit k = do
  assert (not k.in_external_intr)
  cur ← thread_current k
  let k = record k { all_list = keep (λ t. not (t == cur)) k.all_list }
  schedule (set_status k cur dying)

-- `thread_tick`: the statistics, and the end of a time slice.
unfoldable pub thread_tick : Kernel → Result Kernel
thread_tick k = do
  t ← thread_current k
  let k =
      if t == k.idle_thread
      then record k { idle_ticks = k.idle_ticks + 1 }
      else if (k.threads t).pagedir == null
      then record k { kernel_ticks = k.kernel_ticks + 1 }
      else record k { user_ticks = k.user_ticks + 1 }
  let k = record k { thread_ticks = k.thread_ticks + 1 }
  ok (if leb time_slice k.thread_ticks then record k { yield_on_return = true } else k)

-- A zeroed `struct thread`, blocked, and on the list of all threads.
unfoldable pub init_thread : Ptr → ℤ → Kernel → Result Kernel
init_thread t priority k = do
  assert (not (t == null))
  assert (not (ltb_ℤ priority (pos 0)) && not (ltb_ℤ pri_max priority))
  let fresh : Thread = record {
    tid = 0;
    status = blocked;
    priority = priority;
    wakeup_ticks = pos 0;
    donors_list = [];
    base_priority = priority;
    waiting_on_lock = null;
    nice = pos 0;
    recent_cpu = pos 0;
    pagedir = null;
    frames = [];
  }
  ok (record (set_thread k t fresh) { all_list = k.all_list ++ t ∷ [] })

unfoldable pub allocate_tid : Kernel → ℕ × Kernel
allocate_tid k = (k.next_tid, record k { next_tid = k.next_tid + 1 })

-- `page` is what the page allocator returns. The result is `none` for TID_ERROR.
unfoldable pub thread_create : Ptr → ℤ → Kernel → Result (Option ℕ × Kernel)
thread_create page priority k = if page == null then ok (none, k) else do
  k ← init_thread page priority k
  let (tid, k) = allocate_tid k
  k ← thread_unblock page (set_thread k page (record (k.threads page) { tid = tid }))
  k ← thread_test_yield k
  ok (some tid, k)
