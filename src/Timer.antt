-- ===== src/Timer.antt =====
-- src/devices/timer.c: sleeping threads and the tick, and the handling of an external interrupt by
-- src/threads/interrupt.c.
use gpintosy.Prelude.{ℕ, ◌+◌, ◌%◌, Bool, true, false, not, List, [], ◌∷◌, ◌==◌, if◌then◌else◌}
use gpintosy.Prelude.Int.{ℤ, pos, ◌+ℤ◌, ltb_ℤ}
use gpintosy.KernelList.{insert_ordered}
use gpintosy.Kernel.{Ptr, Result, ok, ◌>>=◌, ◌>>◌, assert, Kernel, set_thread, thread_current}
use gpintosy.Scheduler.{thread_block, thread_unblock, thread_yield, thread_test_yield, thread_tick}
use gpintosy.Mlfqs.{
  mlfqs_increment_recent_cpu, mlfqs_recalculate_priority, mlfqs_recalculate_recent_cpu,
  mlfqs_calculate_load_avg,
}

abbrev pub timer_freq : ℕ
timer_freq = 100

unfoldable pub cmp_wakeup_ticks : Kernel → Ptr → Ptr → Bool
cmp_wakeup_ticks k a b = ltb_ℤ (k.threads a).wakeup_ticks (k.threads b).wakeup_ticks

unfoldable pub timer_sleep : ℤ → Kernel → Result Kernel
timer_sleep ticks k = do
  let start = pos k.ticks
  cur ← thread_current k
  let k = set_thread k cur (record (k.threads cur) { wakeup_ticks = start +ℤ ticks })
  thread_block (record k { sleep_list = insert_ordered (cmp_wakeup_ticks k) k.sleep_list cur })

-- The loop over the sleepers whose time is up; its argument is the sleep list.
unfoldable pub wake_sleepers : List Ptr → Kernel → Result Kernel
wake_sleepers [] k = ok k
wake_sleepers (t ∷ l) k = if ltb_ℤ (pos k.ticks) (k.threads t).wakeup_ticks then ok k else do
  k ← thread_unblock t (record k { sleep_list = l })
  k ← thread_test_yield k
  wake_sleepers l k

-- The updates of the feedback queue scheduler at a tick.
unfoldable pub mlfqs_tick : Kernel → Result Kernel
mlfqs_tick k = do
  k ← mlfqs_increment_recent_cpu k
  if k.ticks % 4 == 0
      then (do
        let k = mlfqs_recalculate_priority k
        if k.ticks % timer_freq == 0
            then mlfqs_calculate_load_avg (mlfqs_recalculate_recent_cpu k)
            else ok k)
      else ok k

unfoldable pub timer_interrupt : Kernel → Result Kernel
timer_interrupt k = do
  k ← thread_tick (record k { ticks = k.ticks + 1 })
  k ← if k.thread_mlfqs then mlfqs_tick k else ok k
  wake_sleepers k.sleep_list k

-- `intr_handler` for an external interrupt that has a handler.
unfoldable pub intr_handler : (Kernel → Result Kernel) → Kernel → Result Kernel
intr_handler handler k = do
  assert (not k.in_external_intr)
  k ← handler (record k { in_external_intr = true; yield_on_return = false })
  assert k.in_external_intr
  let k = record k { in_external_intr = false }
  if k.yield_on_return then thread_yield k else ok k
