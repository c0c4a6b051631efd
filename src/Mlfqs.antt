-- ===== src/Mlfqs.antt =====
-- src/threads/thread.c: the multi-level feedback queue scheduler's numbers.
pub mod Range
use gpintosy.Prelude.{ℕ, ◌+◌, List, [], ◌∷◌, ◌==◌, length, if◌then◌else◌}
use gpintosy.Prelude.Int.{ℤ, pos, negsuc, ◌-ℤ◌, ◌*ℤ◌}
use gpintosy.FixedPoint.{
  to_int, int_to_fp, fp_to_int_zero, fp_to_int_round, add_fp, add_fp_int, mul_fp, mul_fp_int,
  div_fp, div_fp_int,
}
use gpintosy.Kernel.{Ptr, Result, ok, ◌>>=◌, Kernel, set_thread, set_priority, thread_current}
use gpintosy.Scheduler.{pri_max, thread_test_yield}

-- PRI_MAX - recent_cpu / 4 - nice * 2
unfoldable pub priority_of : (recent_cpu nice : ℤ) → ℤ
priority_of recent_cpu nice =
    fp_to_int_zero
      (add_fp_int (div_fp_int recent_cpu (negsuc 3)) (to_int (pri_max -ℤ to_int (nice *ℤ pos 2))))

unfoldable pub mlfqs_calculate_priority : Ptr → Kernel → Kernel
mlfqs_calculate_priority t k =
    if t == k.idle_thread
    then k
    else set_priority k t (priority_of (k.threads t).recent_cpu (k.threads t).nice)

-- (2 * load_avg) / (2 * load_avg + 1) * recent_cpu + nice
unfoldable pub recent_cpu_of : (load_avg recent_cpu nice : ℤ) → ℤ
recent_cpu_of load_avg recent_cpu nice =
    let twice = mul_fp_int load_avg (pos 2) in
    add_fp_int (mul_fp (div_fp twice (add_fp_int twice (pos 1))) recent_cpu) nice

unfoldable pub mlfqs_calculate_recent_cpu : Ptr → Kernel → Kernel
mlfqs_calculate_recent_cpu t k =
    if t == k.idle_thread
    then k
    else let r = k.threads t in
      set_thread k t (record r { recent_cpu = recent_cpu_of k.load_avg r.recent_cpu r.nice })

-- (59 / 60) * load_avg + (1 / 60) * ready_threads
unfoldable pub load_avg_of : (load_avg : ℤ) (ready_threads : ℕ) → ℤ
load_avg_of load_avg ready_threads =
    add_fp (mul_fp (div_fp (int_to_fp (pos 59)) (int_to_fp (pos 60))) load_avg)
      (mul_fp_int (div_fp (int_to_fp (pos 1)) (int_to_fp (pos 60))) (pos ready_threads))

unfoldable pub mlfqs_calculate_load_avg : Kernel → Result Kernel
mlfqs_calculate_load_avg k = do
  cur ← thread_current k
  let ready_threads = if cur == k.idle_thread then length k.ready_list else length k.ready_list + 1
  ok (record k { load_avg = load_avg_of k.load_avg ready_threads })

unfoldable pub mlfqs_increment_recent_cpu : Kernel → Result Kernel
mlfqs_increment_recent_cpu k = do
  cur ← thread_current k
  let t = k.threads cur
  if cur == k.idle_thread
      then ok k
      else ok (set_thread k cur (record t { recent_cpu = add_fp_int t.recent_cpu (pos 1) }))

-- The loops over the list of all threads.
unfoldable pub for_each : (Ptr → Kernel → Kernel) → List Ptr → Kernel → Kernel
for_each f [] k = k
for_each f (t ∷ l) k = for_each f l (f t k)

unfoldable pub mlfqs_recalculate_recent_cpu : Kernel → Kernel
mlfqs_recalculate_recent_cpu k = for_each mlfqs_calculate_recent_cpu k.all_list k

unfoldable pub mlfqs_recalculate_priority : Kernel → Kernel
mlfqs_recalculate_priority k = for_each mlfqs_calculate_priority k.all_list k

unfoldable pub thread_set_nice : ℤ → Kernel → Result Kernel
thread_set_nice nice k = do
  cur ← thread_current k
  let k = set_thread k cur (record (k.threads cur) { nice = nice })
  thread_test_yield (mlfqs_calculate_priority cur k)

unfoldable pub thread_get_nice : Kernel → Result ℤ
thread_get_nice k = do cur ← thread_current k; ok (k.threads cur).nice

unfoldable pub thread_get_load_avg : Kernel → ℤ
thread_get_load_avg k = fp_to_int_round (mul_fp_int k.load_avg (pos 100))

unfoldable pub thread_get_recent_cpu : Kernel → Result ℤ
thread_get_recent_cpu k = do
  cur ← thread_current k
  ok (fp_to_int_round (mul_fp_int (k.threads cur).recent_cpu (pos 100)))
