-- ===== src/Examples/Samples.antt =====
-- A kernel with six threads: 1 is idle, 2 runs, 3 and 4 are ready, 5 waits for the semaphore 100,
-- and 6 sleeps.
use gpintosy.Prelude.{refl, false, [], ◌∷◌, arith, ◌==◌, if◌then◌else◌}
use gpintosy.Prelude.Int.{ℤ, pos}
use gpintosy.Kernel.{Ptr, null, Status, running, ready, blocked, dying, Kernel}
use gpintosy.Queues.{view, IsQueued}

abbrev pub status_at : Ptr → Status
status_at t =
    if t == 2
    then running
    else if t == 3
    then ready
    else if t == 4
    then ready
    else if t == 1
    then blocked
    else if t == 5
    then blocked
    else if t == 6
    then blocked
    else dying

-- `p` is the priority of thread 3.
abbrev pub priority_at : ℤ → Ptr → ℤ
priority_at p t =
    if t == 2
    then pos 31
    else if t == 3
    then p
    else if t == 4
    then pos 20
    else if t == 5
    then pos 50
    else pos 10

abbrev pub sample : ℤ → Kernel
sample p = record {
  threads = λ t. record {
    tid = t;
    status = status_at t;
    priority = priority_at p t;
    wakeup_ticks = pos 3;
    donors_list = [];
    base_priority = priority_at p t;
    waiting_on_lock = null;
    nice = pos 0;
    recent_cpu = pos 0;
    pagedir = null;
    frames = [];
  };
  semas = λ s. record { value = 0; waiters = if s == 100 then 5 ∷ [] else [] };
  holders = λ l. if l == 200 then 4 else null;
  conds = λ c. [];
  current = 2;
  idle_thread = 1;
  initial_thread = 2;
  ready_list = 3 ∷ 4 ∷ [];
  all_list = 1 ∷ 2 ∷ 3 ∷ 4 ∷ 5 ∷ 6 ∷ [];
  sleep_list = 6 ∷ [];
  next_tid = 7;
  thread_ticks = 3;
  idle_ticks = 0;
  kernel_ticks = 0;
  user_ticks = 0;
  ticks = 3;
  load_avg = pos 0;
  thread_mlfqs = false;
  in_external_intr = false;
  yield_on_return = false;
  freed = [];
  elem_nexts = λ t. pos t;
}

pub sample-IsQueued : (p : ℤ) → IsQueued (view (sample p))
sample-IsQueued p = record {
  consistent = record {
    null_dead = refl;
    idle_exists = ground arith;
    idle_free = refl;
    ready = λ t. ground arith;
    waiting = λ s t. ground arith;
    one_wait = λ s s' t h h'. ground arith;
    sleeping = λ t. ground arith;
    apart = λ s t h. ground arith;
  };
  runs = refl;
  alone = λ t h. ground arith;
}
