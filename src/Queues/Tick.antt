-- ===== src/Queues/Tick.antt =====
-- The timer interrupt keeps the invariant of the queues.
use gpintosy.Prelude.{
  ◌+◌, ◌%◌, ◌≡◌, refl, sym, ap, ◌∙◌, Bool, true, false, List, [], ◌∷◌, arith, ◌==◌, Bool-cases, inl,
  inr, if◌then◌else◌,
}
use gpintosy.Prelude.Int.{pos, ltb_ℤ}
use gpintosy.KernelList.Count.{count}
use gpintosy.Kernel.{Ptr, Result, ok, ◌>>=◌, ◌>>◌, assert, running, Kernel, thread_current}
use gpintosy.Scheduler.{thread_unblock, thread_tick, thread_yield}
use gpintosy.Mlfqs.{
  mlfqs_calculate_priority, mlfqs_calculate_recent_cpu, mlfqs_calculate_load_avg,
  mlfqs_increment_recent_cpu, for_each, mlfqs_recalculate_recent_cpu, mlfqs_recalculate_priority,
}
use gpintosy.Timer.{timer_freq, wake_sleepers, mlfqs_tick, timer_interrupt, intr_handler}
use gpintosy.Kernel.{Succeeds, Succeeds-mono, Succeeds-bind}
use gpintosy.Queues.Defs.{view, IsQueued}
use gpintosy.Queues.Moves.{same-IsQueued}
use gpintosy.Queues.Run.{
  QueuedAlike, StaysInInterrupt, thread_unblock-IsQueued, thread_yield-IsQueued,
  thread_test_yield-IsQueued,
}

-- An interrupt handler at work.
abbrev InInterrupt : Kernel → Type 0
InInterrupt k = IsQueued (view k) × (k.in_external_intr ≡ true)

-- What the updates of the scheduler's numbers change: nothing that the queues depend on.
record SameQueues (k k' : Kernel) : Type 0 where
  status : (u : Ptr) → (k'.threads u).status ≡ (k.threads u).status
  frames : (u : Ptr) → (k'.threads u).frames ≡ (k.threads u).frames
  current : k'.current ≡ k.current
  idle : k'.idle_thread ≡ k.idle_thread
  ready_list : k'.ready_list ≡ k.ready_list
  waiters : (s : Ptr) → (k'.semas s).waiters ≡ (k.semas s).waiters
  sleepers : k'.sleep_list ≡ k.sleep_list
  interrupt : k'.in_external_intr ≡ k.in_external_intr

SameQueues-keeps : {k k' : Kernel} → SameQueues k k' → InInterrupt k → InInterrupt k'
SameQueues-keeps {k} {k'} s (q, i) = (
  same-IsQueued q s.status s.current s.idle
      (ground (arith, s.frames k'.idle_thread, s.idle, q.idle_free)) s.ready_list
      (record {
        waiters = λ p u. ground (arith, s.waiters p);
        sleepers = λ u. ground (arith, s.sleepers);
      }),
  s.interrupt ∙ i,
)

SameQueues-refl : (k : Kernel) → SameQueues k k
SameQueues-refl k = ground arith

SameQueues-trans : {k l m : Kernel} → SameQueues k l → SameQueues l m → SameQueues k m
SameQueues-trans s t = record {
  status = λ u. t.status u ∙ s.status u;
  frames = λ u. t.frames u ∙ s.frames u;
  current = t.current ∙ s.current;
  idle = t.idle ∙ s.idle;
  ready_list = t.ready_list ∙ s.ready_list;
  waiters = λ p. t.waiters p ∙ s.waiters p;
  sleepers = t.sleepers ∙ s.sleepers;
  interrupt = t.interrupt ∙ s.interrupt;
}

tick-SameQueues :
    (k : Kernel) → (k.threads k.current).status ≡ running → Succeeds (SameQueues k) (thread_tick k)
unfolding thread_tick thread_current
tick-SameQueues k h = rw h (ground arith)

for_each-SameQueues :
    (f : Ptr → Kernel → Kernel)
    → ((t : Ptr) (k : Kernel) → SameQueues k (f t k))
    → (l : List Ptr) (k : Kernel) → SameQueues k (for_each f l k)
unfolding for_each
for_each-SameQueues f h [] k = SameQueues-refl k
for_each-SameQueues f h (t ∷ l) k = SameQueues-trans (h t k) (for_each-SameQueues f h l (f t k))

priority-SameQueues : (t : Ptr) (k : Kernel) → SameQueues k (mlfqs_calculate_priority t k)
unfolding mlfqs_calculate_priority
priority-SameQueues t k = ground arith

recent_cpu-SameQueues : (t : Ptr) (k : Kernel) → SameQueues k (mlfqs_calculate_recent_cpu t k)
unfolding mlfqs_calculate_recent_cpu
recent_cpu-SameQueues t k = ground arith

increment-SameQueues :
    (k : Kernel)
    → (k.threads k.current).status ≡ running
    → Succeeds (SameQueues k) (mlfqs_increment_recent_cpu k)
unfolding mlfqs_increment_recent_cpu thread_current
increment-SameQueues k h = rw h (ground arith)

load_avg-SameQueues :
    (k : Kernel)
    → (k.threads k.current).status ≡ running
    → Succeeds (SameQueues k) (mlfqs_calculate_load_avg k)
unfolding mlfqs_calculate_load_avg thread_current
load_avg-SameQueues k h = rw h (ground arith)

still_runs :
    {k k' : Kernel}
    → SameQueues k k'
    → (k.threads k.current).status ≡ running
    → (k'.threads k'.current).status ≡ running
still_runs {k} {k'} s h = ground (arith, s.status k'.current, s.current)

-- The updates at the end of a second.
second-SameQueues :
    (k : Kernel)
    → (k.threads k.current).status ≡ running
    → Succeeds (SameQueues k) (mlfqs_calculate_load_avg (mlfqs_recalculate_recent_cpu k))
unfolding mlfqs_recalculate_recent_cpu
second-SameQueues k h =
    let s = for_each-SameQueues mlfqs_calculate_recent_cpu recent_cpu-SameQueues k.all_list k in
    Succeeds-mono (SameQueues (for_each mlfqs_calculate_recent_cpu k.all_list k)) (SameQueues k) _
      (load_avg-SameQueues _ (still_runs s h)) λ k' t. SameQueues-trans s t

mlfqs_tick-SameQueues :
    (k : Kernel) → (k.threads k.current).status ≡ running → Succeeds (SameQueues k) (mlfqs_tick k)
unfolding mlfqs_tick mlfqs_recalculate_priority
mlfqs_tick-SameQueues k h =
    Succeeds-bind (SameQueues k) (SameQueues k) _ _ (increment-SameQueues k h) λ k1 s1.
      let k2 = for_each mlfqs_calculate_priority k1.all_list k1 in
      let s2 =
        SameQueues-trans s1
          (for_each-SameQueues mlfqs_calculate_priority priority-SameQueues k1.all_list k1) in
      elim (Bool-cases (k1.ticks % 4 == 0)) [
        | inl e ↦ rw e (elim (Bool-cases (k2.ticks % timer_freq == 0)) [
          | inl d ↦ rw d (
              Succeeds-mono (SameQueues k2) (SameQueues k) _
                (second-SameQueues k2 (still_runs s2 h)) λ k' t. SameQueues-trans s2 t)
          | inr d ↦ rw d s2
        ])
        | inr e ↦ rw e s1
      ]

-- The first sleeper leaves the list and becomes ready.
wake_sleeper :
    (t : Ptr) (l : List Ptr) (k : Kernel)
    → IsQueued (view k)
    → k.sleep_list ≡ t ∷ l
    → Succeeds
        (QueuedAlike (record k { sleep_list = l }))
        (thread_unblock t (record k { sleep_list = l }))
wake_sleeper t l k q e =
    let on : (u : Ptr) → count u (t ∷ l) ≡ count u k.sleep_list = λ u. ap (count u) (sym e) in
    thread_unblock-IsQueued (record k { sleep_list = l })
      (same-IsQueued q (λ u. refl) refl refl q.idle_free refl
        (record { waiters = λ s u. omega arith; sleepers = λ u. ground (arith, on u) }))
      t (ground (arith, on t, q.sleeping t)) (ground (arith, on t, q.sleeping t))
      (λ s. q.apart s t (ground (arith, on t))) (ground (arith, on t, q.sleeping t))

-- Every sleeper that the loop wakes becomes ready.
wake_sleepers-InInterrupt :
    (l : List Ptr) (k : Kernel)
    → InInterrupt k
    → k.sleep_list ≡ l
    → Succeeds InInterrupt (wake_sleepers l k)
unfolding wake_sleepers
wake_sleepers-InInterrupt [] k h e = h
wake_sleepers-InInterrupt (t ∷ l) k (q, i) e =
    elim (Bool-cases (ltb_ℤ (pos k.ticks) (k.threads t).wakeup_ticks)) [
      | inl early ↦ rw early (q, i)
      | inr late ↦ rw late (
          Succeeds-bind (QueuedAlike (record k { sleep_list = l })) InInterrupt _ _
            (wake_sleeper t l k q e)
            λ k1 (q1, _, i1, s1).
              Succeeds-bind (λ k'. IsQueued (view k') × StaysInInterrupt k1 k') InInterrupt _ _
                (thread_test_yield-IsQueued k1 q1)
                λ k2 (q2, stays).
                  let (i2, s2, _) = stays (i1 ∙ i) in
                  wake_sleepers-InInterrupt l k2 (q2, i2) (s2 ∙ s1))
    ]

numbers-SameQueues :
    (on : Bool) {k0 : Kernel} (k1 : Kernel)
    → SameQueues k0 k1
    → (k1.threads k1.current).status ≡ running
    → Succeeds (SameQueues k0) (if on then mlfqs_tick k1 else ok k1)
numbers-SameQueues true {k0} k1 s r =
    Succeeds-mono (SameQueues k1) (SameQueues k0) _ (mlfqs_tick-SameQueues k1 r)
      λ k' t. SameQueues-trans s t
numbers-SameQueues false k1 s r = s

timer_interrupt-InInterrupt :
    (k : Kernel) → InInterrupt k → Succeeds InInterrupt (timer_interrupt k)
unfolding timer_interrupt
timer_interrupt-InInterrupt k h =
    let k0 = record k { ticks = k.ticks + 1 } in
    let h0 = SameQueues-keeps {k = k} {k' = k0} (ground arith) h in
    Succeeds-bind (SameQueues k0) InInterrupt _ _ (tick-SameQueues k0 h0.0.runs) λ k1 s1.
      Succeeds-bind (SameQueues k0) InInterrupt _ _
        (numbers-SameQueues k1.thread_mlfqs k1 s1 (still_runs s1 h0.0.runs))
        λ k2 s2. wake_sleepers-InInterrupt k2.sleep_list k2 (SameQueues-keeps s2 h0) refl

-- The end of an external interrupt.
leave_interrupt :
    (yield : Bool) (k : Kernel)
    → IsQueued (view k)
    → k.in_external_intr ≡ false
    → Succeeds (λ k'. IsQueued (view k')) (if yield then thread_yield k else ok k)
leave_interrupt true k q e = thread_yield-IsQueued k q e
leave_interrupt false k q e = q

interrupted : Kernel → Kernel
interrupted k = record k { in_external_intr = true; yield_on_return = false }

intr_handler-enter :
    (k : Kernel) (handler : Kernel → Result Kernel)
    → k.in_external_intr ≡ false
    → intr_handler handler k ≡ (
        handler (interrupted k) >>= λ k'.
        assert k'.in_external_intr
        >> (let k2 = record k' { in_external_intr = false } in
            if k'.yield_on_return then thread_yield k2 else ok k2))
unfolding intr_handler interrupted
intr_handler-enter k handler e = simp e

-- In a kernel with consistent queues, outside an interrupt, a timer interrupt fails no assertion and
-- leaves consistent queues: through its statistics, the feedback queue scheduler's updates, the
-- waking of sleepers, and the switch that it may end in.
pub timer-IsQueued :
    (k : Kernel)
    → IsQueued (view k)
    → k.in_external_intr ≡ false
    → Succeeds (λ k'. IsQueued (view k')) (intr_handler timer_interrupt k)
unfolding interrupted
timer-IsQueued k q e = rw (intr_handler-enter k timer_interrupt e) (
    Succeeds-bind InInterrupt (λ k'. IsQueued (view k')) _ _
      (timer_interrupt-InInterrupt (interrupted k) (q, refl))
      λ k1 (q1, i1).
        simp i1
          (leave_interrupt k1.yield_on_return (record k1 { in_external_intr = false }) q1 refl))
