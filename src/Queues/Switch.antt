-- ===== src/Queues/Switch.antt =====
-- The scheduler keeps the queues consistent, and none of its assertions fails.
use gpintosy.Prelude.{
  ◌+◌, ◌≡◌, ◌≢◌, refl, not, ◌&&◌, List, [], ◌∷◌, arith, ◌==◌, Bool-cases, inl, inr, if◌then◌else◌,
}
use gpintosy.KernelList.Count.{count}
use gpintosy.Kernel.{Ptr, null, ok, is_dying, running, Kernel, set_status, is_thread}
use gpintosy.Scheduler.{thread_schedule_tail, switch_to, next_thread_to_run, schedule}
use gpintosy.Kernel.{Succeeds}
use gpintosy.Queues.Defs.{View, view, IsQueued, IsLeaving}
use gpintosy.Queues.Moves.{Turns}

-- The kernel after a switch to `next`: a thread that has exited gives its page back.
unfoldable pub switched : Ptr → Kernel → Kernel
switched next k = record (set_status k next running) {
  current = next;
  thread_ticks = 0;
  freed =
      if not (k.current == next)
        && not (k.current == null)
        && is_dying (k.threads k.current).status
        && not (k.current == k.initial_thread)
      then k.current ∷ k.freed
      else k.freed;
}

-- The switch succeeds if the current thread has stopped and there is a next one.
pub switch_to-ok :
    (next : Ptr) (k : Kernel)
    → (k.threads k.current).status ≢ running
    → next ≢ null
    → switch_to next k ≡ ok (switched next k)
unfolding switch_to switched thread_schedule_tail is_thread
switch_to-ok next k nr ne = elim (Bool-cases (k.current == next)) [
  | inl e ↦ let p : next ≡ k.current = ground arith in rw p (ground arith)
  | inr e ↦ ground arith
]

-- The invariant holds again once a thread that left the run queue runs.
switch-IsQueued :
    {v w : View} (next : Ptr)
    → IsLeaving v
    → Turns v w next running
    → next ≢ null
    → w.current ≡ next
    → ((u : Ptr)
        → count u v.ready_list
          ≡ (if next == u then if next == v.idle then 0 else 1 else 0) + count u w.ready_list)
    → ((s : Ptr) → w.waiters s ≡ v.waiters s)
    → w.sleepers ≡ v.sleepers
    → IsQueued w
switch-IsQueued {v} {w} next l turns ne cur took waiters sleepers = record {
  consistent = record {
    null_dead = ground (arith, l.null_dead, turns.status 0);
    idle_exists = ground (arith, turns.idle, l.idle_exists);
    idle_free = turns.idle_frames;
    ready = λ u. ground (arith, took u, l.ready u, turns.status u, turns.idle);
    waiting = λ s u.
        ground (arith, took u, l.ready u, l.waiting s u, turns.status u, turns.idle, waiters s);
    one_wait = λ s s' u h h'. ground (arith, l.one_wait s s' u, waiters s, waiters s');
    sleeping =
        λ u. ground (arith, took u, l.ready u, sleepers, l.sleeping u, turns.status u, turns.idle);
    apart = λ s u h. ground (arith, sleepers, waiters s, l.apart s u);
  };
  runs = ground (arith, turns.status w.current);
  alone = λ u h. ground (arith, l.stopped u, turns.status u);
}

-- The states, the lists and the current thread after a switch.
switched-Turns :
    (next : Ptr) (k : Kernel) (l : List Ptr)
    → (k.threads k.idle_thread).frames ≡ []
    → Turns (view (record k { ready_list = l })) (view (switched next k)) next running
unfolding switched
switched-Turns next k l h = record {
  status = λ u. ground arith;
  idle = refl;
  idle_frames = ground arith;
}

pub schedule-idle : (k : Kernel) → k.ready_list ≡ [] → schedule k ≡ switch_to k.idle_thread k
unfolding schedule next_thread_to_run
schedule-idle k e = ground arith

pub schedule-first :
    (k : Kernel) (next : Ptr) (rest : List Ptr)
    → k.ready_list ≡ next ∷ rest
    → schedule k ≡ switch_to next (record k { ready_list = rest })
unfolding schedule next_thread_to_run
schedule-first k next rest e = ground arith

module _ (k : Kernel) (l : IsLeaving (view k)) where
  idle-IsQueued : k.ready_list ≡ [] → Succeeds (λ k'. IsQueued (view k')) (schedule k)
  unfolding switched
  idle-IsQueued e =
      rw (schedule-idle k e, switch_to-ok k.idle_thread k (l.stopped k.current) l.idle_exists)
        (switch-IsQueued k.idle_thread l (switched-Turns k.idle_thread k k.ready_list l.idle_free)
          l.idle_exists refl (λ u. ground arith) (λ s. refl) refl)

  first-IsQueued :
      (next : Ptr) (rest : List Ptr)
      → k.ready_list ≡ next ∷ rest
      → Succeeds (λ k'. IsQueued (view k')) (schedule k)
  unfolding switched
  first-IsQueued next rest e =
      let ne : next ≢ null = ground (arith, l.ready next, l.null_dead) in
      let ni : next ≢ k.idle_thread = ground (arith, l.ready next) in
      rw
        (
          schedule-first k next rest e,
          switch_to-ok next (record k { ready_list = rest }) (l.stopped k.current) ne,
        )
        (switch-IsQueued next l
          (switched-Turns next (record k { ready_list = rest }) k.ready_list l.idle_free) ne refl
          (λ u. ground (arith, e)) (λ s. refl) refl)

  -- `schedule` picks a thread, makes it current, and restores the invariant.
  pub schedule-IsQueued : Succeeds (λ k'. IsQueued (view k')) (schedule k)
  schedule-IsQueued = pick k.ready_list refl
    where
      pick : (q : List Ptr) → k.ready_list ≡ q → Succeeds (λ k'. IsQueued (view k')) (schedule k)
      pick [] e = idle-IsQueued e
      pick (next ∷ rest) e = first-IsQueued next rest e
