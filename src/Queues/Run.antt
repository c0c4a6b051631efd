-- ===== src/Queues/Run.antt =====
-- The functions of thread.c that move threads between the queues keep the invariant, and none of
-- their assertions fails.
use gpintosy.Prelude.{
  ◌≡◌, ◌≢◌, refl, sym, ◌∙◌, true, false, arith, ◌==◌, ◌⊎◌, inl, inr, if◌then◌else◌,
}
use mathlib.Core.Bool.{false≢true}
use gpintosy.KernelList.{insert_ordered}
use gpintosy.KernelList.Count.{count, count-insert_ordered}
use gpintosy.Kernel.{
  Ptr, null, ok, ready, blocked, dying, Kernel, set_status, priority_compare, thread_current,
  is_thread,
}
use gpintosy.Scheduler.{
  schedule, thread_block, thread_unblock, thread_yield, thread_test_yield, thread_exit,
}
use gpintosy.Kernel.{Succeeds, Succeeds-mono}
use gpintosy.Queues.Defs.{view, IsQueued, IsLeaving}
use gpintosy.Queues.Moves.{wake-IsQueued, yield-IsLeaving, halt-IsLeaving}
use gpintosy.Queues.Switch.{schedule-IsQueued}

-- In an interrupt the current thread stays, and so do the sleepers.
abbrev pub StaysInInterrupt : Kernel → Kernel → Type 0
StaysInInterrupt k k' =
    k.in_external_intr ≡ true
    → (k'.in_external_intr ≡ true) × (k'.sleep_list ≡ k.sleep_list) × (k'.current ≡ k.current)

-- Right before the switch of `thread_yield`.
abbrev pub yielding : Kernel → Kernel
yielding k =
    let queue =
      if k.current == k.idle_thread
      then k.ready_list
      else insert_ordered (priority_compare k) k.ready_list k.current in
    set_status (record k { ready_list = queue }) k.current ready

-- The invariant, with the current thread, the sleep list and the interrupt context as they were.
abbrev pub QueuedAlike : Kernel → Kernel → Type 0
QueuedAlike k k' =
    IsQueued (view k')
    × (k'.current ≡ k.current)
    × (k'.in_external_intr ≡ k.in_external_intr)
    × (k'.sleep_list ≡ k.sleep_list)

module _ (k : Kernel) (q : IsQueued (view k)) where
  -- A blocked thread on no list becomes ready.
  pub thread_unblock-IsQueued :
      (t : Ptr)
      → (k.threads t).status ≡ blocked
      → t ≢ k.idle_thread
      → ((s : Ptr) → count t (k.semas s).waiters ≡ 0)
      → count t k.sleep_list ≡ 0
      → Succeeds (QueuedAlike k) (thread_unblock t k)
  unfolding thread_unblock is_thread
  thread_unblock-IsQueued t b ni nw ns =
      let nn : (t == null) ≡ false = ground (arith, q.null_dead) in
      rw (nn, b)
        (
          wake-IsQueued q {t = t}
              (record {
                status = λ u. ground arith;
                idle = refl;
                idle_frames = ground (arith, q.idle_free);
              })
              (record { waiters = λ s u. omega arith; sleepers = λ u. omega arith }) refl b ni nw ns
              (λ u. count-insert_ordered (priority_compare k) u t k.ready_list),
          refl,
          refl,
          refl,
        )

  pub thread_yield-leaves : k.in_external_intr ≡ false → thread_yield k ≡ schedule (yielding k)
  unfolding thread_yield thread_current
  thread_yield-leaves e = simp (q.runs, e)

  pub yielding-IsLeaving : IsLeaving (view (yielding k))
  yielding-IsLeaving =
      yield-IsLeaving q
        (record {
          status = λ u. ground arith;
          idle = refl;
          idle_frames = ground (arith, q.idle_free);
        })
        (record { waiters = λ s u. omega arith; sleepers = λ u. omega arith })
        λ u. ground (arith, count-insert_ordered (priority_compare k) u k.current k.ready_list)

  -- Outside an interrupt, in a kernel with consistent queues, `thread_yield` fails no assertion and
  -- leaves consistent queues, with a thread running.
  pub thread_yield-IsQueued :
      k.in_external_intr ≡ false → Succeeds (λ k'. IsQueued (view k')) (thread_yield k)
  thread_yield-IsQueued e = rw (thread_yield-leaves e) (schedule-IsQueued _ yielding-IsLeaving)

  pub test_yield-cases :
      (thread_test_yield k ≡ ok k)
      ⊎ ((k.in_external_intr ≡ true)
          × (thread_test_yield k ≡ ok (record k { yield_on_return = true })))
      ⊎ ((k.in_external_intr ≡ false) × (thread_test_yield k ≡ thread_yield k))
  unfolding thread_test_yield thread_current
  test_yield-cases = ground (arith, q.runs)

  -- The current thread yields, or stays, or in an interrupt asks for a switch at its end.
  pub thread_test_yield-IsQueued :
      Succeeds (λ k'. IsQueued (view k') × StaysInInterrupt k k') (thread_test_yield k)
  thread_test_yield-IsQueued = elim test_yield-cases [
    | inl e ↦ rw e (q, λ h. (h, refl, refl))
    | inr (inl (i, e)) ↦ rw e (q, λ h. (h, refl, refl))
    | inr (inr (i, e)) ↦ rw e (
        Succeeds-mono (λ k'. IsQueued (view k')) (λ k'. IsQueued (view k') × StaysInInterrupt k k')
          _ (thread_yield-IsQueued i) λ a h. (h, λ j. absurd (false≢true (sym i ∙ j))))
  ]

  -- Outside an interrupt, in a kernel with consistent queues, `thread_exit` fails no assertion and
  -- leaves consistent queues, on which the thread that exits is not, with another thread running.
  pub thread_exit-IsQueued :
      k.in_external_intr ≡ false → Succeeds (λ k'. IsQueued (view k')) (thread_exit k)
  unfolding thread_exit thread_current
  thread_exit-IsQueued e =
      rw (q.runs, e)
        (schedule-IsQueued _ (
          halt-IsLeaving q dying (ground arith) (ground arith)
            (record {
              status = λ u. ground arith;
              idle = refl;
              idle_frames = ground (arith, q.idle_free);
            })
            (record { waiters = λ s u. omega arith; sleepers = λ u. omega arith }) refl))

  -- The idle thread, and any thread that blocks with no one to wake it.
  pub thread_block-IsQueued :
      k.in_external_intr ≡ false → Succeeds (λ k'. IsQueued (view k')) (thread_block k)
  unfolding thread_block thread_current
  thread_block-IsQueued e =
      rw (q.runs, e)
        (schedule-IsQueued _ (
          halt-IsLeaving q blocked (ground arith) (ground arith)
            (record {
              status = λ u. ground arith;
              idle = refl;
              idle_frames = ground (arith, q.idle_free);
            })
            (record { waiters = λ s u. omega arith; sleepers = λ u. omega arith }) refl))
