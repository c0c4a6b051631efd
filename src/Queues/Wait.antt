-- ===== src/Queues/Wait.antt =====
-- The semaphores of synch.c and the sleep list of timer.c keep the invariant of the queues.
use gpintosy.Prelude.{◌+◌, ◌-◌, ◌≡◌, ◌≢◌, refl, sym, ap, ◌∙◌, false, List, [], ◌∷◌, ◌++◌, arith}
use native.Mathlib.Decide.{ℕ_discrete}
use gpintosy.Prelude.Int.{ℤ, pos, ◌+ℤ◌}
use gpintosy.KernelList.{insert_ordered, list_sort}
use gpintosy.KernelList.Count.{count, count-append, count-insert_ordered, count-list_sort}
use gpintosy.Kernel.{
  Ptr, ok, blocked, Kernel, set_sema, set_thread, priority_compare, set_status, thread_current,
  down_again, push_frame,
}
use gpintosy.Scheduler.{thread_block, thread_unblock, schedule}
use gpintosy.Synch.{sema_down, wake_waiter, sema_up}
use gpintosy.Timer.{timer_sleep, cmp_wakeup_ticks}
use gpintosy.Priorities.{priority_compare-IsStrictOrder}
use gpintosy.Kernel.{Succeeds, Succeeds-mono, Succeeds-bind}
use gpintosy.Queues.Defs.{view, IsQueued}
use gpintosy.Queues.Moves.{same-IsQueued, wait-IsLeaving, sleep-IsLeaving}
use gpintosy.Queues.Switch.{schedule-IsQueued}
use gpintosy.Queues.Run.{
  QueuedAlike, StaysInInterrupt, thread_unblock-IsQueued, thread_test_yield-IsQueued,
}

-- The current thread on the list of a semaphore, with the loop of `sema_down` to go on with.
abbrev waiting : Ptr → Kernel → Kernel
waiting sema k =
    let s = k.semas sema in
    let k = set_sema k sema (record s { waiters = s.waiters ++ k.current ∷ [] }) in
    set_status (push_frame k (down_again sema)) k.current blocked

abbrev alarmed : ℤ → Kernel → Kernel
alarmed ticks k =
    set_thread k k.current (record (k.threads k.current) { wakeup_ticks = pos k.ticks +ℤ ticks })

-- The current thread on the sleep list.
abbrev asleep : ℤ → Kernel → Kernel
asleep ticks k =
    let k = alarmed ticks k in
    set_status
      (record k { sleep_list = insert_ordered (cmp_wakeup_ticks k) k.sleep_list k.current })
      k.current blocked

module _ (k : Kernel) (q : IsQueued (view k)) where
  sema_down-blocks :
      (sema : Ptr)
      → k.in_external_intr ≡ false
      → (k.semas sema).value ≡ 0
      → sema_down sema k ≡ schedule (waiting sema k)
  unfolding sema_down thread_block thread_current
  sema_down-blocks sema e z = ground (arith, q.runs)

  sema_down-takes :
      (sema : Ptr)
      → k.in_external_intr ≡ false
      → (k.semas sema).value ≢ 0
      → sema_down sema k
        ≡ ok (set_sema k sema (record (k.semas sema) { value = (k.semas sema).value - 1 }))
  unfolding sema_down
  sema_down-takes sema e z = ground arith

  -- Outside an interrupt, in a kernel with consistent queues, a round of `sema_down` by a thread
  -- other than the idle thread fails no assertion and leaves consistent queues, whether it takes a
  -- unit or blocks on the semaphore's list.
  pub sema_down-IsQueued :
      (sema : Ptr)
      → k.in_external_intr ≡ false
      → k.current ≢ k.idle_thread
      → Succeeds (λ k'. IsQueued (view k')) (sema_down sema k)
  sema_down-IsQueued sema e ni = elim (ℕ_discrete (k.semas sema).value 0) [
    | yes z ↦ rw (sema_down-blocks sema e z) (
        schedule-IsQueued _ (
          wait-IsLeaving q sema ni
            (record {
              status = λ u. ground arith;
              idle = refl;
              idle_frames = ground (arith, q.idle_free);
            })
            refl refl
            λ s u. ground (arith, count-append u (k.semas sema).waiters (k.current ∷ []))))
    | no z ↦ rw (sema_down-takes sema e z) (
        same-IsQueued q (λ u. refl) refl refl q.idle_free refl
          (record { waiters = λ s u. ground arith; sleepers = λ u. omega arith }))
  ]

  timer_sleep-blocks :
      (ticks : ℤ) → k.in_external_intr ≡ false → timer_sleep ticks k ≡ schedule (asleep ticks k)
  unfolding timer_sleep thread_block thread_current
  timer_sleep-blocks ticks e = ground (arith, q.runs)

  -- Outside an interrupt, in a kernel with consistent queues, `timer_sleep` by a thread other than
  -- the idle thread fails no assertion and leaves consistent queues, for any number of ticks.
  pub timer_sleep-IsQueued :
      (ticks : ℤ)
      → k.in_external_intr ≡ false
      → k.current ≢ k.idle_thread
      → Succeeds (λ k'. IsQueued (view k')) (timer_sleep ticks k)
  timer_sleep-IsQueued ticks e ni = rw (timer_sleep-blocks ticks e) (
      schedule-IsQueued _ (
        sleep-IsLeaving q ni
          (record {
            status = λ u. ground arith;
            idle = refl;
            idle_frames = ground (arith, q.idle_free);
          })
          refl (λ s u. omega arith)
          λ u. count-insert_ordered (cmp_wakeup_ticks (alarmed ticks k)) u k.current k.sleep_list))

  -- What the invariant says of the first of a semaphore's waiters, once it has left the list.
  module _ (sema t : Ptr) (l : List Ptr)
      (same : (u : Ptr) → count u (t ∷ l) ≡ count u (k.semas sema).waiters) where
    rest_waits : Kernel
    rest_waits = set_sema k sema (record (k.semas sema) { waiters = l })

    rest_waits-IsQueued : IsQueued (view rest_waits)
    unfolding rest_waits
    rest_waits-IsQueued =
        same-IsQueued q (λ u. refl) refl refl q.idle_free refl
          (record { waiters = λ s u. ground (arith, same u); sleepers = λ u. omega arith })

    wake_first : Succeeds (QueuedAlike k) (thread_unblock t rest_waits)
    unfolding rest_waits
    wake_first =
        thread_unblock-IsQueued rest_waits rest_waits-IsQueued t
          (ground (arith, same t, q.waiting sema t)) (ground (arith, same t, q.waiting sema t))
          (λ s. ground (arith, same t, q.waiting sema t, q.one_wait s sema t))
          (ground (arith, same t, q.waiting sema t, q.apart sema t))

  -- The waiter that `sema_up` wakes becomes ready, and the list is one shorter.
  pub wake_waiter-IsQueued : (sema : Ptr) → Succeeds (QueuedAlike k) (wake_waiter sema k)
  unfolding wake_waiter rest_waits
  wake_waiter-IsQueued sema = first (list_sort (priority_compare k) (k.semas sema).waiters) refl
    where
      first :
          (l : List Ptr)
          → list_sort (priority_compare k) (k.semas sema).waiters ≡ l
          → Succeeds (QueuedAlike k) (wake_waiter sema k)
      first [] e = rw (e, wake_waiter) (q, refl, refl, refl)
      first (t ∷ l) e =
          rw (e, wake_waiter)
            (wake_first sema t l λ u.
              ap (count u) (sym e)
              ∙ count-list_sort (priority_compare k) (priority_compare-IsStrictOrder k) u
                  (k.semas sema).waiters)

-- In a kernel with consistent queues, `sema_up` of any semaphore, also in an interrupt, fails no
-- assertion and leaves consistent queues.
pub sema_up-IsQueued :
    (k : Kernel)
    → IsQueued (view k)
    → (sema : Ptr) → Succeeds (λ k'. IsQueued (view k')) (sema_up sema k)
unfolding sema_up
sema_up-IsQueued k q sema =
    Succeeds-bind (QueuedAlike k) (λ k'. IsQueued (view k')) _ _ (wake_waiter-IsQueued k q sema)
      λ k1 (q1, _, _, _).
        let s = k1.semas sema in
        let k2 = set_sema k1 sema (record s { value = s.value + 1 }) in
        Succeeds-mono (λ k'. IsQueued (view k') × StaysInInterrupt k2 k') (λ k'. IsQueued (view k'))
          _
          (thread_test_yield-IsQueued k2 (
            same-IsQueued q1 (λ u. refl) refl refl q1.idle_free refl
              (record { waiters = λ s u. ground arith; sleepers = λ u. omega arith })))
          λ k3 h. h.0
