-- ===== src/Scheduler/Order.antt =====
-- The order of the run queue, and who gets the processor.
use mathlib.Core.Path.{subst, fun_ext}
use gpintosy.Prelude.{
  ◌≤◌, ◌≡◌, ◌≢◌, refl, ap, false, inl, inr, List, [], ◌∷◌, arith, ◌==◌, Bool-cases, if◌then◌else◌,
}
use gpintosy.Prelude.Int.{ltb_ℤ, ◌≤ℤ◌}
use gpintosy.KernelList.Order.{IsSorted, insert_ordered-IsSorted}
use gpintosy.KernelList.Count.{count, Below-count}
use gpintosy.Kernel.{Ptr, ok, Succeeds, Kernel, priority_compare, thread_current}
use gpintosy.Priorities.{priority_compare-IsStrictOrder}
use gpintosy.Scheduler.{schedule, thread_yield, thread_test_yield}
use gpintosy.Queues.{IsQueued, IsLeaving, view}
use gpintosy.Queues.Run.{yielding, yielding-IsLeaving, thread_yield-leaves}
use gpintosy.Queues.Switch.{switched, switch_to-ok, schedule-first, schedule-idle}

-- The run queue is in descending order of priority.
abbrev pub ReadySorted : Kernel → Type 0
ReadySorted k = IsSorted (priority_compare k) k.ready_list

-- No ready thread has a higher priority than the current one.
abbrev pub TopPriority : Kernel → Type 0
TopPriority k =
    (u : Ptr) → 1 ≤ count u k.ready_list → (k.threads u).priority ≤ℤ (k.threads k.current).priority

-- Only priorities matter to the order.
ReadySorted_same :
    (k k' : Kernel)
    → ((u : Ptr) → (k'.threads u).priority ≡ (k.threads u).priority)
    → priority_compare k' ≡ priority_compare k
unfolding priority_compare
ReadySorted_same k k' h = fun_ext λ a. fun_ext λ b. ground (arith, h a, h b)

-- The first of a sorted run queue has the highest priority.
first_top :
    (k : Kernel) (t u : Ptr) (l : List Ptr)
    → IsSorted (priority_compare k) (t ∷ l)
    → 1 ≤ count u (t ∷ l)
    → (k.threads u).priority ≤ℤ (k.threads t).priority
unfolding priority_compare
first_top k t u l s h = ground (arith, Below-count (priority_compare k) t u l s.0)

module _ (k : Kernel) (l : IsLeaving (view k)) (s : ReadySorted k) where
  -- A switch to the first of a sorted run queue.
  first-TopPriority :
      (next : Ptr) (rest : List Ptr)
      → k.ready_list ≡ next ∷ rest
      → Succeeds (λ k'. ReadySorted k' × TopPriority k') (schedule k)
  unfolding switched
  first-TopPriority next rest e =
      let s' : IsSorted (priority_compare k) (next ∷ rest) =
        subst (IsSorted (priority_compare k)) e s in
      let ne : next ≢ 0 = ground (arith, l.ready next, l.null_dead, e) in
      rw
        (
          schedule-first k next rest e,
          switch_to-ok next (record k { ready_list = rest }) (l.stopped k.current) ne,
        )
        (
          rw
              (ReadySorted_same k (switched next (record k { ready_list = rest }))
                (λ u. ground arith))
              s'.1,
          λ u h. ground (arith, first_top k next u rest s'),
        )

  none-TopPriority :
      k.ready_list ≡ [] → Succeeds (λ k'. ReadySorted k' × TopPriority k') (schedule k)
  unfolding switched
  none-TopPriority e =
      rw (schedule-idle k e, switch_to-ok k.idle_thread k (l.stopped k.current) l.idle_exists)
        (rw e tt, λ u h. absurd (ground (arith, e)))

  schedule-TopPriority : Succeeds (λ k'. ReadySorted k' × TopPriority k') (schedule k)
  schedule-TopPriority = pick k.ready_list refl
    where
      pick :
          (q : List Ptr)
          → k.ready_list ≡ q
          → Succeeds (λ k'. ReadySorted k' × TopPriority k') (schedule k)
      pick [] e = none-TopPriority e
      pick (next ∷ rest) e = first-TopPriority next rest e

yielding-ReadySorted : (k : Kernel) → ReadySorted k → ReadySorted (yielding k)
yielding-ReadySorted k s =
    rw (ReadySorted_same k (yielding k) (λ u. ground arith))
      (elim (Bool-cases (k.current == k.idle_thread)) [
        | inl e ↦ rw e s
        | inr e ↦ rw e (
            insert_ordered-IsSorted (priority_compare k) (priority_compare-IsStrictOrder k)
              k.ready_list k.current s)
      ])

module _ (k : Kernel) (q : IsQueued (view k)) (e : k.in_external_intr ≡ false)
    (s : ReadySorted k) where
  test_yield-none : k.ready_list ≡ [] → thread_test_yield k ≡ ok k
  unfolding thread_test_yield
  test_yield-none n = ground arith

  test_yield-first :
      (front : Ptr) (l : List Ptr)
      → k.ready_list ≡ front ∷ l
      → thread_test_yield k ≡ (
          if ltb_ℤ (k.threads k.current).priority (k.threads front).priority
          then thread_yield k
          else ok k)
  unfolding thread_test_yield thread_current
  test_yield-first front l n = ground (arith, e, q.runs)

  stays-TopPriority :
      (front : Ptr) (l : List Ptr)
      → k.ready_list ≡ front ∷ l
      → ltb_ℤ (k.threads k.current).priority (k.threads front).priority ≡ false
      → TopPriority k
  stays-TopPriority front l n h u i =
      ground
        (arith, first_top k front u l (subst (IsSorted (priority_compare k)) n s), ap (count u) n)

  -- Outside an interrupt, in a kernel with consistent queues whose run queue is in descending order
  -- of priority, `thread_test_yield` succeeds; after it the run queue is in order again and no
  -- ready thread has a higher priority than the current one.
  pub thread_test_yield-TopPriority :
      Succeeds (λ k'. ReadySorted k' × TopPriority k') (thread_test_yield k)
  thread_test_yield-TopPriority = look k.ready_list refl
    where
      look :
          (l : List Ptr)
          → k.ready_list ≡ l
          → Succeeds (λ k'. ReadySorted k' × TopPriority k') (thread_test_yield k)
      look [] n = rw (test_yield-none n) (s, λ u h. absurd (ground (arith, n)))
      look (front ∷ l) n =
          elim (Bool-cases (ltb_ℤ (k.threads k.current).priority (k.threads front).priority)) [
            | inl h ↦
                rw (test_yield-first front l n, h, thread_yield-leaves k q e)
                  (schedule-TopPriority (yielding k) (yielding-IsLeaving k q)
                    (yielding-ReadySorted k s))
            | inr h ↦ rw (test_yield-first front l n, h) (s, stays-TopPriority front l n h)
          ]
