-- ===== src/Synch.antt =====
-- src/threads/synch.c: semaphores, locks and condition variables.
--
-- Each function is a step of the current thread, up to where it may lose the processor or turns
-- interrupts on; what is left for later is a frame.
use gpintosy.Prelude.{ℕ, ◌+◌, ◌-◌, Bool, true, false, not, List, [], ◌∷◌, ◌++◌, ◌==◌, if◌then◌else◌}
use gpintosy.Prelude.Int.{ltb_ℤ}
use gpintosy.KernelList.{insert_ordered, list_sort}
use gpintosy.Kernel.{
  Ptr, null, Result, ok, undefined, ◌>>=◌, ◌>>◌, assert, down_again, lock_taken, lock_up,
  lock_given, cond_relock, cond_more, Kernel, update, set_thread, set_sema, push_frame,
  priority_compare, thread_current,
}
use gpintosy.Scheduler.{thread_block, thread_unblock, thread_test_yield}
use gpintosy.Donation.{thread_nested_donation, thread_recall_donation}

unfoldable pub sema_init : Ptr → ℕ → Kernel → Kernel
sema_init sema value k = set_sema k sema (record { value = value; waiters = [] })

-- One round of the loop: the thread blocks, to test again when it wakes, or takes a unit.
unfoldable pub sema_down : Ptr → Kernel → Result Kernel
sema_down sema k = do
  assert (not k.in_external_intr)
  let s = k.semas sema
  if s.value == 0
      then (do
        cur ← thread_current k
        let k = set_sema k sema (record s { waiters = s.waiters ++ cur ∷ [] })
        thread_block (push_frame k (down_again sema)))
      else ok (set_sema k sema (record s { value = s.value - 1 }))

unfoldable pub sema_try_down : Ptr → Kernel → Bool × Kernel
sema_try_down sema k =
    let s = k.semas sema in
    if s.value == 0 then (false, k) else (true, set_sema k sema (record s { value = s.value - 1 }))

-- The waiter of the highest priority wakes.
unfoldable pub wake_waiter : Ptr → Kernel → Result Kernel
wake_waiter sema k =
    let s = k.semas sema in
    elim (list_sort (priority_compare k) s.waiters) [
      | [] ↦ ok k
      | t ∷ l ↦ thread_unblock t (set_sema k sema (record s { waiters = l }))
    ]

unfoldable pub sema_up : Ptr → Kernel → Result Kernel
sema_up sema k = do
  k ← wake_waiter sema k
  let s = k.semas sema
  thread_test_yield (set_sema k sema (record s { value = s.value + 1 }))

unfoldable pub lock_init : Ptr → Kernel → Kernel
lock_init lock k = sema_init lock 1 (record k { holders = update k.holders lock null })

unfoldable pub lock_held_by_current_thread : Ptr → Kernel → Result Bool
lock_held_by_current_thread lock k = do cur ← thread_current k; ok (k.holders lock == cur)

-- `priority_compare` on two `donors_elem`: as it takes them for the `elem` of threads, it reads the
-- word that is as far from the priority as `donors_elem` is from `elem`.
unfoldable pub misread_compare : Kernel → Ptr → Ptr → Bool
misread_compare k a b = ltb_ℤ (k.elem_nexts b) (k.elem_nexts a)

-- The thread becomes a donor of the holder, and its priority goes up the chain of holders.
unfoldable pub become_donor : Ptr → Kernel → Result Kernel
become_donor lock k = do
  cur ← thread_current k
  let holder = k.holders lock
  if holder == null then ok k else (do
    let k = set_thread k cur (record (k.threads cur) { waiting_on_lock = lock })
    let t = k.threads holder
    let donors = insert_ordered (misread_compare k) t.donors_list cur
    thread_nested_donation (set_thread k holder (record t { donors_list = donors })))

-- Up to the `sema_down`. `down_again` and `lock_taken` are the rest.
unfoldable pub lock_acquire : Ptr → Kernel → Result Kernel
lock_acquire lock k =
    if k.thread_mlfqs
    then ok (push_frame (push_frame k (lock_taken lock)) (down_again lock))
    else do
      assert (not k.in_external_intr)
      held ← lock_held_by_current_thread lock k
      assert (not held)
      k ← become_donor lock k
      ok (push_frame (push_frame k (lock_taken lock)) (down_again lock))

-- After the `sema_down` of `lock_acquire`.
unfoldable pub lock_acquired : Ptr → Kernel → Result Kernel
lock_acquired lock k = do
  cur ← thread_current k
  let k =
      if k.thread_mlfqs
      then k
      else set_thread k cur (record (k.threads cur) { waiting_on_lock = null })
  ok (record k { holders = update k.holders lock cur })

unfoldable pub lock_try_acquire : Ptr → Kernel → Result (Bool × Kernel)
lock_try_acquire lock k = do
  held ← lock_held_by_current_thread lock k
  assert (not held)
  let (success, k) = sema_try_down lock k
  cur ← thread_current k
  ok (success, if success then record k { holders = update k.holders lock cur } else k)

-- Up to the `sema_up`. `lock_up` and `lock_given` are the rest.
unfoldable pub lock_release : Ptr → Kernel → Result Kernel
lock_release lock k = do
  held ← lock_held_by_current_thread lock k
  assert held
  k ← if k.thread_mlfqs then ok k else thread_recall_donation lock k
  let k = record k { holders = update k.holders lock null }
  ok (push_frame (push_frame k (lock_given lock)) (lock_up lock))

-- After the `sema_up` of `lock_release`.
unfoldable pub lock_released : Ptr → Kernel → Result Kernel
lock_released lock k = elim ((k.semas lock).waiters) [ [] ↦ ok k | t ∷ l ↦ thread_test_yield k ]

unfoldable pub cond_init : Ptr → Kernel → Kernel
cond_init cond k = record k { conds = update k.conds cond [] }

-- `waiter` is the address of the semaphore in the caller's `struct semaphore_elem`. The steps after
-- the first part of `lock_release` are frames.
unfoldable pub cond_wait : Ptr → Ptr → Ptr → Kernel → Result Kernel
cond_wait cond lock waiter k = do
  assert (not k.in_external_intr)
  held ← lock_held_by_current_thread lock k
  assert held
  let k = sema_init waiter 0 k
  let k = record k { conds = update k.conds cond (k.conds cond ++ waiter ∷ []) }
  lock_release lock (push_frame (push_frame k (cond_relock lock)) (down_again waiter))

-- The first waiters are compared. A semaphore without waiters has none: `comparable` excludes it.
unfoldable pub first_less : Kernel → List Ptr → List Ptr → Bool
first_less k (s ∷ _) (t ∷ _) = ltb_ℤ (k.threads t).priority (k.threads s).priority
first_less k _ _ = false

unfoldable pub cond_priority_compare : Kernel → Ptr → Ptr → Bool
cond_priority_compare k a b = first_less k (k.semas a).waiters (k.semas b).waiters

-- Whether every semaphore has a first waiter.
unfoldable pub all_waited : Kernel → List Ptr → Bool
all_waited k [] = true
all_waited k (s ∷ l) = elim ((k.semas s).waiters) [ [] ↦ false | t ∷ w ↦ all_waited k l ]

-- Whether a sort of these semaphores compares threads only: one alone is not compared.
unfoldable pub comparable : Kernel → List Ptr → Bool
comparable k [] = true
comparable k (s ∷ []) = true
comparable k (s ∷ t ∷ l) = all_waited k (s ∷ t ∷ l)

-- In a sort of two or more, `list_begin` of a semaphore without waiters points at no thread.
unfoldable pub cond_signal : Ptr → Ptr → Kernel → Result Kernel
cond_signal cond lock k = do
  assert (not k.in_external_intr)
  held ← lock_held_by_current_thread lock k
  assert held
  if comparable k (k.conds cond)
      then elim (list_sort (cond_priority_compare k) (k.conds cond)) [
        | [] ↦ ok k
        | waiter ∷ l ↦ sema_up waiter (record k { conds = update k.conds cond l })
      ]
      else undefined

-- One round of the loop; `cond_more` is the rest.
unfoldable pub cond_broadcast : Ptr → Ptr → Kernel → Result Kernel
cond_broadcast cond lock k = elim (k.conds cond) [
  | [] ↦ ok k
  | waiter ∷ l ↦ cond_signal cond lock (push_frame k (cond_more cond lock))
]
