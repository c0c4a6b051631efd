-- ===== src/Donation.antt =====
-- src/threads/thread.c: priority donation, and the priority that a thread sets for itself.
pub mod Chain
pub mod Restore
use gpintosy.Prelude.{ℕ, zero, suc, Bool, not, ◌||◌, [], ◌∷◌, ◌==◌, keep, if◌then◌else◌}
use gpintosy.Prelude.Int.{ℤ, ltb_ℤ}
use gpintosy.KernelList.{list_sort}
use gpintosy.Kernel.{Ptr, null, Result, ok, ◌>>=◌, Kernel, set_thread, set_priority, thread_current}
use gpintosy.Scheduler.{thread_test_yield}

abbrev pub max_depth : ℕ
max_depth = 8

-- The loop, with the rounds that are left and the donor that it has come to. It ends where a chain
-- ends, and at a holder whose priority is no lower.
unfoldable pub donate : ℕ → Ptr → Kernel → Kernel
donate zero cur k = k
donate (suc depth) cur k =
    let lock = (k.threads cur).waiting_on_lock in
    let holder = k.holders lock in
    let priority = (k.threads cur).priority in
    let more = donate depth holder (set_priority k holder priority) in
    if lock == null
    then k
    else if holder == null || not (ltb_ℤ (k.threads holder).priority priority)
    then k
    else more

unfoldable pub thread_nested_donation : Kernel → Result Kernel
thread_nested_donation k = do cur ← thread_current k; ok (donate max_depth cur k)

-- `donor_priority_compare` orders the threads of a donor list as `priority_compare` does.
unfoldable pub donor_priority_compare : Kernel → Ptr → Ptr → Bool
donor_priority_compare k a b = ltb_ℤ (k.threads b).priority (k.threads a).priority

-- The base priority, or the highest donor's if that is higher; the donors get sorted.
unfoldable pub restore_priority : Ptr → Kernel → Kernel
restore_priority cur k =
    let t = k.threads cur in
    let k = set_priority k cur t.base_priority in
    elim (list_sort (donor_priority_compare k) t.donors_list) [
      | [] ↦ k
      | max_donor ∷ l ↦
          let p = (k.threads max_donor).priority in
          let priority = if ltb_ℤ t.base_priority p then p else t.base_priority in
          set_thread k cur (record t { donors_list = max_donor ∷ l; priority = priority })
    ]

-- The donors that wait for `lock` leave the list.
unfoldable pub thread_recall_donation : Ptr → Kernel → Result Kernel
thread_recall_donation lock k = do
  cur ← thread_current k
  let t = k.threads cur
  let others = keep (λ d. not ((k.threads d).waiting_on_lock == lock)) t.donors_list
  ok (restore_priority cur (set_thread k cur (record t { donors_list = others })))

unfoldable pub thread_set_priority : ℤ → Kernel → Result Kernel
thread_set_priority new_priority k = if k.thread_mlfqs then ok k else do
  cur ← thread_current k
  let old_priority = (k.threads cur).priority
  let k =
      restore_priority cur
        (set_thread k cur (record (k.threads cur) { base_priority = new_priority }))
  if ltb_ℤ (k.threads cur).priority old_priority then thread_test_yield k else ok k

unfoldable pub thread_get_priority : Kernel → Result ℤ
thread_get_priority k = do cur ← thread_current k; ok (k.threads cur).priority
