-- ===== src/Examples/Donated.antt =====
-- The theorems on donation at a kernel in which thread 2 waits for the lock 200, which thread 4
-- holds.
use gpintosy.Prelude.{◌≡◌, ◌≢◌, refl, true, [], ◌∷◌, arith}
use gpintosy.Prelude.Int.{pos, ltb_ℤ}
use gpintosy.Kernel.{Ptr, Kernel, set_thread, Succeeds}
use gpintosy.Scheduler.{next_thread_to_run}
use gpintosy.Donation.{donate, max_depth, thread_recall_donation}
use gpintosy.Donation.Chain.{
  priority, blocker, NoInversion, Ends, donate-NoInversion, donate-queue_order,
}
use gpintosy.Donation.Restore.{IsRecalled, thread_recall_donation-IsRecalled}
use gpintosy.Examples.Samples.{sample}

abbrev waiting : Kernel
waiting = let k = sample (pos 25) in set_thread k 2 (record (k.threads 2) { waiting_on_lock = 200 })

-- Thread 2 has the donors 4, which waits for the lock 300, and 5.
abbrev holding : Kernel
holding =
    let k = sample (pos 25) in
    let k = set_thread k 4 (record (k.threads 4) { waiting_on_lock = 300 }) in
    set_thread k 2 (record (k.threads 2) { donors_list = 5 ∷ 4 ∷ [] })

waiting-Ends : Ends waiting max_depth 2
unfolding blocker
waiting-Ends = λ b b'. absurd (ground arith)

others-NoInversion : (u : Ptr) → u ≢ 2 → NoInversion waiting u
unfolding blocker
others-NoInversion u ne = ground arith

donate-NoInversion_example : NoInversion (donate max_depth 2 waiting) 2
donate-NoInversion_example =
    donate-NoInversion max_depth 2 waiting waiting-Ends others-NoInversion 2

donate-queue_order_example :
    let k' = donate 8 2 waiting in
    (priority k' 4 ≡ priority waiting 2)
    × (ltb_ℤ (priority k' 3) (priority k' 4) ≡ true)
    × ((next_thread_to_run k').0 ≡ 3)
unfolding blocker
donate-queue_order_example =
    donate-queue_order waiting 7 2 3 4 refl (ground arith) refl (ground arith) refl refl refl

thread_recall_donation-IsRecalled_example :
    Succeeds (IsRecalled 300 holding) (thread_recall_donation 300 holding)
thread_recall_donation-IsRecalled_example = thread_recall_donation-IsRecalled holding 300 refl refl
