-- ===== src/Examples/Queued.antt =====
-- The scheduler's theorems at a kernel with six threads.
use gpintosy.Prelude.{refl, arith}
use gpintosy.Prelude.Int.{pos}
use gpintosy.Kernel.{Succeeds, priority_compare}
use gpintosy.Scheduler.{thread_test_yield}
use gpintosy.Scheduler.Order.{ReadySorted, TopPriority, thread_test_yield-TopPriority}
use gpintosy.Synch.{sema_down, sema_up}
use gpintosy.Timer.{timer_interrupt, intr_handler}
use gpintosy.Queues.{view, IsQueued}
use gpintosy.Queues.Wait.{sema_down-IsQueued, sema_up-IsQueued}
use gpintosy.Queues.Tick.{timer-IsQueued}
use gpintosy.Examples.Samples.{sample, sample-IsQueued}

sample-ReadySorted : ReadySorted (sample (pos 40))
unfolding priority_compare
sample-ReadySorted = ground arith

timer-IsQueued_example :
    Succeeds (λ k'. IsQueued (view k')) (intr_handler timer_interrupt (sample (pos 40)))
timer-IsQueued_example = timer-IsQueued (sample (pos 40)) (sample-IsQueued (pos 40)) refl

sema_up-IsQueued_example : Succeeds (λ k'. IsQueued (view k')) (sema_up 100 (sample (pos 40)))
sema_up-IsQueued_example = sema_up-IsQueued (sample (pos 40)) (sample-IsQueued (pos 40)) 100

sema_down-IsQueued_example : Succeeds (λ k'. IsQueued (view k')) (sema_down 100 (sample (pos 40)))
sema_down-IsQueued_example =
    sema_down-IsQueued (sample (pos 40)) (sample-IsQueued (pos 40)) 100 refl (ground arith)

thread_test_yield-TopPriority_example :
    Succeeds (λ k'. ReadySorted k' × TopPriority k') (thread_test_yield (sample (pos 40)))
thread_test_yield-TopPriority_example =
    thread_test_yield-TopPriority (sample (pos 40)) (sample-IsQueued (pos 40)) refl
      sample-ReadySorted
