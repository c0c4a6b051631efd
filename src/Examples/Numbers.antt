-- ===== src/Examples/Numbers.antt =====
-- The theorems on the feedback queue scheduler's numbers at concrete numbers.
use gpintosy.Prelude.{◌≡◌, true, arith}
use gpintosy.Prelude.Int.{pos, negsuc, ltb_ℤ}
use gpintosy.Scheduler.{pri_max}
use gpintosy.Mlfqs.{priority_of}
use gpintosy.Mlfqs.Range.{priority_of-above}

priority_of-above_example : ltb_ℤ pri_max (priority_of (pos 0) (negsuc 19)) ≡ true
priority_of-above_example = priority_of-above 0 19 (omega arith) (omega arith)
