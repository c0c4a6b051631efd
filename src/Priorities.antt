-- ===== src/Priorities.antt =====
-- The comparison functions of thread.c and timer.c are strict orders.
use gpintosy.Prelude.{arith}
use gpintosy.KernelList.Order.{IsStrictOrder}
use gpintosy.Kernel.{Kernel, priority_compare}
use gpintosy.Donation.{donor_priority_compare}
use gpintosy.Timer.{cmp_wakeup_ticks}

pub priority_compare-IsStrictOrder : (k : Kernel) → IsStrictOrder (priority_compare k)
unfolding priority_compare
priority_compare-IsStrictOrder k = record {
  asym = λ a b h. ground arith;
  trans = λ a b c h i. ground arith;
}

pub donor_priority_compare-IsStrictOrder : (k : Kernel) → IsStrictOrder (donor_priority_compare k)
unfolding donor_priority_compare
donor_priority_compare-IsStrictOrder k = record {
  asym = λ a b h. ground arith;
  trans = λ a b c h i. ground arith;
}

pub cmp_wakeup_ticks-IsStrictOrder : (k : Kernel) → IsStrictOrder (cmp_wakeup_ticks k)
unfolding cmp_wakeup_ticks
cmp_wakeup_ticks-IsStrictOrder k = record {
  asym = λ a b h. ground arith;
  trans = λ a b c h i. ground arith;
}
