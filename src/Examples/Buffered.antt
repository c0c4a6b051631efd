-- ===== src/Examples/Buffered.antt =====
-- The theorems on the circular buffer at three bytes that stand across its end. The blocked thread 5
-- is the one that waits.
use gpintosy.Prelude.{refl, inr, ◌==◌, if◌then◌else◌, arith}
use gpintosy.Prelude.Int.{pos}
use gpintosy.Kernel.{Succeeds}
use gpintosy.Intq.{Intq, intq_getc, intq_putc}
use gpintosy.Intq.Fifo.{IsIntq, IsPut, IsGot, IsBlocked, intq_putc-IsPut, intq_getc-IsGot}
use gpintosy.Examples.Samples.{sample}

abbrev queue : Intq
queue = record {
  not_full = 5;
  not_empty = 5;
  buf = λ i. if i == 63 then 65 else 66;
  head = 2;
  tail = 63;
}

queue-IsIntq : IsIntq queue
queue-IsIntq = record { head = omega arith; tail = omega arith }

waiting-IsBlocked : IsBlocked 5 (sample (pos 20))
waiting-IsBlocked = inr refl

intq_putc-IsPut_example :
    Succeeds (IsPut 67 queue (sample (pos 20))) (intq_putc 67 queue (sample (pos 20)))
intq_putc-IsPut_example =
    intq_putc-IsPut queue (sample (pos 20)) queue-IsIntq refl 67 waiting-IsBlocked

intq_getc-IsGot_example :
    Succeeds (IsGot queue (sample (pos 20))) (intq_getc queue (sample (pos 20)))
intq_getc-IsGot_example =
    intq_getc-IsGot queue (sample (pos 20)) queue-IsIntq refl waiting-IsBlocked
