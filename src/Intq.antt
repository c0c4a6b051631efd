-- ===== src/Intq.antt =====
-- src/devices/intq.c: the circular buffer between an interrupt handler and threads.
--
-- A call that has to wait ends there: `none` is for a thread that sleeps until the other side has
-- made room or added a byte. The lock among the waiting threads and
-- the checks of the interrupt level are left out.
pub mod Fifo
use gpintosy.Prelude.{
  ℕ, ◌+◌, ◌-◌, ◌%◌, ◌≡◌, Bool, true, false, not, Option, none, some, ◌==◌, if◌then◌else◌,
}
use gpintosy.Kernel.{Ptr, null, Kernel, Result, ok, ◌>>=◌, ◌>>◌, assert, update}
use gpintosy.Scheduler.{thread_unblock}

abbrev pub intq_bufsize : ℕ
intq_bufsize = 64

-- `struct intq`, less its lock
pub record Intq : Type 0 where
  pub not_full : Ptr
  pub not_empty : Ptr
  pub buf : ℕ → ℕ
  pub head : ℕ
  pub tail : ℕ

unfoldable pub intq_init : (ℕ → ℕ) → Intq
intq_init buf = record { not_full = null; not_empty = null; buf = buf; head = 0; tail = 0 }

unfoldable pub next : ℕ → ℕ
next pos = (pos + 1) % intq_bufsize

unfoldable pub intq_empty : Intq → Bool
intq_empty q = q.head == q.tail

unfoldable pub intq_full : Intq → Bool
intq_full q = next q.head == q.tail

-- `signal` wakes the thread that waits, if one does; its assertion stands where it is called.
unfoldable pub signal : Ptr → Kernel → Result Kernel
signal waiter k = if waiter == null then ok k else thread_unblock waiter k

unfoldable pub intq_getc : Intq → Kernel → Result (Option (ℕ × Intq × Kernel))
intq_getc q k = if intq_empty q then (do assert (not k.in_external_intr); ok none) else do
  let byte = q.buf q.tail
  let q = record q { tail = next q.tail }
  assert (not (intq_full q))
  k ← signal q.not_full k
  ok (some (byte, record q { not_full = null }, k))

unfoldable pub intq_putc : ℕ → Intq → Kernel → Result (Option (Intq × Kernel))
intq_putc byte q k = if intq_full q then (do assert (not k.in_external_intr); ok none) else do
  let q = record q { buf = update q.buf q.head byte; head = next q.head }
  assert (not (intq_empty q))
  k ← signal q.not_empty k
  ok (some (record q { not_empty = null }, k))
