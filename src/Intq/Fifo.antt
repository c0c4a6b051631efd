-- ===== src/Intq/Fifo.antt =====
-- The buffer is a queue of at most 63 bytes.
use gpintosy.Prelude.{
  ℕ, ◌+◌, ◌-◌, ◌%◌, ◌≡◌, ◌≢◌, ◌<◌, ap, refl, true, false, ◌⊎◌, Option, none, some, arith, ◌==◌,
  Bool-cases, inl, inr,
}
use gpintosy.KernelList.{insert_ordered}
use gpintosy.Kernel.{
  Ptr, null, ok, ready, blocked, Kernel, update, priority_compare, is_thread, Succeeds,
  Succeeds-bind,
}
use gpintosy.Scheduler.{thread_unblock}
use gpintosy.Intq.{Intq, next, intq_empty, intq_full, signal, intq_getc, intq_putc}

-- How many bytes are in the buffer, and the byte at a place, the oldest first.
abbrev pub size : Intq → ℕ
size q = (q.head + 64 - q.tail) % 64

abbrev pub item : Intq → ℕ → ℕ
item q i = q.buf ((q.tail + i) % 64)

-- The positions are in the buffer.
pub record IsIntq (q : Intq) : Type 0 where
  pub head : q.head < 64
  pub tail : q.tail < 64

-- Who waits, if a thread does, is blocked.
abbrev pub IsBlocked : Ptr → Kernel → Type 0
IsBlocked waiter k = (waiter ≡ null) ⊎ ((k.threads waiter).status ≡ blocked)

-- The waiting thread is ready and in the run queue, and no other thread has changed; with none
-- waiting, nothing has.
pub record IsWoken (waiter : Ptr) (k k' : Kernel) : Type 0 where
  pub none_waits : waiter ≡ null → k' ≡ k
  pub status : waiter ≢ null → (k'.threads waiter).status ≡ ready
  pub queue :
      waiter ≢ null → k'.ready_list ≡ insert_ordered (priority_compare k) k.ready_list waiter
  pub others : (t : Ptr) → t ≢ waiter → k'.threads t ≡ k.threads t

signal-unblocks :
    (waiter : Ptr) (k : Kernel)
    → (waiter == null) ≡ false
    → (k.threads waiter).status ≡ blocked
    → Succeeds (IsWoken waiter k) (signal waiter k)
unfolding signal thread_unblock is_thread
signal-unblocks waiter k n b =
    rw (n, b)
      (record {
        none_waits = λ e. absurd (ground (arith, n));
        status = λ m. ground arith;
        queue = λ m. refl;
        others = λ t d. ground arith;
      })

signal-null : (waiter : Ptr) (k : Kernel) → (waiter == null) ≡ true → signal waiter k ≡ ok k
unfolding signal
signal-null waiter k e = rw e refl

signal-wakes :
    (waiter : Ptr) (k : Kernel) → IsBlocked waiter k → Succeeds (IsWoken waiter k) (signal waiter k)
signal-wakes waiter k h = elim (Bool-cases (waiter == null)) [
  | inl e ↦ rw (signal-null waiter k e) (record {
    none_waits = λ z. refl;
    status = λ n. absurd (ground (arith, e));
    queue = λ n. absurd (ground (arith, e));
    others = λ t d. refl;
  })
  | inr e ↦ elim h [ inl z ↦ absurd (ground (arith, e)) | inr b ↦ signal-unblocks waiter k e b ]
]

-- The new byte is behind the others, and who waited for a byte is awake and waits no more; with no
-- room, nothing happens.
abbrev pub IsPut : ℕ → Intq → Kernel → Option (Intq × Kernel) → Type 0
IsPut byte q k none = size q ≡ 63
IsPut byte q k (some (q', k')) =
    IsIntq q'
    × IsWoken q.not_empty k k'
    × (q'.not_empty ≡ null)
    × (q'.not_full ≡ q.not_full)
    × (size q' ≡ size q + 1)
    × (item q' (size q) ≡ byte)
    × ((i : ℕ) → i < size q → item q' i ≡ item q i)

-- The oldest byte is gone, and who waited for room is awake and waits no more; with none, nothing
-- happens.
abbrev pub IsGot : Intq → Kernel → Option (ℕ × Intq × Kernel) → Type 0
IsGot q k none = size q ≡ 0
IsGot q k (some (byte, q', k')) =
    IsIntq q'
    × IsWoken q.not_full k k'
    × (q'.not_full ≡ null)
    × (q'.not_empty ≡ q.not_empty)
    × (size q ≡ size q' + 1)
    × (byte ≡ item q 0)
    × ((i : ℕ) → item q' i ≡ item q (i + 1))

module _ (q : Intq) (k : Kernel) (h : IsIntq q) (free : k.in_external_intr ≡ false) where
  put_size :
      ((q.head + 1) % 64 == q.tail) ≡ false → ((q.head + 1) % 64 + 64 - q.tail) % 64 ≡ size q + 1
  put_size e = ground (arith, h.head, h.tail)

  end_of : (q.tail + size q) % 64 ≡ q.head
  end_of = omega (arith, h.head, h.tail)

  put_item : (byte : ℕ) → update q.buf q.head byte ((q.tail + size q) % 64) ≡ byte
  put_item byte = ground (arith, end_of)

  put_items : (byte i : ℕ) → i < size q → update q.buf q.head byte ((q.tail + i) % 64) ≡ item q i
  put_items byte i l =
      let n : (q.tail + i) % 64 ≢ q.head = λ e. absurd (omega (arith, h.head, h.tail, e, l)) in
      ground (arith, n)

  got_size : (q.head == q.tail) ≡ false → size q ≡ (q.head + 64 - (q.tail + 1) % 64) % 64 + 1
  got_size e = ground (arith, h.head, h.tail)

  got_first : q.buf q.tail ≡ item q 0
  got_first = let t : q.tail ≡ (q.tail + 0) % 64 = omega (arith, h.tail) in ap q.buf t

  got_items : (i : ℕ) → q.buf (((q.tail + 1) % 64 + i) % 64) ≡ item q (i + 1)
  got_items i =
      let t : ((q.tail + 1) % 64 + i) % 64 ≡ (q.tail + (i + 1)) % 64 = omega arith in ap q.buf t

  -- If the thread that waits for a byte is blocked, or none waits, `intq_putc` outside an interrupt
  -- fails no assertion. It waits if 63 bytes are in the buffer; else the byte is behind them, the
  -- waiting thread is ready and in the run queue, and it is no more the one that waits.
  pub intq_putc-IsPut :
      (byte : ℕ) → IsBlocked q.not_empty k → Succeeds (IsPut byte q k) (intq_putc byte q k)
  unfolding intq_putc intq_full intq_empty next
  intq_putc-IsPut byte b = elim (Bool-cases ((q.head + 1) % 64 == q.tail)) [
    | inl e ↦ rw (e, free) (ground (arith, h.head, h.tail))
    | inr e ↦ rw e (
        Succeeds-bind (IsWoken q.not_empty k) (IsPut byte q k) _ _ (signal-wakes q.not_empty k b)
          λ k' w. (
            record { head = omega arith; tail = h.tail },
            w,
            refl,
            refl,
            put_size e,
            put_item byte,
            put_items byte,
          ))
  ]

  -- If the thread that waits for room is blocked, or none waits, `intq_getc` outside an interrupt
  -- fails no assertion. It waits if the buffer is empty; else it takes the oldest byte, the others
  -- are in their order, the waiting thread is ready and in the run queue, and it is no more the one
  -- that waits.
  pub intq_getc-IsGot : IsBlocked q.not_full k → Succeeds (IsGot q k) (intq_getc q k)
  unfolding intq_getc intq_full intq_empty next
  intq_getc-IsGot b = elim (Bool-cases (q.head == q.tail)) [
    | inl e ↦ rw (e, free) (ground (arith, h.head, h.tail))
    | inr e ↦
        let f : ((q.head + 1) % 64 == (q.tail + 1) % 64) ≡ false = ground (arith, h.head, h.tail) in
        rw (e, f)
          (Succeeds-bind (IsWoken q.not_full k) (IsGot q k) _ _ (signal-wakes q.not_full k b)
            λ k' w. (
              record { head = h.head; tail = omega arith },
              w,
              refl,
              refl,
              got_size e,
              got_first,
              got_items,
            ))
  ]
