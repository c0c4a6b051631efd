-- ===== src/Kernel.antt =====
-- The state that src/threads/thread.c, synch.c and interrupt.c and src/devices/timer.c share.
--
-- Pointers are numbers and 0 is NULL. A structure is found in a store under its address, and the
-- semaphore inside a lock under the lock's address. A function that may switch threads leaves what
-- it has still to do as a frame of the thread, which `resume` of Machine carries out when the thread
-- runs again. `panic` is a failed ASSERT, `undefined` a read through a pointer to no structure.
use gpintosy.Prelude.{ℕ, Bool, true, false, List, ◌∷◌, ◌==◌, if◌then◌else◌}
use gpintosy.Prelude.Int.{ℤ, ltb_ℤ}

abbrev pub Ptr : Type 0
Ptr = ℕ

abbrev pub null : Ptr
null = 0

pub data Result {ℓ} (A : Type ℓ) : Type ℓ where
  ok : A → Result A
  panic : Result A
  undefined : Result A

infixl 5 ◌>>=◌ ◌>>◌
abbrev pub ◌>>=◌ {ℓ κ} : {A : Type ℓ} {B : Type κ} → Result A → (A → Result B) → Result B
ok a >>= f = f a
panic >>= f = panic
undefined >>= f = undefined

abbrev pub ◌>>◌ {ℓ} : {B : Type ℓ} → Result (Unit {0}) → Result B → Result B
m >> k = m >>= λ _. k

abbrev pub assert : Bool → Result (Unit {0})
assert true = ok tt
assert false = panic

-- A call that succeeds, with a result that satisfies `P`.
abbrev pub Succeeds {ℓ} : {A : Type ℓ} → (A → Type 0) → Result A → Type 0
Succeeds P (ok a) = P a
Succeeds P panic = ⊥
Succeeds P undefined = ⊥

module _ {ℓ κ} {A : Type ℓ} {B : Type κ} where
  pub Succeeds-bind :
      (P : A → Type 0) (Q : B → Type 0) (r : Result A) (f : A → Result B)
      → Succeeds P r
      → ((a : A) → P a → Succeeds Q (f a))
      → Succeeds Q (r >>= f)
  Succeeds-bind P Q (ok a) f h g = g a h
  Succeeds-bind P Q panic f h g = h
  Succeeds-bind P Q undefined f h g = h

pub Succeeds-mono {ℓ} :
    {A : Type ℓ} (P Q : A → Type 0) (r : Result A)
    → Succeeds P r
    → ((a : A) → P a → Q a)
    → Succeeds Q r
Succeeds-mono P Q (ok a) h f = f a h
Succeeds-mono P Q panic h f = h
Succeeds-mono P Q undefined h f = h

-- `enum thread_status`
pub data Status : Type 0 where
  running ready blocked dying : Status

abbrev pub is_running : Status → Bool
is_running running = true
is_running _ = false

abbrev pub is_ready : Status → Bool
is_ready ready = true
is_ready _ = false

abbrev pub is_blocked : Status → Bool
is_blocked blocked = true
is_blocked _ = false

abbrev pub is_dying : Status → Bool
is_dying dying = true
is_dying _ = false

-- What a kernel function has still to do when its thread runs again.
pub data Frame : Type 0 where
  -- the loop of `sema_down`
  down_again : (sema : Ptr) → Frame
  -- the end of `lock_acquire`, after its `sema_down`
  lock_taken : (lock : Ptr) → Frame
  -- the `sema_up` of `lock_release`
  lock_up : (lock : Ptr) → Frame
  -- the end of `lock_release`, after its `sema_up`
  lock_given : (lock : Ptr) → Frame
  -- the `lock_acquire` of `cond_wait`
  cond_relock : (lock : Ptr) → Frame
  -- the loop of `cond_broadcast`, after a `cond_signal`
  cond_more : (cond lock : Ptr) → Frame

-- `struct thread`, less its name, its stack and what belongs to userprog/ and vm/
pub record Thread : Type 0 where
  pub tid : ℕ
  pub status : Status
  pub priority : ℤ
  pub wakeup_ticks : ℤ
  pub donors_list : List Ptr
  pub base_priority : ℤ
  pub waiting_on_lock : Ptr
  pub nice : ℤ
  pub recent_cpu : ℤ
  pub pagedir : Ptr
  pub frames : List Frame

-- `struct semaphore`
pub record Semaphore : Type 0 where
  pub value : ℕ
  pub waiters : List Ptr

pub record Kernel : Type 0 where
  pub threads : Ptr → Thread
  pub semas : Ptr → Semaphore
  -- the `holder` of each lock
  pub holders : Ptr → Ptr
  -- the `waiters` of each condition variable: the addresses of their semaphores
  pub conds : Ptr → List Ptr
  -- what `running_thread` finds from the stack pointer
  pub current : Ptr
  pub idle_thread : Ptr
  pub initial_thread : Ptr
  pub ready_list : List Ptr
  pub all_list : List Ptr
  pub sleep_list : List Ptr
  pub next_tid : ℕ
  pub thread_ticks : ℕ
  pub idle_ticks : ℕ
  pub kernel_ticks : ℕ
  pub user_ticks : ℕ
  pub ticks : ℕ
  pub load_avg : ℤ
  pub thread_mlfqs : Bool
  pub in_external_intr : Bool
  pub yield_on_return : Bool
  -- pages of dead threads, given back to the page allocator
  pub freed : List Ptr
  -- the word 16 bytes after each thread's `priority`: the `next` of its `elem`. No operation of the
  -- model sets it, so that it has any values.
  pub elem_nexts : Ptr → ℤ

abbrev pub update {ℓ} : {A : Type ℓ} → (Ptr → A) → Ptr → A → Ptr → A
update f p a q = if q == p then a else f q

abbrev pub set_thread : Kernel → Ptr → Thread → Kernel
set_thread k t r = record k { threads = update k.threads t r }

abbrev pub set_status : Kernel → Ptr → Status → Kernel
set_status k t s = set_thread k t (record (k.threads t) { status = s })

abbrev pub set_priority : Kernel → Ptr → ℤ → Kernel
set_priority k t p = set_thread k t (record (k.threads t) { priority = p })

abbrev pub set_sema : Kernel → Ptr → Semaphore → Kernel
set_sema k s r = record k { semas = update k.semas s r }

abbrev pub push_frame : Kernel → Frame → Kernel
push_frame k f =
    let t = k.threads k.current in set_thread k k.current (record t { frames = f ∷ t.frames })

-- `priority_compare`
unfoldable pub priority_compare : Kernel → Ptr → Ptr → Bool
priority_compare k a b = ltb_ℤ (k.threads b).priority (k.threads a).priority

-- `thread_current`, with its check that the thread runs
unfoldable pub thread_current : Kernel → Result Ptr
thread_current k = do assert (is_running (k.threads k.current).status); ok k.current

-- The part of `is_thread` that does not depend on a stack overflow.
unfoldable pub is_thread : Ptr → Bool
is_thread t = if t == null then false else true
