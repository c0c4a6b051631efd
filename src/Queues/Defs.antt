-- ===== src/Queues/Defs.antt =====
-- What the queues and the states of the threads have to do with one another.
use gpintosy.Prelude.{ℕ, ◌≤◌, ◌≡◌, ◌≢◌, Bool, List, [], ◌==◌, if◌then◌else◌}
use gpintosy.KernelList.Count.{count}
use gpintosy.Kernel.{Ptr, null, Status, running, dying, is_ready, is_blocked, Frame, Kernel}

-- What the invariant reads of a kernel.
pub record View : Type 0 where
  pub status : Ptr → Status
  pub current : Ptr
  pub idle : Ptr
  pub idle_frames : List Frame
  pub ready_list : List Ptr
  pub waiters : Ptr → List Ptr
  pub sleepers : List Ptr

abbrev pub view : Kernel → View
view k = record {
  status = λ t. (k.threads t).status;
  current = k.current;
  idle = k.idle_thread;
  idle_frames = (k.threads k.idle_thread).frames;
  ready_list = k.ready_list;
  waiters = λ s. (k.semas s).waiters;
  sleepers = k.sleep_list;
}

-- 1 for a thread other than the idle thread whose state passes the test.
abbrev pub one_if : View → (Status → Bool) → Ptr → ℕ
one_if v p t = if t == v.idle then 0 else if p (v.status t) then 1 else 0

-- The run queue holds the ready threads, each once, but for the idle thread. A thread on the list
-- of a semaphore, or on the sleep list, is blocked and stands on no other list.
pub record Consistent (v : View) : Type 0 where
  pub null_dead : v.status null ≡ dying
  pub idle_exists : v.idle ≢ null
  pub idle_free : v.idle_frames ≡ []
  pub ready : (t : Ptr) → count t v.ready_list ≡ one_if v is_ready t
  pub waiting : (s t : Ptr) → count t (v.waiters s) ≤ one_if v is_blocked t
  pub one_wait : (s s' t : Ptr) → 1 ≤ count t (v.waiters s) → 1 ≤ count t (v.waiters s') → s ≡ s'
  pub sleeping : (t : Ptr) → count t v.sleepers ≤ one_if v is_blocked t
  pub apart : (s t : Ptr) → 1 ≤ count t v.sleepers → count t (v.waiters s) ≡ 0

-- Between two switches the current thread is the only one that runs.
pub record IsQueued (v : View) : Type 0 where
  pub consistent : Consistent v
  pub open consistent use *
  pub runs : v.status v.current ≡ running
  pub alone : (t : Ptr) → v.status t ≡ running → t ≡ v.current

-- Right before a switch no thread runs.
pub record IsLeaving (v : View) : Type 0 where
  pub consistent : Consistent v
  pub open consistent use *
  pub stopped : (t : Ptr) → v.status t ≢ running
