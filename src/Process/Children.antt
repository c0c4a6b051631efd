-- ===== src/Process/Children.antt =====
-- src/userprog/process.c: the status that a process shares with its parent.
--
-- A step is what a thread does until it waits or ends, as if no other thread ran meanwhile; the
-- source does not ensure it in `release_child_process`, whose two statements are also definitions of
-- their own. `free` of a status makes it unallocated, and a status that is not allocated is not
-- read or written: that is undefined.
pub mod Shared
pub mod Steps
pub mod Waited
pub mod Race
use gpintosy.Prelude.{
  ℕ, zero, suc, ◌+◌, ◌-◌, Bool, true, false, not, Option, none, some, List, [], ◌∷◌, ◌++◌, ◌==◌,
  if◌then◌else◌,
}
use gpintosy.Prelude.Int.{ℤ, negsuc}
use gpintosy.Kernel.{Ptr, null, Result, ok, panic, undefined, ◌>>=◌, ◌>>◌, update}

-- `struct child_process_status`, with the values of its semaphores; the tid is `none` until the thread
-- is created.
pub record Child : Type 0 where
  pub tid : Option ℕ
  pub exit_status : ℤ
  pub load_success : Bool
  pub exited : Bool
  pub ref_cnt : ℕ
  pub load_sema : ℕ
  pub exit_sema : ℕ

-- What a thread has still to do when it runs again.
pub data Phase : Type 0 where
  runs : Phase
  -- `process_execute` from its `sema_down` on, with its `child_info`
  executes : (child : Ptr) → Phase
  -- `process_wait` from its `sema_down` on, with its `child`
  waits : (child : Ptr) → Phase

-- What `struct thread` has of it; `start_info` is the `child_info` of the bundle that `start_process`
-- is called with.
pub record Proc : Type 0 where
  pub start_info : Ptr
  pub child_info : Ptr
  pub child_processes : List Ptr
  pub exit_status : ℤ
  pub phase : Phase

pub record Family : Type 0 where
  pub children : Ptr → Child
  pub allocated : Ptr → Bool
  pub procs : Ptr → Proc

abbrev pub set_proc : Ptr → Proc → Family → Family
set_proc t p f = record f { procs = update f.procs t p }

-- A status through a pointer to it.
unfoldable pub child_at : Ptr → Family → Result Child
child_at c f = if f.allocated c then ok (f.children c) else undefined

unfoldable pub set_child : Ptr → Child → Family → Result Family
set_child c r f =
    if f.allocated c then ok (record f { children = update f.children c r }) else undefined

abbrev pub has_tid : ℕ → Option ℕ → Bool
has_tid tid none = false
has_tid tid (some n) = n == tid

-- The loop of `find_child_process`
unfoldable pub find_child : ℕ → List Ptr → Family → Result (Option Ptr)
find_child tid [] f = ok none
find_child tid (c ∷ l) f = do
  child ← child_at c f
  if has_tid tid child.tid then ok (some c) else find_child tid l f

unfoldable pub find_child_process : Ptr → ℕ → Family → Result (Option Ptr)
find_child_process cur tid f = find_child tid (f.procs cur).child_processes f

-- The two statements of `release_child_process`: other threads may run between them.
unfoldable pub decrement_ref_cnt : Ptr → Family → Result Family
decrement_ref_cnt c f = do
  child ← child_at c f
  set_child c (record child { ref_cnt = child.ref_cnt - 1 }) f

unfoldable pub free_if_unused : Ptr → Family → Result Family
free_if_unused c f = do
  child ← child_at c f
  ok (if child.ref_cnt == 0 then record f { allocated = update f.allocated c false } else f)

-- Both, when no other thread runs between them.
unfoldable pub release_child_process : Ptr → Family → Result Family
release_child_process c f = do f ← decrement_ref_cnt c f; free_if_unused c f

unfoldable pub list_remove : Ptr → List Ptr → List Ptr
list_remove c [] = []
list_remove c (d ∷ l) = if d == c then l else d ∷ list_remove c l

-- A status as `process_execute` makes it.
abbrev pub new_child : ℕ → Child
new_child tid = record {
  tid = some tid;
  exit_status = negsuc 0;
  load_success = false;
  exited = false;
  ref_cnt = 2;
  load_sema = 0;
  exit_sema = 0;
}

-- `process_execute` up to its `sema_down`, with the block that `malloc` found for the status, and the
-- thread, if one was created, and its tid. Without memory nothing is done.
unfoldable pub execute_begin : Ptr → Ptr → Option (Ptr × ℕ) → Family → Family
execute_begin cur c none f = f
execute_begin cur c (some (t, tid)) f =
    let f = record f {
      children = update f.children c (new_child tid);
      allocated = update f.allocated c true;
    } in
    let p = f.procs cur in
    let f =
      set_proc cur (record p { child_processes = p.child_processes ++ c ∷ []; phase = executes c })
        f in
    set_proc t (record (f.procs t) { start_info = c }) f

-- What `process_execute` does with the `load_success` of the child; `none` is TID_ERROR.
abbrev pub after_load : Ptr → Ptr → Bool → Option ℕ → Family → Result (Option ℕ × Family)
after_load cur c true tid f = ok (tid, set_proc cur (record (f.procs cur) { phase = runs }) f)
after_load cur c false tid f = do
  let p = f.procs cur
  f ← release_child_process c (
      set_proc cur (record p { child_processes = list_remove c p.child_processes; phase = runs }) f)
  ok (none, f)

-- The end of `process_execute`, after its `sema_down`.
unfoldable pub execute_end : Ptr → Ptr → Family → Result (Option ℕ × Family)
execute_end cur c f = do
  child ← child_at c f
  f ← set_child c (record child { load_sema = child.load_sema - 1 }) f
  after_load cur c child.load_success child.tid f

-- `start_process`, with what `load` answers.
unfoldable pub start_process : Ptr → Bool → Family → Result Family
start_process t success f = do
  let c = (f.procs t).start_info
  let f = set_proc t (record (f.procs t) { child_info = c; start_info = null }) f
  child ← child_at c f
  set_child c (record child { load_success = success; load_sema = child.load_sema + 1 }) f

-- The end of `process_wait`, after its `sema_down` if there was one.
unfoldable pub wait_end : Ptr → Ptr → Family → Result (ℤ × Family)
wait_end cur c f = do
  child ← child_at c f
  f ← release_child_process c (set_proc cur (record (f.procs cur) { phase = runs }) f)
  ok (child.exit_status, f)

-- `process_wait` with the child taken from the list, and whether it has exited; `none` is a wait.
abbrev pub wait_exited : Ptr → Ptr → Bool → Family → Result (Option ℤ × Family)
wait_exited cur c true f = do (status, f) ← wait_end cur c f; ok (some status, f)
wait_exited cur c false f = ok (none, f)

-- `process_wait` with the child looked up.
abbrev pub wait_found : Ptr → Option Ptr → Family → Result (Option ℤ × Family)
wait_found cur none f = ok (some (negsuc 0), f)
wait_found cur (some c) f = do
  let p = f.procs cur
  let f =
      set_proc cur (record p { child_processes = list_remove c p.child_processes; phase = waits c })
        f
  child ← child_at c f
  wait_exited cur c child.exited f

-- `process_wait` up to its `sema_down`; it ends at once with a status for a child that has exited, and
-- with -1 for one that there is not.
unfoldable pub wait_begin : Ptr → ℕ → Family → Result (Option ℤ × Family)
wait_begin cur tid f = do found ← find_child_process cur tid f; wait_found cur found f

-- The thread that waits for the exit goes on.
unfoldable pub wait_again : Ptr → Ptr → Family → Result (ℤ × Family)
wait_again cur c f = do
  child ← child_at c f
  f ← set_child c (record child { exit_sema = child.exit_sema - 1 }) f
  wait_end cur c f

-- The part of `process_exit` that gives the status to the parent.
unfoldable pub publish : Ptr → Family → Result Family
publish t f =
    let c = (f.procs t).child_info in
    if c == null then ok f else do
      child ← child_at c f
      f ←
          set_child c
            (record child {
              exit_status = (f.procs t).exit_status;
              exited = true;
              exit_sema = child.exit_sema + 1;
            })
            f
      release_child_process c (set_proc t (record (f.procs t) { child_info = null }) f)

-- The loop of `process_exit` over the children.
unfoldable pub release_all : Ptr → List Ptr → Family → Result Family
release_all t [] f = ok f
release_all t (c ∷ l) f = do
  f ← release_child_process c (set_proc t (record (f.procs t) { child_processes = l }) f)
  release_all t l f

-- `process_exit`, as far as the family is concerned
unfoldable pub process_exit : Ptr → Family → Result Family
process_exit t f = do f ← publish t f; release_all t (f.procs t).child_processes f

-- What may happen next in a family.
pub data Event : Type 0 where
  execute : (cur c t : Ptr) → (tid : ℕ) → Event
  execute_goes_on : (cur c : Ptr) → Event
  start : (t : Ptr) → (success : Bool) → Event
  wait : (cur : Ptr) → (tid : ℕ) → Event
  wait_goes_on : (cur c : Ptr) → Event
  exit : (t : Ptr) → Event

unfoldable pub run : Event → Family → Result Family
run (execute cur c t tid) f = ok (execute_begin cur c (some (t, tid)) f)
run (execute_goes_on cur c) f = do (tid, f) ← execute_end cur c f; ok f
run (start t success) f = start_process t success f
run (wait cur tid) f = do (status, f) ← wait_begin cur tid f; ok f
run (wait_goes_on cur c) f = do (status, f) ← wait_again cur c f; ok f
run (exit t) f = process_exit t f
