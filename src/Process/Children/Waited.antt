-- ===== src/Process/Children/Waited.antt =====
-- What a parent that waits is told.
use mathlib.Core.Path.{subst}
use gpintosy.Prelude.{◌+◌, ◌≡◌, ◌≢◌, ◌≤◌, refl, sym, ap, ◌∙◌, true, false, some, List, arith, ◌==◌}
use gpintosy.Kernel.{Ptr, null, ok, ◌>>=◌, Succeeds, Succeeds-bind, Succeeds-mono}
use gpintosy.KernelList.Count.{count}
use gpintosy.Process.Children.{
  runs, waits, Family, set_proc, child_at, set_child, list_remove, wait_end, wait_found, publish,
}
use gpintosy.Process.Children.Shared.{
  one, references, IsCounted, nothing, IsShared, set_proc-IsCounted, with_child,
  with_child-IsCounted, released, released-procs, release_child_process-released, released-IsShared,
  release_child_process-IsShared,
}
use gpintosy.Process.Children.Steps.{count-list_remove, listed_null, referred}

module _ (ts : List Ptr) where
  -- The status after `publish` and before its release.
  abbrev published : Ptr → Family → Family
  published t f =
      let c = (f.procs t).child_info in
      set_proc t (record (f.procs t) { child_info = null })
        (with_child ts c
          (record (f.children c) {
            exit_status = (f.procs t).exit_status;
            exited = true;
            exit_sema = (f.children c).exit_sema + 1;
          })
          f)

  publish-released :
      (t : Ptr) (f : Family)
      → ((f.procs t).child_info == null) ≡ false
      → f.allocated (f.procs t).child_info ≡ true
      → publish t f ≡ ok (released ts (f.procs t).child_info (published t f))
  unfolding publish child_at set_child
  publish-released t f q a =
      rw (q, a) (release_child_process-released ts (published t f) (f.procs t).child_info a)

  released-exited :
      (f : Family) (c : Ptr) → ((released ts c f).children c).exited ≡ (f.children c).exited
  released-exited f c = ground arith

  released-exit_status :
      (f : Family) (c : Ptr)
      → ((released ts c f).children c).exit_status ≡ (f.children c).exit_status
  released-exit_status f c = ground arith

  wait_end-status :
      (cur c : Ptr) (f : Family)
      → IsShared ts f
      → count cur ts ≡ 1
      → (f.procs cur).phase ≡ waits c
      → c ≢ null
      → Succeeds (λ r. r.0 ≡ (f.children c).exit_status) (wait_end cur c f)
  unfolding wait_end child_at references
  wait_end-status cur c f h o e n =
      let s = h.sound cur in
      let p = record (f.procs cur) { phase = runs } in
      let h' : IsCounted ts (one c) (set_proc cur p f) =
        set_proc-IsCounted ts nothing (one c) f cur p h o (record { listed = s.listed; phase = tt })
          (λ d m. rw e (omega arith)) in
      let a : f.allocated c ≡ true = referred ts nothing f cur c h o n (rw e (ground arith)) in
      rw a (
        Succeeds-bind (λ f'. IsShared ts f' × (f'.procs ≡ (set_proc cur p f).procs))
          (λ r. r.0 ≡ (f.children c).exit_status) _ _
          (release_child_process-IsShared ts (set_proc cur p f) c h' n) (λ f' g. refl))

  wait_found-exited :
      (cur c : Ptr) (f : Family)
      → IsShared ts f
      → count cur ts ≡ 1
      → (f.procs cur).phase ≡ runs
      → 1 ≤ count c (f.procs cur).child_processes
      → (f.children c).exited ≡ true
      → Succeeds (λ r. r.0 ≡ some (f.children c).exit_status) (wait_found cur (some c) f)
  unfolding child_at references
  wait_found-exited cur c f h o r g x =
      let s = h.sound cur in
      let l = (f.procs cur).child_processes in
      let n : c ≢ null = listed_null c l g s.listed in
      let p = record (f.procs cur) { child_processes = list_remove c l; phase = waits c } in
      let f' = set_proc cur p f in
      let h' : IsShared ts f' =
        set_proc-IsCounted ts nothing nothing f cur p h o
          (record {
            listed = (let k = count-list_remove c null l g in omega (arith, k, s.listed));
            phase = n;
          })
          (λ d m. let k = count-list_remove c d l g in rw r (omega (arith, k))) in
      let a : f.allocated c ≡ true = referred ts nothing f cur c h o n (omega (arith, g)) in
      rw (a, x)
        (Succeeds-bind (λ r. r.0 ≡ (f.children c).exit_status)
          (λ r. r.0 ≡ some (f.children c).exit_status) (wait_end cur c f') _
          (wait_end-status cur c f' h' o (ground arith) n) (λ r e. ap some e))

  -- In a family whose references are counted, if a thread publishes its exit and its parent, which has its
  -- status in its list, then waits for it, neither uses a status that is not allocated, and the
  -- parent is told the exit status of the thread at once.
  pub publish-wait_found :
      (t cur : Ptr) (f : Family)
      → IsShared ts f
      → count t ts ≡ 1
      → count cur ts ≡ 1
      → t ≢ cur
      → (f.procs cur).phase ≡ runs
      → 1 ≤ count (f.procs t).child_info (f.procs cur).child_processes
      → Succeeds
          (λ r. r.0 ≡ some (f.procs t).exit_status)
          (publish t f >>= λ f'. wait_found cur (some (f.procs t).child_info) f')
  unfolding references
  publish-wait_found t cur f h o oc m r g =
      let c = (f.procs t).child_info in
      let s = h.sound t in
      let sc = h.sound cur in
      let n : c ≢ null = listed_null c (f.procs cur).child_processes g sc.listed in
      let q : (c == null) ≡ false = ground (arith, n) in
      let a : f.allocated c ≡ true = referred ts nothing f t c h o n (ground arith) in
      let f2 = published t f in
      let p = record (f.procs t) { child_info = null } in
      let r' = record (f.children c) {
        exit_status = (f.procs t).exit_status;
        exited = true;
        exit_sema = (f.children c).exit_sema + 1;
      } in
      let h2 : IsCounted ts (one c) f2 =
        set_proc-IsCounted ts nothing (one c) (with_child ts c r' f) t p
          (with_child-IsCounted ts nothing f c r' h refl) o
          (record { listed = s.listed; phase = s.phase }) (λ d k. ground (arith, k)) in
      let same : (released ts c f2).procs cur ≡ f.procs cur =
        ap (λ x. x cur) (released-procs ts f2 c) ∙ ground (arith, m) in
      let status : ((released ts c f2).children c).exit_status ≡ (f.procs t).exit_status =
        released-exit_status f2 c ∙ ground arith in
      let exited : ((released ts c f2).children c).exited ≡ true =
        released-exited f2 c ∙ ground arith in
      rw (publish-released t f q a) (
        Succeeds-mono _ _ (wait_found cur (some c) (released ts c f2))
          (wait_found-exited cur c (released ts c f2) (released-IsShared ts f2 c h2 n) oc
            (ap (λ x. x.phase) same ∙ r)
            (subst (λ x. 1 ≤ count c x) (sym (ap (λ x. x.child_processes) same)) g) exited)
          (λ w e. e ∙ ap some status))
