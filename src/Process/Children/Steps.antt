-- ===== src/Process/Children/Steps.antt =====
-- src/userprog/process.c: the events of a family, and the references that they keep counted.
use mathlib.Core.Path.{subst}
use gpintosy.Prelude.{
  ℕ, ◌+◌, ◌≡◌, ◌≢◌, ◌≤◌, refl, sym, ap, ◌∙◌, Bool, true, false, Option, none, some, List, [], ◌∷◌,
  ◌++◌, arith, ◌==◌, Bool-cases, inl, inr,
}
use gpintosy.Kernel.{Ptr, null, update, Succeeds, Succeeds-bind, Succeeds-mono}
use gpintosy.KernelList.Count.{count, count-append}
use gpintosy.Process.Children.{
  Child, new_child, runs, executes, waits, Family, set_proc, child_at, set_child, find_child,
  find_child_process, has_tid, release_child_process, list_remove, execute_begin, after_load,
  execute_end, start_process, wait_end, wait_exited, wait_found, wait_begin, wait_again, publish,
  release_all, process_exit, Event, execute, execute_goes_on, start, wait, wait_goes_on, exit, run,
}
use gpintosy.Process.Children.Shared.{
  one, references, total, total-member, IsSoundPhase, IsCounted, nothing, IsShared, is_allocated,
  set_proc-IsCounted, with_child, with_child-IsCounted, release_child_process-IsShared,
}

pub count-list_remove :
    (c d : Ptr) (l : List Ptr) → 1 ≤ count c l → count d (list_remove c l) + one c d ≡ count d l
unfolding list_remove
count-list_remove c d [] h = ground (arith, h)
count-list_remove c d (e ∷ l) h = elim (Bool-cases (e == c)) [
  | inl q ↦ let i : e ≡ c = ground arith in rw (q, i) (omega arith)
  | inr q ↦ let g = count-list_remove c d l (ground (arith, h, q)) in rw q (omega (arith, g))
]

-- What a search may find in a list.
abbrev IsIn : List Ptr → Option Ptr → Type 0
IsIn l none = Unit
IsIn l (some c) = 1 ≤ count c l

IsIn-more : (c : Ptr) (l : List Ptr) (o : Option Ptr) → IsIn l o → IsIn (c ∷ l) o
IsIn-more c l none h = tt
IsIn-more c l (some d) h = omega (arith, h)

pub listed_null : (c : Ptr) (l : List Ptr) → 1 ≤ count c l → count null l ≡ 0 → c ≢ null
listed_null c l h z q =
    let g : count c l ≡ count null l = ap (λ x. count x l) q in omega (arith, g, h, z)

module _ (ts : List Ptr) where
  -- A status that a thread refers to.
  pub referred :
      (extra : Ptr → ℕ) (f : Family) (t c : Ptr)
      → IsCounted ts extra f
      → count t ts ≡ 1
      → c ≢ null
      → 1 ≤ references (f.procs t) c
      → f.allocated c ≡ true
  referred extra f t c h o n l =
      is_allocated ts extra f c h n (omega (arith, l, total-member ts f.procs t c o))

  start_process-IsShared :
      (t : Ptr) (success : Bool) (f : Family)
      → IsShared ts f
      → count t ts ≡ 1
      → (f.procs t).start_info ≢ null
      → (f.procs t).child_info ≡ null
      → Succeeds (IsShared ts) (start_process t success f)
  unfolding start_process child_at set_child references
  start_process-IsShared t success f h o n e =
      let c = (f.procs t).start_info in
      let f' = set_proc t (record (f.procs t) { child_info = c; start_info = null }) f in
      let s = h.sound t in
      let h' : IsShared ts f' =
        set_proc-IsCounted ts nothing nothing f t _ h o
          (record { listed = s.listed; phase = s.phase }) (λ d m. ground (arith, m, e)) in
      let a : f'.allocated c ≡ true = referred nothing f' t c h' o n (ground arith) in
      rw a (with_child-IsCounted ts nothing f' c _ h' refl)

  wait_end-IsShared :
      (cur c : Ptr) (f : Family)
      → IsShared ts f
      → count cur ts ≡ 1
      → (f.procs cur).phase ≡ waits c
      → c ≢ null
      → Succeeds (λ r. IsShared ts r.1) (wait_end cur c f)
  unfolding wait_end child_at references
  wait_end-IsShared cur c f h o e n =
      let s = h.sound cur in
      let p = record (f.procs cur) { phase = runs } in
      let h' : IsCounted ts (one c) (set_proc cur p f) =
        set_proc-IsCounted ts nothing (one c) f cur p h o (record { listed = s.listed; phase = tt })
          (λ d m. rw e (omega arith)) in
      let a : f.allocated c ≡ true = referred nothing f cur c h o n (rw e (ground arith)) in
      rw a (
        Succeeds-bind (λ f'. IsShared ts f' × (f'.procs ≡ (set_proc cur p f).procs))
          (λ r. IsShared ts r.1) _ _ (release_child_process-IsShared ts (set_proc cur p f) c h' n)
          (λ f' g. g.0))

  wait_again-IsShared :
      (cur c : Ptr) (f : Family)
      → IsShared ts f
      → count cur ts ≡ 1
      → (f.procs cur).phase ≡ waits c
      → c ≢ null
      → Succeeds (λ r. IsShared ts r.1) (wait_again cur c f)
  unfolding wait_again child_at set_child references
  wait_again-IsShared cur c f h o e n =
      let a : f.allocated c ≡ true = referred nothing f cur c h o n (rw e (ground arith)) in
      rw a (
        wait_end-IsShared cur c (with_child ts c _ f) (with_child-IsCounted ts nothing f c _ h refl)
          o e n)

  after_load-IsShared :
      (cur c : Ptr) (success : Bool) (tid : Option ℕ) (f : Family)
      → IsShared ts f
      → count cur ts ≡ 1
      → (f.procs cur).phase ≡ executes c
      → Succeeds (λ r. IsShared ts r.1) (after_load cur c success tid f)
  unfolding references
  after_load-IsShared cur c true tid f h o e =
      let s = h.sound cur in
      set_proc-IsCounted ts nothing nothing f cur _ h o (record { listed = s.listed; phase = tt })
        (λ d m. rw e refl)
  after_load-IsShared cur c false tid f h o e =
      let s = h.sound cur in
      let l = (f.procs cur).child_processes in
      let ph : IsSoundPhase (executes c) l = subst (λ x. IsSoundPhase x l) e s.phase in
      let p = record (f.procs cur) { child_processes = list_remove c l; phase = runs } in
      Succeeds-bind (λ f'. IsShared ts f' × (f'.procs ≡ (set_proc cur p f).procs))
        (λ r. IsShared ts r.1) _ _
        (release_child_process-IsShared ts (set_proc cur p f) c
          (set_proc-IsCounted ts nothing (one c) f cur p h o
            (record {
              listed = (let g = count-list_remove c null l ph.1 in omega (arith, g, s.listed));
              phase = tt;
            })
            (λ d m. let g = count-list_remove c d l ph.1 in rw e (omega (arith, g))))
          ph.0)
        (λ f' g. g.0)

  execute_end-IsShared :
      (cur c : Ptr) (f : Family)
      → IsShared ts f
      → count cur ts ≡ 1
      → (f.procs cur).phase ≡ executes c
      → Succeeds (λ r. IsShared ts r.1) (execute_end cur c f)
  unfolding execute_end child_at set_child references
  execute_end-IsShared cur c f h o e =
      let s = h.sound cur in
      let ph : IsSoundPhase (executes c) (f.procs cur).child_processes =
        subst (λ x. IsSoundPhase x (f.procs cur).child_processes) e s.phase in
      let a : f.allocated c ≡ true = referred nothing f cur c h o ph.0 (ground (arith, ph.1)) in
      rw a (
        after_load-IsShared cur c (f.children c).load_success (f.children c).tid
          (with_child ts c _ f) (with_child-IsCounted ts nothing f c _ h refl) o e)

  pub publish-IsShared :
      (t : Ptr) (f : Family)
      → IsShared ts f
      → count t ts ≡ 1
      → Succeeds
          (λ f'.
            IsShared ts f'
            × ((f'.procs t).child_processes ≡ (f.procs t).child_processes)
            × ((f'.procs t).phase ≡ (f.procs t).phase))
          (publish t f)
  unfolding publish child_at set_child references
  publish-IsShared t f h o = elim (Bool-cases ((f.procs t).child_info == null)) [
    | inl q ↦ rw q (h, refl, refl)
    | inr q ↦
        let c = (f.procs t).child_info in
        let n : c ≢ null = ground (arith, q) in
        let s = h.sound t in
        let a : f.allocated c ≡ true = referred nothing f t c h o n (ground arith) in
        let r = record (f.children c) {
          exit_status = (f.procs t).exit_status;
          exited = true;
          exit_sema = (f.children c).exit_sema + 1;
        } in
        let h1 = with_child-IsCounted ts nothing f c r h refl in
        let p = record (f.procs t) { child_info = null } in
        let f2 = set_proc t p (with_child ts c r f) in
        let same : f2.procs t ≡ p = ground arith in
        rw (q, a)
          (Succeeds-mono (λ f'. IsShared ts f' × (f'.procs ≡ f2.procs)) _
            (release_child_process c f2)
            (release_child_process-IsShared ts f2 c
              (set_proc-IsCounted ts nothing (one c) (with_child ts c r f) t p h1 o
                (record { listed = s.listed; phase = s.phase }) (λ d m. ground (arith, m)))
              n)
            (λ f' g. (
              g.0,
              ap (λ x. (x t).child_processes) g.1 ∙ ap (λ x. x.child_processes) same,
              ap (λ x. (x t).phase) g.1 ∙ ap (λ x. x.phase) same,
            )))
  ]

  release_all-IsShared :
      (t : Ptr) (l : List Ptr) (f : Family)
      → IsShared ts f
      → count t ts ≡ 1
      → (f.procs t).child_processes ≡ l
      → (f.procs t).phase ≡ runs
      → Succeeds (IsShared ts) (release_all t l f)
  unfolding release_all references
  release_all-IsShared t [] f h o e r = h
  release_all-IsShared t (c ∷ l) f h o e r =
      let s = h.sound t in
      let none_null : count null (c ∷ l) ≡ 0 = ap (count null) (sym e) ∙ s.listed in
      let n : c ≢ null = ground (arith, none_null) in
      let p = record (f.procs t) { child_processes = l } in
      let same : (set_proc t p f).procs t ≡ p = ground arith in
      Succeeds-bind (λ f'. IsShared ts f' × (f'.procs ≡ (set_proc t p f).procs)) (IsShared ts) _ _
        (release_child_process-IsShared ts (set_proc t p f) c
          (set_proc-IsCounted ts nothing (one c) f t p h o
            (record {
              listed = ground (arith, none_null);
              phase = subst (λ x. IsSoundPhase x l) (sym r) tt;
            })
            (λ d m. rw e (omega arith)))
          n)
        (λ f' g.
          release_all-IsShared t l f' g.0 o
            (ap (λ x. (x t).child_processes) g.1 ∙ ap (λ x. x.child_processes) same)
            (ap (λ x. (x t).phase) g.1 ∙ ap (λ x. x.phase) same ∙ r))

  process_exit-IsShared :
      (t : Ptr) (f : Family)
      → IsShared ts f
      → count t ts ≡ 1
      → (f.procs t).phase ≡ runs
      → Succeeds (IsShared ts) (process_exit t f)
  unfolding process_exit
  process_exit-IsShared t f h o r =
      Succeeds-bind _ (IsShared ts) (publish t f) _ (publish-IsShared t f h o)
        (λ f' g. release_all-IsShared t (f'.procs t).child_processes f' g.0 o refl (g.2 ∙ r))

  wait_exited-IsShared :
      (cur c : Ptr) (b : Bool) (f : Family)
      → IsShared ts f
      → count cur ts ≡ 1
      → (f.procs cur).phase ≡ waits c
      → c ≢ null
      → Succeeds (λ r. IsShared ts r.1) (wait_exited cur c b f)
  wait_exited-IsShared cur c true f h o e n =
      Succeeds-bind (λ r. IsShared ts r.1) (λ r. IsShared ts r.1) (wait_end cur c f) _
        (wait_end-IsShared cur c f h o e n) (λ r g. g)
  wait_exited-IsShared cur c false f h o e n = h

  -- What is found is in the list.
  find_child-listed :
      (tid : ℕ) (l : List Ptr) (f : Family)
      → ((c : Ptr) → 1 ≤ count c l → f.allocated c ≡ true)
      → Succeeds (IsIn l) (find_child tid l f)
  unfolding find_child child_at
  find_child-listed tid [] f h = tt
  find_child-listed tid (c ∷ l) f h =
      let a : f.allocated c ≡ true = h c (ground arith) in
      elim (Bool-cases (has_tid tid (f.children c).tid)) [
        | inl q ↦ rw (a, q) (ground arith)
        | inr q ↦
            rw (a, q)
              (Succeeds-mono (IsIn l) (IsIn (c ∷ l)) (find_child tid l f)
                (find_child-listed tid l f (λ d k. h d (ground (arith, k))))
                (λ o k. IsIn-more c l o k))
      ]

  wait_found-IsShared :
      (cur : Ptr) (found : Option Ptr) (f : Family)
      → IsShared ts f
      → count cur ts ≡ 1
      → (f.procs cur).phase ≡ runs
      → IsIn (f.procs cur).child_processes found
      → Succeeds (λ r. IsShared ts r.1) (wait_found cur found f)
  unfolding child_at references
  wait_found-IsShared cur none f h o r g = h
  wait_found-IsShared cur (some c) f h o r g =
      let s = h.sound cur in
      let l = (f.procs cur).child_processes in
      let n : c ≢ null = listed_null c l g s.listed in
      let p = record (f.procs cur) { child_processes = list_remove c l; phase = waits c } in
      let f' = set_proc cur p f in
      let h' : IsShared ts f' =
        set_proc-IsCounted ts nothing nothing f cur p h o
          (record {
            listed = (let k = count-list_remove c null l g in omega (arith, k, s.listed));
            phase = n;
          })
          (λ d m. let k = count-list_remove c d l g in rw r (omega (arith, k))) in
      let a : f.allocated c ≡ true = referred nothing f cur c h o n (omega (arith, g)) in
      rw a (wait_exited-IsShared cur c (f.children c).exited f' h' o (ground arith) n)

  wait_begin-IsShared :
      (cur tid : ℕ) (f : Family)
      → IsShared ts f
      → count cur ts ≡ 1
      → (f.procs cur).phase ≡ runs
      → Succeeds (λ r. IsShared ts r.1) (wait_begin cur tid f)
  unfolding wait_begin find_child_process references
  wait_begin-IsShared cur tid f h o r =
      let s = h.sound cur in
      let l = (f.procs cur).child_processes in
      Succeeds-bind (IsIn l) (λ r. IsShared ts r.1) (find_child tid l f) _
        (find_child-listed tid l f
          (λ c k. referred nothing f cur c h o (listed_null c l k s.listed) (omega (arith, k))))
        (λ found g. wait_found-IsShared cur found f h o r g)

  new_child-IsCounted :
      (c : Ptr) (r : Child) (f : Family)
      → IsShared ts f
      → c ≢ null
      → f.allocated c ≡ false
      → r.ref_cnt ≡ 2
      → IsCounted ts
          (λ d. one c d + one c d)
          (record f { children = update f.children c r; allocated = update f.allocated c true })
  new_child-IsCounted c r f h n a e = record {
    counted = λ d m. elim (Bool-cases (d == c)) [
      | inl q ↦
          let i : d ≡ c = ground arith in
          let free : total ts f.procs d ≡ 0 =
            (let g = h.counted d m in
              let b : f.allocated d ≡ false = ap f.allocated i ∙ a in ground (arith, g, b)) in
          rw (q, e) (ground (arith, free, q))
      | inr q ↦ let g = h.counted d m in rw q (ground (arith, g, q))
    ];
    positive = λ d b. elim (Bool-cases (d == c)) [
      | inl q ↦ rw (q, e) (omega arith)
      | inr q ↦ let g = h.positive d (ground (arith, b, q)) in rw q g
    ];
    no_null = (let g = h.no_null in ground (arith, g, n));
    sound = h.sound;
  }

  execute_begin-IsShared :
      (cur c t tid : ℕ) (f : Family)
      → IsShared ts f
      → count cur ts ≡ 1
      → count t ts ≡ 1
      → cur ≢ t
      → c ≢ null
      → f.allocated c ≡ false
      → (f.procs cur).phase ≡ runs
      → (f.procs t).start_info ≡ null
      → IsShared ts (execute_begin cur c (some (t, tid)) f)
  unfolding execute_begin references
  execute_begin-IsShared cur c t tid f h o ot m n a r e =
      let s = h.sound cur in
      let l = (f.procs cur).child_processes in
      let f1 = record f {
        children = update f.children c (new_child tid);
        allocated = update f.allocated c true;
      } in
      let h1 : IsCounted ts (λ d. one c d + one c d) f1 =
        new_child-IsCounted c (new_child tid) f h n a refl in
      let p = record (f.procs cur) { child_processes = l ++ c ∷ []; phase = executes c } in
      let f2 = set_proc cur p f1 in
      let h2 : IsCounted ts (one c) f2 =
        set_proc-IsCounted ts (λ d. one c d + one c d) (one c) f1 cur p h1 o
          (record {
            listed = count-append null l (c ∷ []) ∙ ground (arith, s.listed, n);
            phase = (n, (let g = count-append c l (c ∷ []) in ground (arith, g)));
          })
          (λ d k. let g = count-append d l (c ∷ []) in rw r (omega (arith, g))) in
      let same : f2.procs t ≡ f.procs t = ground (arith, m) in
      let start : (f2.procs t).start_info ≡ null = ap (λ x. x.start_info) same ∙ e in
      let st = h2.sound t in
      set_proc-IsCounted ts (one c) nothing f2 t (record (f2.procs t) { start_info = c }) h2 ot
        (record { listed = st.listed; phase = st.phase }) (λ d k. ground (arith, start, k))

  -- When an event may happen: the threads are among those counted, and each does what it has still
  -- to do. A thread is created with a status that `malloc` has found.
  abbrev pub Enabled : Event → Family → Type 0
  Enabled (execute cur c t tid) f =
      (count cur ts ≡ 1)
      × (count t ts ≡ 1)
      × (cur ≢ t)
      × (c ≢ null)
      × (f.allocated c ≡ false)
      × ((f.procs cur).phase ≡ runs)
      × ((f.procs t).start_info ≡ null)
  Enabled (execute_goes_on cur c) f = (count cur ts ≡ 1) × ((f.procs cur).phase ≡ executes c)
  Enabled (start t success) f =
      (count t ts ≡ 1) × ((f.procs t).start_info ≢ null) × ((f.procs t).child_info ≡ null)
  Enabled (wait cur tid) f = (count cur ts ≡ 1) × ((f.procs cur).phase ≡ runs)
  Enabled (wait_goes_on cur c) f = (count cur ts ≡ 1) × ((f.procs cur).phase ≡ waits c)
  Enabled (exit t) f = (count t ts ≡ 1) × ((f.procs t).phase ≡ runs)

  -- If the `ref_cnt` of each allocated status is the number of references of the threads to it and not
  -- 0, and a status that is not allocated has none, then each event that may happen, if no other
  -- thread uses a status while it runs (as it could between the decrement of a release and its
  -- test), runs without a use of a status that is not allocated, and keeps this true.
  pub run-IsShared :
      (e : Event) (f : Family) → IsShared ts f → Enabled e f → Succeeds (IsShared ts) (run e f)
  unfolding run
  run-IsShared (execute cur c t tid) f h (o, ot, m, n, a, r, e) =
      execute_begin-IsShared cur c t tid f h o ot m n a r e
  run-IsShared (execute_goes_on cur c) f h (o, e) =
      Succeeds-bind (λ r. IsShared ts r.1) (IsShared ts) _ _ (execute_end-IsShared cur c f h o e)
        (λ r g. g)
  run-IsShared (start t success) f h (o, n, e) = start_process-IsShared t success f h o n e
  run-IsShared (wait cur tid) f h (o, r) =
      Succeeds-bind (λ r. IsShared ts r.1) (IsShared ts) _ _ (wait_begin-IsShared cur tid f h o r)
        (λ r g. g)
  run-IsShared (wait_goes_on cur c) f h (o, e) =
      let s = h.sound cur in
      Succeeds-bind (λ r. IsShared ts r.1) (IsShared ts) _ _
        (wait_again-IsShared cur c f h o e
          (subst (λ x. IsSoundPhase x (f.procs cur).child_processes) e s.phase))
        (λ r g. g)
  run-IsShared (exit t) f h (o, r) = process_exit-IsShared t f h o r
