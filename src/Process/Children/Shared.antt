-- ===== src/Process/Children/Shared.antt =====
-- How often a status is referred to.
use gpintosy.Prelude.{
  ℕ, ◌+◌, ◌-◌, ◌≡◌, ◌≢◌, ◌≤◌, refl, sym, ap, ◌∙◌, true, false, List, [], ◌∷◌, arith, ◌==◌,
  if◌then◌else◌, Bool-cases, inl, inr,
}
use mathlib.Core.Path.{subst}
use gpintosy.Kernel.{Ptr, null, ok, update, Succeeds}
use gpintosy.KernelList.Count.{count}
use gpintosy.Process.Children.{
  Child, Phase, runs, executes, waits, Proc, Family, set_proc, child_at, set_child,
  decrement_ref_cnt, free_if_unused, release_child_process,
}

-- 1 if two addresses are the same.
abbrev pub one : Ptr → Ptr → ℕ
one c d = if c == d then 1 else 0

abbrev pub waited : Phase → Ptr → ℕ
waited runs d = 0
waited (executes c) d = 0
waited (waits c) d = one c d

-- The references of a thread to a status: those of the bundle it starts with, of its `child_info`, of
-- its list of children and of its wait.
unfoldable pub references : Proc → Ptr → ℕ
references p d =
    one p.start_info d + one p.child_info d + count d p.child_processes + waited p.phase d

-- The references of all threads of a list.
unfoldable pub total : List Ptr → (Ptr → Proc) → Ptr → ℕ
total [] procs d = 0
total (t ∷ ts) procs d = references (procs t) d + total ts procs d

total-update-absent :
    (ts : List Ptr) (procs : Ptr → Proc) (t : Ptr) (p : Proc) (d : Ptr)
    → count t ts ≡ 0
    → total ts (update procs t p) d ≡ total ts procs d
unfolding total
total-update-absent [] procs t p d n = refl
total-update-absent (u ∷ ts) procs t p d n =
    let e : (u == t) ≡ false = ground (arith, n) in
    rw (e, total-update-absent ts procs t p d (ground (arith, n))) refl

-- The references of one thread change.
pub total-update :
    (ts : List Ptr) (procs : Ptr → Proc) (t : Ptr) (p : Proc) (d : Ptr)
    → count t ts ≡ 1
    → total ts (update procs t p) d + references (procs t) d ≡ total ts procs d + references p d
unfolding total
total-update [] procs t p d n = ground (arith, n)
total-update (u ∷ ts) procs t p d n = elim (Bool-cases (u == t)) [
  | inl e ↦
      let i : u ≡ t = ground arith in
      let same : references (procs u) d ≡ references (procs t) d =
        ap (λ x. references (procs x) d) i in
      let rest = total-update-absent ts procs t p d (ground (arith, n, e)) in
      rw (e, rest) (omega (arith, same))
  | inr e ↦ rw e (omega (arith, total-update ts procs t p d (ground (arith, n, e))))
]

pub total-member :
    (ts : List Ptr) (procs : Ptr → Proc) (t d : Ptr)
    → count t ts ≡ 1
    → references (procs t) d ≤ total ts procs d
unfolding total
total-member [] procs t d n = ground (arith, n)
total-member (u ∷ ts) procs t d n = elim (Bool-cases (u == t)) [
  | inl e ↦
      let i : u ≡ t = ground arith in
      let same : references (procs u) d ≡ references (procs t) d =
        ap (λ x. references (procs x) d) i in
      omega (arith, same)
  | inr e ↦ omega (arith, total-member ts procs t d (ground (arith, n, e)))
]

-- What a thread waits for it has a reference to, and no reference is null.
abbrev pub IsSoundPhase : Phase → List Ptr → Type 0
IsSoundPhase runs l = Unit
IsSoundPhase (executes c) l = (c ≢ null) × (1 ≤ count c l)
IsSoundPhase (waits c) l = c ≢ null

pub record IsSound (p : Proc) : Type 0 where
  pub listed : count null p.child_processes ≡ 0
  pub phase : IsSoundPhase p.phase p.child_processes

-- The `ref_cnt` of each allocated status is the number of references of the threads `ts` to it, and
-- some more; a status without a reference is not allocated.
pub record IsCounted (ts : List Ptr) (extra : Ptr → ℕ) (f : Family) : Type 0 where
  pub counted :
      (d : Ptr)
      → d ≢ null
      → (if f.allocated d then (f.children d).ref_cnt else 0) ≡ total ts f.procs d + extra d
  pub positive : (d : Ptr) → f.allocated d ≡ true → 1 ≤ (f.children d).ref_cnt
  pub no_null : f.allocated null ≡ false
  pub sound : (t : Ptr) → IsSound (f.procs t)

abbrev pub nothing : Ptr → ℕ
nothing d = 0

-- No reference is counted that no thread has.
abbrev pub IsShared : List Ptr → Family → Type 0
IsShared ts f = IsCounted ts nothing f

module _ (ts : List Ptr) where
  pub is_allocated :
      (extra : Ptr → ℕ) (f : Family) (c : Ptr)
      → IsCounted ts extra f
      → c ≢ null
      → 1 ≤ total ts f.procs c + extra c
      → f.allocated c ≡ true
  is_allocated extra f c h n l = let g = h.counted c n in ground (arith, g, l)

  pub set_proc-IsCounted :
      (extra extra' : Ptr → ℕ) (f : Family) (t : Ptr) (p : Proc)
      → IsCounted ts extra f
      → count t ts ≡ 1
      → IsSound p
      → ((d : Ptr) → d ≢ null → extra' d + references p d ≡ extra d + references (f.procs t) d)
      → IsCounted ts extra' (set_proc t p f)
  set_proc-IsCounted extra extra' f t p h o k e = record {
    counted = λ d n. h.counted d n ∙ omega (arith, e d n, total-update ts f.procs t p d o);
    positive = h.positive;
    no_null = h.no_null;
    sound = λ u. elim (Bool-cases (u == t)) [ inl q ↦ rw q k | inr q ↦ rw q (h.sound u) ];
  }

  abbrev pub with_child : Ptr → Child → Family → Family
  with_child c r f = record f { children = update f.children c r }

  pub with_child-IsCounted :
      (extra : Ptr → ℕ) (f : Family) (c : Ptr) (r : Child)
      → IsCounted ts extra f
      → r.ref_cnt ≡ (f.children c).ref_cnt
      → IsCounted ts extra (with_child c r f)
  with_child-IsCounted extra f c r h e = record {
    counted = λ d n. elim (Bool-cases (d == c)) [
      | inl q ↦
          let i : d ≡ c = ground arith in
          let g =
            subst
              (λ x.
                (if f.allocated x then (f.children c).ref_cnt else 0)
                ≡ total ts f.procs x + extra x)
              (sym i) (h.counted c (subst (λ x. x ≢ null) i n)) in
          rw (q, e) g
      | inr q ↦ rw q (h.counted d n)
    ];
    positive = λ d a. elim (Bool-cases (d == c)) [
      | inl q ↦
          let i : d ≡ c = ground arith in rw (q, e) (h.positive c (ap f.allocated (sym i) ∙ a))
      | inr q ↦ rw q (h.positive d a)
    ];
    no_null = h.no_null;
    sound = h.sound;
  }

  -- One reference less.
  abbrev pub released : Ptr → Family → Family
  released c f =
      let f' = with_child c (record (f.children c) { ref_cnt = (f.children c).ref_cnt - 1 }) f in
      if (f.children c).ref_cnt - 1 == 0
      then record f' { allocated = update f.allocated c false }
      else f'

  pub release_child_process-released :
      (f : Family) (c : Ptr) → f.allocated c ≡ true → release_child_process c f ≡ ok (released c f)
  unfolding release_child_process decrement_ref_cnt free_if_unused child_at set_child
  release_child_process-released f c a = let q : (c == c) ≡ true = ground arith in rw (a, a, q) refl

  pub released-IsShared :
      (f : Family) (c : Ptr) → IsCounted ts (one c) f → c ≢ null → IsShared ts (released c f)
  released-IsShared f c h n =
      let a = is_allocated (one c) f c h n (ground arith) in
      let one_more : (f.children c).ref_cnt ≡ total ts f.procs c + 1 =
        (let g = h.counted c n in ground (arith, g, a)) in
      elim (Bool-cases ((f.children c).ref_cnt - 1 == 0)) [
        | inl z ↦ rw z (record {
          counted = λ d m. elim (Bool-cases (d == c)) [
            | inl q ↦
                let i : d ≡ c = ground arith in
                let same : total ts f.procs d ≡ total ts f.procs c = ap (total ts f.procs) i in
                rw q (ground (arith, one_more, z, same))
            | inr q ↦ let g = h.counted d m in rw q (ground (arith, g, q))
          ];
          positive = λ d b. elim (Bool-cases (d == c)) [
            | inl q ↦ ground (arith, b, q)
            | inr q ↦ let g = h.positive d (ground (arith, b, q)) in rw q g
          ];
          no_null = ground (arith, h.no_null);
          sound = h.sound;
        })
        | inr z ↦ rw z (record {
          counted = λ d m. elim (Bool-cases (d == c)) [
            | inl q ↦
                let i : d ≡ c = ground arith in
                let same : total ts f.procs d ≡ total ts f.procs c = ap (total ts f.procs) i in
                let b : f.allocated d ≡ true = ap f.allocated i ∙ a in
                rw (q, b) (ground (arith, one_more, same))
            | inr q ↦ let g = h.counted d m in rw q (ground (arith, g, q))
          ];
          positive = λ d b. elim (Bool-cases (d == c)) [
            | inl q ↦ rw q (ground (arith, z))
            | inr q ↦ let g = h.positive d b in rw q g
          ];
          no_null = h.no_null;
          sound = h.sound;
        })
      ]

  pub released-procs : (f : Family) (c : Ptr) → (released c f).procs ≡ f.procs
  released-procs f c = ground arith

  -- A release of a status to which there is one reference more than those of the threads.
  pub release_child_process-IsShared :
      (f : Family) (c : Ptr)
      → IsCounted ts (one c) f
      → c ≢ null
      → Succeeds (λ f'. IsShared ts f' × (f'.procs ≡ f.procs)) (release_child_process c f)
  release_child_process-IsShared f c h n =
      rw (release_child_process-released f c (is_allocated (one c) f c h n (ground arith)))
        (released-IsShared f c h n, released-procs f c)
