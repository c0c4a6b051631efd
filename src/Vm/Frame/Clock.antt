-- ===== src/Vm/Frame/Clock.antt =====
-- The clock finds a victim if there is one.
pub mod Round
pub mod Scan
use mathlib.Core.Path.{subst}
use mathlib.Core.List.{append_assoc}
use gpintosy.Prelude.{
  ℕ, zero, suc, ◌+◌, ◌*◌, ◌≡◌, ◌≢◌, ◌≤◌, ◌<◌, refl, sym, ap, ◌∙◌, Bool, true, false, not, ◌&&◌,
  Option, none, some, List, [], ◌∷◌, ◌++◌, length, length-append, arith, ◌==◌, if◌then◌else◌, ◌⊎◌,
  inl, inr, Bool-cases,
}
use gpintosy.KernelList.Count.{count, count-append}
use gpintosy.Kernel.{Ptr, null, update}
use gpintosy.Vaddr.{pg_no, pg_round_down}
use gpintosy.Pagedir.{Pagedir, pagedir_is_accessed, pagedir_set_accessed}
use gpintosy.Pagedir.Map.{pagedir_set_accessed-off}
use gpintosy.Vm.{FrameEntry, Vm, set_pagedir}
use gpintosy.Vm.Frame.{
  next_or_first, first_of, or_else, is_candidate, is_accessed, clear_accessed, scan_clock,
  frame_select_victim_clock_locked,
}
use gpintosy.Vm.Frame.Clock.Round.{Walk, Walk-round}
use gpintosy.Vm.Frame.Clock.Scan.{IsTaken, scan, scan_unused}

split_at :
    (c : Ptr) (l : List Ptr) → 1 ≤ count c l → (p : List Ptr) × (s : List Ptr) × (l ≡ p ++ c ∷ s)
split_at c [] h = absurd (omega arith)
split_at c (a ∷ l) h = elim (Bool-cases (a == c)) [
  | inl e ↦ let q : a ≡ c = ground arith in ([], l, rw q refl)
  | inr e ↦ let (p, s, q) = split_at c l (ground arith) in (a ∷ p, s, rw (← q) refl)
]

module _ {D F : Type 0} (vm : Vm D F) (once : (x : Ptr) → count x vm.frame_table ≤ 1) (c : Ptr)
    (listed : 1 ≤ count c vm.frame_table) (candidate : is_candidate vm c ≡ true) where
  round_twice :
      (p : List Ptr) (a : Ptr) (s : List Ptr)
      → vm.frame_table ≡ p ++ a ∷ s
      → IsTaken vm (scan_clock (length vm.frame_table * 2) a vm)
  round_twice p a s e =
      let lap = (a ∷ s) ++ p in
      let w = Walk-round vm.frame_table once p a s e in
      let same : length vm.frame_table ≡ length lap =
        omega (arith, ap length e, length-append p (a ∷ s), length-append (a ∷ s) p) in
      let there : 1 ≤ count c lap =
        omega (arith, listed, ap (count c) e, count-append c p (a ∷ s), count-append c (a ∷ s) p) in
      elim (scan (length vm.frame_table * 2) (length lap) lap a a vm (omega (arith, same)) w) [
        | inl t ↦ t
        | inr (vm', q, t) ↦
            let (v, f, d) =
              scan_unused (length lap) lap a a c vm' refl
                (subst (λ x. Walk x lap a a) (sym t.table) w) there (t.candidates c ∙ candidate)
                (t.done c there candidate) in
            (v, ap (λ r. r.0) q ∙ f, sym (t.candidates v) ∙ d)
      ]

  select_scans :
      (first : Ptr) (l : List Ptr) (hand : Ptr)
      → vm.frame_table ≡ first ∷ l
      → or_else vm.clock_hand first ≡ hand
      → frame_select_victim_clock_locked vm ≡ scan_clock (length vm.frame_table * 2) hand vm
  unfolding frame_select_victim_clock_locked
  select_scans first l hand e h = rw (e, h) refl

  -- If the table holds a frame that may be taken, the clock finds a victim in two rounds, wherever
  -- the hand stands and whichever pages were used: a frame that is not pinned and that a process
  -- with a page directory has mapped. The table holds each frame once, and the hand is at one.
  pub frame_select_victim-IsTaken :
      (hand : Ptr)
      → 1 ≤ count hand vm.frame_table
      → or_else vm.clock_hand (or_else (first_of vm.frame_table) null) ≡ hand
      → (v : Ptr) × ((frame_select_victim_clock_locked vm).0 ≡ some v) × (is_candidate vm v ≡ true)
  frame_select_victim-IsTaken hand k h = look vm.frame_table refl
    where
      look :
          (l : List Ptr)
          → vm.frame_table ≡ l
          → (v : Ptr) × ((frame_select_victim_clock_locked vm).0 ≡ some v)
            × (is_candidate vm v ≡ true)
      look [] e = absurd (omega (arith, listed, ap (count c) e))
      look (first ∷ l) e =
          let (p, s, q) = split_at hand vm.frame_table k in
          let at : or_else vm.clock_hand first ≡ hand =
            ap (λ x. or_else vm.clock_hand (or_else (first_of x) null)) (sym e) ∙ h in
          let (v, f, d) = round_twice p hand s q in
          (v, ap (λ r. r.0) (select_scans first l hand e at) ∙ f, d)
