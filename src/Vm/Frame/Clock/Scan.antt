-- ===== src/Vm/Frame/Clock/Scan.antt =====
-- What a scan does on its way: it takes a frame, or no candidate behind it counts as used.
use gpintosy.Prelude.{
  ℕ, zero, suc, ◌+◌, ◌≡◌, ◌≤◌, refl, sym, ap, ◌∙◌, Bool, true, false, Option, none, some, List, [],
  ◌∷◌, length, arith, ◌==◌, ◌⊎◌, inl, inr, Bool-cases,
}
use gpintosy.KernelList.Count.{count}
use gpintosy.Kernel.{Ptr}
use gpintosy.Vaddr.{pg_round_down}
use gpintosy.Pagedir.{Pagedir}
use gpintosy.Pagedir.Map.{pagedir_set_accessed-off}
use gpintosy.Vm.{Vm}
use gpintosy.Vm.Frame.{
  next_or_first, or_else, is_candidate, is_accessed, clear_accessed, scan_clock,
}
use gpintosy.Vm.Frame.Clock.Round.{Walk}

module _ {D F : Type 0} where
  -- Whether the processor has used the frame's page since the clock last looked.
  abbrev pub used : Vm D F → Ptr → Bool
  used vm c = is_accessed vm (vm.frames c).owner (pg_round_down (vm.frames c).upage)

  -- The clock has looked at the frames of a list, and none of the candidates there counts as used.
  pub record IsTamed (vm vm' : Vm D F) (l : List Ptr) : Type 0 where
    pub table : vm'.frame_table ≡ vm.frame_table
    frames : vm'.frames ≡ vm.frames
    pub candidates : (c : Ptr) → is_candidate vm' c ≡ is_candidate vm c
    mono : (c : Ptr) → used vm c ≡ false → used vm' c ≡ false
    pub done : (c : Ptr) → 1 ≤ count c l → is_candidate vm c ≡ true → used vm' c ≡ false

  -- The answer of a scan is a candidate.
  abbrev pub IsTaken : Vm D F → Option Ptr × Vm D F → Type 0
  IsTaken vm r = (v : Ptr) × (r.0 ≡ some v) × (is_candidate vm v ≡ true)

  -- One step gives a second chance.
  abbrev chance : Vm D F → Ptr → Vm D F
  chance vm c = clear_accessed vm (vm.frames c).owner (pg_round_down (vm.frames c).upage)

  chance-candidate : (vm : Vm D F) (a c : Ptr) → is_candidate (chance vm a) c ≡ is_candidate vm c
  unfolding is_candidate
  chance-candidate vm a c = ground arith

  chance-used : (vm : Vm D F) (a c : Ptr) → used (chance vm a) c ≡ true → used vm c ≡ true
  chance-used vm a c = look (vm.pagedirs (vm.frames a).owner) refl
    where
      look :
          (o : Option Pagedir)
          → vm.pagedirs (vm.frames a).owner ≡ o
          → used (chance vm a) c ≡ true
          → used vm c ≡ true
      look none e = ground (arith, e)
      look (some pd) e = ground (
        arith,
        e,
        pagedir_set_accessed-off pd (pg_round_down (vm.frames a).upage)
            (pg_round_down (vm.frames c).upage),
      )

  chance-gone : (vm : Vm D F) (a : Ptr) → used (chance vm a) a ≡ false
  chance-gone vm a = look (vm.pagedirs (vm.frames a).owner) refl
    where
      look :
          (o : Option Pagedir) → vm.pagedirs (vm.frames a).owner ≡ o → used (chance vm a) a ≡ false
      look none e = ground (arith, e)
      look (some pd) e = ground (
        arith,
        e,
        pagedir_set_accessed-off pd (pg_round_down (vm.frames a).upage)
            (pg_round_down (vm.frames a).upage),
      )

  chance-IsTamed : (vm : Vm D F) (a : Ptr) → IsTamed vm (chance vm a) (a ∷ [])
  chance-IsTamed vm a = record {
    table = ground arith;
    frames = ground arith;
    candidates = chance-candidate vm a;
    mono = λ c. ground (arith, chance-used vm a c);
    done = λ c h k. ground (arith, chance-gone vm a);
  }

  skip-IsTamed : (vm : Vm D F) (a : Ptr) → is_candidate vm a ≡ false → IsTamed vm vm (a ∷ [])
  skip-IsTamed vm a n = record {
    table = refl;
    frames = refl;
    candidates = λ c. refl;
    mono = λ c h. h;
    done = λ c h k. absurd (ground arith);
  }

  IsTamed-trans :
      {vm vm1 vm2 : Vm D F} (a : Ptr) (l : List Ptr)
      → IsTamed vm vm1 (a ∷ [])
      → IsTamed vm1 vm2 l
      → IsTamed vm vm2 (a ∷ l)
  IsTamed-trans a l p q = record {
    table = q.table ∙ p.table;
    frames = q.frames ∙ p.frames;
    candidates = λ c. q.candidates c ∙ p.candidates c;
    mono = λ c h. q.mono c (p.mono c h);
    done = λ c h k. elim (Bool-cases (a == c)) [
      | inl e ↦ q.mono c (p.done c (ground arith) k)
      | inr e ↦ q.done c (ground arith) (p.candidates c ∙ k)
    ];
  }

  abbrev next : Vm D F → Ptr → Ptr
  next vm a = or_else (next_or_first vm.frame_table vm.frame_table a) a

  module _ (n : ℕ) (a : Ptr) (vm : Vm D F) where
    scan-skip : is_candidate vm a ≡ false → scan_clock (suc n) a vm ≡ scan_clock n (next vm a) vm
    unfolding scan_clock
    scan-skip c = rw c refl

    scan-chance :
        is_candidate vm a ≡ true
        → used vm a ≡ true
        → scan_clock (suc n) a vm ≡ scan_clock n (next vm a) (chance vm a)
    unfolding scan_clock
    scan-chance c u = rw (c, u) refl

    scan-take :
        is_candidate vm a ≡ true
        → used vm a ≡ false
        → scan_clock (suc n) a vm ≡ (some a, record vm { clock_hand = some (next vm a) })
    unfolding scan_clock
    scan-take c u = rw (c, u) refl

  -- What a scan does with the frames of a list: it takes one, or goes on behind them.
  abbrev Scanned : ℕ → ℕ → List Ptr → Ptr → Ptr → Vm D F → Type 0
  Scanned n m l h h' vm =
      IsTaken vm (scan_clock n h vm)
      ⊎ ((vm' : Vm D F) × (scan_clock n h vm ≡ scan_clock m h' vm') × IsTamed vm vm' l)

  after_one :
      (n m : ℕ) (a : Ptr) (l : List Ptr) (h' : Ptr) (vm vm1 : Vm D F)
      → scan_clock (suc n) a vm ≡ scan_clock n (next vm a) vm1
      → IsTamed vm vm1 (a ∷ [])
      → Scanned n m l (next vm a) h' vm1
      → Scanned (suc n) m (a ∷ l) a h' vm
  after_one n m a l h' vm vm1 e t (inl (v, f, c)) =
      inl (v, ap (λ r. r.0) e ∙ f, sym (t.candidates v) ∙ c)
  after_one n m a l h' vm vm1 e t (inr (vm2, f, u)) = inr (vm2, e ∙ f, IsTamed-trans a l t u)

  pub scan :
      (n m : ℕ) (l : List Ptr) (h h' : Ptr) (vm : Vm D F)
      → n ≡ length l + m
      → Walk vm.frame_table l h h'
      → Scanned n m l h h' vm
  scan n m [] h h' vm e w = inr (
    vm,
    (let p : n ≡ m = omega arith in rw (p, w) refl),
    record {
      table = refl;
      frames = refl;
      candidates = λ c. refl;
      mono = λ c k. k;
      done = λ c k i. absurd (omega arith);
    },
  )
  scan zero m (a ∷ l) h h' vm e w = absurd (omega arith)
  scan (suc n) m (a ∷ l) h h' vm e (q, w) = rw q (elim (Bool-cases (is_candidate vm a)) [
    | inr c ↦
        after_one n m a l h' vm vm (scan-skip n a vm c) (skip-IsTamed vm a c)
          (scan n m l (next vm a) h' vm (omega arith) w)
    | inl c ↦ elim (Bool-cases (used vm a)) [
      | inr u ↦ inl (a, ap (λ r. r.0) (scan-take n a vm c u), c)
      | inl u ↦
          let t = chance-IsTamed vm a in
          after_one n m a l h' vm (chance vm a) (scan-chance n a vm c u) t
            (scan n m l (next vm a) h' (chance vm a) (omega arith) (rw t.table w))
    ]
  ])

  IsTaken-back :
      (n : ℕ) (a : Ptr) (vm vm1 : Vm D F)
      → scan_clock (suc n) a vm ≡ scan_clock n (next vm a) vm1
      → IsTamed vm vm1 (a ∷ [])
      → IsTaken vm1 (scan_clock n (next vm a) vm1)
      → IsTaken vm (scan_clock (suc n) a vm)
  IsTaken-back n a vm vm1 e t (v, f, c) = (v, ap (λ r. r.0) e ∙ f, sym (t.candidates v) ∙ c)

  -- Round once more, with a candidate that does not count as used.
  pub scan_unused :
      (n : ℕ) (l : List Ptr) (h h' c : Ptr) (vm : Vm D F)
      → n ≡ length l
      → Walk vm.frame_table l h h'
      → 1 ≤ count c l
      → is_candidate vm c ≡ true
      → used vm c ≡ false
      → IsTaken vm (scan_clock n h vm)
  scan_unused n [] h h' c vm e w k i u = absurd (omega arith)
  scan_unused zero (a ∷ l) h h' c vm e w k i u = absurd (omega arith)
  scan_unused (suc n) (a ∷ l) h h' c vm e (q, w) k i u =
      rw q (elim (Bool-cases (is_candidate vm a)) [
        | inr d ↦
            IsTaken-back n a vm vm (scan-skip n a vm d) (skip-IsTamed vm a d)
              (scan_unused n l (next vm a) h' c vm (omega arith) w (ground (arith, i, d)) i u)
        | inl d ↦ elim (Bool-cases (used vm a)) [
          | inr v ↦ (a, ap (λ r. r.0) (scan-take n a vm d v), d)
          | inl v ↦
              let t = chance-IsTamed vm a in
              IsTaken-back n a vm (chance vm a) (scan-chance n a vm d v) t (
                scan_unused n l (next vm a) h' c (chance vm a) (omega arith) (rw t.table w)
                  (ground (arith, u, v)) (t.candidates c ∙ i) (t.mono c u))
        ]
      ])
