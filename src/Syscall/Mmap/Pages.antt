-- ===== src/Syscall/Mmap/Pages.antt =====
-- Mapping the pages of a file, and taking them away again.
use mathlib.Core.Bool.{false≢true}
use gpintosy.Prelude.{
  ℕ, zero, suc, ◌+◌, ◌-◌, ◌*◌, ◌/◌, ◌%◌, ◌^◌, ◌≡◌, ◌≢◌, ◌≤◌, ◌<◌, refl, sym, ap, ◌∙◌, Bool, true,
  false, ◌&&◌, none, some, arith, ltb, leb, ◌==◌, if◌then◌else◌, Bool-cases, inl, inr,
}
use gpintosy.Kernel.{Ptr, null, ok}
use gpintosy.Vaddr.{phys_base, pg_ofs, pg_round_down}
use gpintosy.Swap.{Driver}
use gpintosy.Vm.{SptEntry, Files, set_entry}
use gpintosy.Syscall.{Sys, returns, malloc, free, Ends, Ends-mono}
use gpintosy.Syscall.Mmap.{
  mmap_entry, mmap_insert_page, insert_pages, remove_pages, mmap_remove_page, pages_for,
}

abbrev read_bytes_at : ℕ → ℕ → ℕ
read_bytes_at len offset = if ltb (len - offset) 4096 then len - offset else 4096

-- The entry of the page at an address of a mapping.
abbrev pub entry_at : Ptr → ℕ → Ptr → ℕ → Ptr → SptEntry
entry_at file md addr len v =
    mmap_entry file md v (v - addr) (read_bytes_at len (v - addr))
      (4096 - read_bytes_at len (v - addr))

-- Whether an address is that of a page from one address to before another.
abbrev pub is_page : Ptr → Ptr → Ptr → Bool
is_page from to v = leb from v && ltb v to && (v % 4096 == 0)

pub stopped_pages :
    (len : ℕ) (r : Bool × ℕ)
    → (r.0 ≡ true → r.1 ≡ 0 + 4096 * pages_for len)
    → r.1 % 4096 ≡ 0
    → pages_for (if r.0 then len else r.1) ≡ r.1 / 4096
stopped_pages len (true, to) c p = omega (arith, c refl)
stopped_pages len (false, to) c p = omega (arith, p)

module _ {D F : Type 0} where
  -- The entries are gone and the blocks given back; all is as it was.
  pub record IsRestored (s s' : Sys D F) : Type 0 where
    pub entries : (t v : Ptr) → s'.vm.spts t v ≡ s.vm.spts t v
    pub rest : s' ≡ record s { vm = record (s.vm) { spts = s'.vm.spts } }

module _ {D F : Type 0} (file : Ptr) (md : ℕ) (addr : Ptr) (len : ℕ) (aligned : addr % 4096 ≡ 0)
    (above : addr ≢ null) (below : addr + 4096 * pages_for len ≤ phys_base) where
  -- The entries of the pages of the mapping from one offset to before another are there, with a
  -- block each; all else is as before.
  pub record IsListed (from to : ℕ) (s s' : Sys D F) : Type 0 where
    pub entries :
        (v : Ptr)
        → s'.vm.spts s.vm.cur v ≡ (
            if is_page (addr + from) (addr + to) v
            then some (entry_at file md addr len v)
            else s.vm.spts s.vm.cur v)
    pub others : (t v : Ptr) → t ≢ s.vm.cur → s'.vm.spts t v ≡ s.vm.spts t v
    pub rest : s' ≡ record s { vm = record (s.vm) { spts = s'.vm.spts }; heap = s'.heap }
    pub blocks : s'.heap + (to - from) / 4096 ≡ s.heap

  mmap_insert_page-some :
      (ofs : ℕ) (s : Sys D F)
      → ofs % 4096 ≡ 0
      → s.vm.spts s.vm.cur (addr + ofs) ≡ none
      → (s.heap == 0) ≡ false
      → mmap_insert_page file md
          (addr + ofs)
          ofs
          (read_bytes_at len ofs)
          (4096 - read_bytes_at len ofs)
          s
        ≡ ok (
          returns true,
          record s {
            vm =
                set_entry s.vm s.vm.cur
                  (addr + ofs)
                  (some (entry_at file md addr len (addr + ofs)));
            heap = s.heap - 1;
          },
        )
  unfolding mmap_insert_page malloc pg_ofs
  mmap_insert_page-some ofs s a n h =
      let b : (addr + ofs) % 4096 ≡ 0 = omega (arith, aligned) in
      let c : (read_bytes_at len ofs + (4096 - read_bytes_at len ofs) == 4096) ≡ true =
        ground arith in
      let z : (addr + ofs == null) ≡ false = ground (arith, above) in
      let d : addr + ofs - addr ≡ ofs = omega arith in rw (b, c, h, z, n, d) refl

  mmap_insert_page-none :
      (ofs : ℕ) (s : Sys D F)
      → ofs % 4096 ≡ 0
      → (s.heap == 0) ≡ true
      → mmap_insert_page file md
          (addr + ofs)
          ofs
          (read_bytes_at len ofs)
          (4096 - read_bytes_at len ofs)
          s
        ≡ ok (returns false, s)
  unfolding mmap_insert_page malloc pg_ofs
  mmap_insert_page-none ofs s a h =
      let b : (addr + ofs) % 4096 ≡ 0 = omega (arith, aligned) in
      let c : (read_bytes_at len ofs + (4096 - read_bytes_at len ofs) == 4096) ≡ true =
        ground arith in
      rw (b, c, h) refl

  -- The loop of `sys_mmap` stops at an offset: the end, or where there is no memory.
  pub record IsStopped (n from : ℕ) (s : Sys D F) (r : Bool × ℕ) (s' : Sys D F) : Type 0 where
    pub complete : r.0 ≡ true → r.1 ≡ from + 4096 * n
    pub low : from ≤ r.1
    pub high : r.1 ≤ from + 4096 * n
    pub page : r.1 % 4096 ≡ 0
    pub listed : IsListed from r.1 s s'

  IsListed-none : (from : ℕ) (s : Sys D F) → IsListed from from s s
  IsListed-none from s = record {
    entries = λ v. ground arith;
    others = λ t v h. refl;
    rest = refl;
    blocks = omega arith;
  }

  -- The state with the entry of one more page.
  abbrev after : Sys D F → ℕ → Sys D F
  after s ofs = record s {
    vm = set_entry s.vm s.vm.cur (addr + ofs) (some (entry_at file md addr len (addr + ofs)));
    heap = s.heap - 1;
  }

  after_page :
      (from to : ℕ) (s s' : Sys D F)
      → from % 4096 ≡ 0
      → from + 4096 ≤ to
      → (s.heap == 0) ≡ false
      → IsListed
          (from + 4096)
          to
          (record s {
            vm =
                set_entry s.vm s.vm.cur
                  (addr + from)
                  (some (entry_at file md addr len (addr + from)));
            heap = s.heap - 1;
          })
          s'
      → IsListed from to s s'
  after_page from to s s' a l h t = record {
    entries = λ v. t.entries v ∙ (elim (Bool-cases (v == addr + from)) [
      | inl e ↦
          let i : v ≡ addr + from = ground arith in
          let same : some (entry_at file md addr len (addr + from))
              ≡ some (entry_at file md addr len v) =
            ap (λ x. some (entry_at file md addr len x)) (sym i) in
          ground (arith, same, aligned, a, l)
      | inr e ↦ ground (arith, aligned, a, l)
    ]);
    others = λ u v n. t.others u v n ∙ ground (arith, n);
    rest = t.rest;
    blocks = ground (arith, t.blocks);
  }

  pub insert_pages-IsStopped :
      (n from : ℕ) (s : Sys D F)
      → from % 4096 ≡ 0
      → from + 4096 * n ≤ 4096 * pages_for len
      → ((i : ℕ) → i < n → s.vm.spts s.vm.cur (addr + (from + 4096 * i)) ≡ none)
      → Ends (IsStopped n from s) (insert_pages n file md addr len from s)
  unfolding insert_pages
  insert_pages-IsStopped zero from s a u f = record {
    complete = λ e. omega arith;
    low = omega arith;
    high = omega arith;
    page = a;
    listed = IsListed-none from s;
  }
  insert_pages-IsStopped (suc n) from s a u f =
      let w : (addr + from) % 2 ^ 32 ≡ addr + from = omega (arith, u, below) in
      elim (Bool-cases (s.heap == 0)) [
        | inl h ↦
            rw (w, mmap_insert_page-none from s a h)
              (record {
                complete = λ e. absurd (false≢true e);
                low = omega arith;
                high = omega arith;
                page = a;
                listed = IsListed-none from s;
              })
        | inr h ↦
            rw
              (
                w,
                mmap_insert_page-some from s a
                    (ap (λ x. s.vm.spts s.vm.cur (addr + x)) (omega arith) ∙ f 0 (omega arith)) h,
              )
              (Ends-mono (IsStopped n (from + 4096) (after s from)) (IsStopped (suc n) from s)
                (insert_pages n file md addr len (from + 4096) (after s from))
                (insert_pages-IsStopped n (from + 4096) (after s from) (omega (arith, a))
                  (omega (arith, u))
                  (λ i l.
                    let same : addr + (from + 4096 + 4096 * i) ≡ addr + (from + 4096 * suc i) =
                      omega arith in
                    let g = ap (λ x. s.vm.spts s.vm.cur x) same ∙ f (suc i) (omega (arith, l)) in
                    ground (arith, g)))
                (λ r s' t. record {
                  complete = λ e. omega (arith, t.complete e);
                  low = omega (arith, t.low);
                  high = omega (arith, t.high);
                  page = t.page;
                  listed = after_page from r.1 s s' a t.low h t.listed;
                }))
      ]

  -- The state without the entry of a page.
  abbrev without : Sys D F → ℕ → Sys D F
  without s ofs = record s { vm = set_entry s.vm s.vm.cur (addr + ofs) none; heap = s.heap + 1 }

  before_page :
      (from to : ℕ) (s s' : Sys D F)
      → from % 4096 ≡ 0
      → from + 4096 ≤ to
      → s.vm.spts s.vm.cur (addr + from) ≡ none
      → IsListed from to s s'
      → IsListed (from + 4096) to s (without s' from)
  before_page from to s s' a l n t =
      let cur : s'.vm.cur ≡ s.vm.cur = ap (λ x. x.vm.cur) t.rest in
      record {
        entries = λ v. elim (Bool-cases (v == addr + from)) [
          | inl e ↦
              let i : v ≡ addr + from = ground arith in
              let g : s.vm.spts s.vm.cur v ≡ none = ap (s.vm.spts s.vm.cur) i ∙ n in
              rw cur (ground (arith, g))
          | inr e ↦ let g = t.entries v in rw cur (ground (arith, g, aligned, a, l))
        ];
        others = λ u v h. let g = t.others u v h in rw cur (ground (arith, g, h));
        rest =
            ap {A = Sys D F} {B = Sys D F}
              (λ x. record x {
                vm = record (x.vm) { spts = (without s' from).vm.spts };
                heap = s'.heap + 1;
              })
              t.rest;
        blocks = ground (arith, t.blocks);
      }

  module _ (driver : Driver D) (fs : Files F) where
    remove_pages-entry :
        (n from : ℕ) (s : Sys D F)
        → from % 4096 ≡ 0
        → from + 4096 ≤ 4096 * pages_for len
        → s.vm.spts s.vm.cur (addr + from) ≡ some (entry_at file md addr len (addr + from))
        → remove_pages driver fs (suc n) md (addr + from) s
          ≡ remove_pages driver fs n md (addr + from + 4096) (without s from)
    unfolding remove_pages mmap_remove_page free pg_round_down
    remove_pages-entry n from s a u g =
        let w : (addr + from + 4096) % 2 ^ 32 ≡ addr + from + 4096 = omega (arith, u, below) in
        let b : addr + from - (addr + from) % 4096 ≡ addr + from = omega (arith, aligned, a) in
        let c : (md == md) ≡ true = ground arith in rw (b, g, c, w) refl

    pub remove_pages-IsRestored :
        (n from to : ℕ) (s s' : Sys D F)
        → from % 4096 ≡ 0
        → to ≡ from + 4096 * n
        → to ≤ 4096 * pages_for len
        → ((i : ℕ) → i < n → s.vm.spts s.vm.cur (addr + (from + 4096 * i)) ≡ none)
        → IsListed from to s s'
        → Ends (λ _. IsRestored s) (remove_pages driver fs n md (addr + from) s')
    unfolding remove_pages
    remove_pages-IsRestored zero from to s s' a w u f t =
        let h : s'.heap ≡ s.heap = ground (arith, t.blocks, w) in
        record {
          entries = λ o v. elim (Bool-cases (o == s.vm.cur)) [
            | inl e ↦
                let i : o ≡ s.vm.cur = ground arith in
                let g = t.entries v in rw i (ground (arith, g, w))
            | inr e ↦ t.others o v (ground arith)
          ];
          rest =
              t.rest ∙ ap (λ x. record s { vm = record (s.vm) { spts = s'.vm.spts }; heap = x }) h;
        }
    remove_pages-IsRestored (suc n) from to s s' a w u f t =
        let none_here : s.vm.spts s.vm.cur (addr + from) ≡ none =
          ap (λ x. s.vm.spts s.vm.cur (addr + x)) (omega arith) ∙ f 0 (omega arith) in
        let cur : s'.vm.cur ≡ s.vm.cur = ap (λ x. x.vm.cur) t.rest in
        let here : s'.vm.spts s'.vm.cur (addr + from)
            ≡ some (entry_at file md addr len (addr + from)) =
          rw cur (t.entries (addr + from) ∙ ground (arith, aligned, a, w)) in
        let assoc : addr + from + 4096 ≡ addr + (from + 4096) = omega arith in
        rw (remove_pages-entry n from s' a (omega (arith, w, u)) here, assoc)
          (remove_pages-IsRestored n (from + 4096) to s (without s' from) (omega (arith, a))
            (omega (arith, w)) u
            (λ i l.
              ap (λ x. s.vm.spts s.vm.cur (addr + x)) (omega arith) ∙ f (suc i) (omega (arith, l)))
            (before_page from to s s' a (omega (arith, w)) none_here t))
