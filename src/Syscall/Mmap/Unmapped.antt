-- ===== src/Syscall/Mmap/Unmapped.antt =====
-- src/userprog/syscall.c: the end of `sys_mmap`, and `sys_munmap` of what it has recorded.
use mathlib.Core.Path.{subst}
use gpintosy.Prelude.{
  ℕ, ◌+◌, ◌*◌, ◌/◌, ◌%◌, ◌≡◌, ◌≢◌, ◌≤◌, ◌<◌, refl, sym, ap, ◌∙◌, Bool, true, false, Option, none,
  some, List, [], ◌∷◌, ◌++◌, arith, ◌==◌, Bool-cases, inl, inr,
}
use gpintosy.Kernel.{Ptr, null, ok}
use gpintosy.Vaddr.{phys_base}
use gpintosy.Swap.{Driver}
use gpintosy.Files.{FileSys, file_close}
use gpintosy.Vm.{SptEntry, Files}
use gpintosy.Syscall.{Mapping, Sys, Call, ◌>>=◌, pure, free, Ends, Ends-next}
use gpintosy.Syscall.Mmap.{
  find_mapping, remove_mapping, lookup_mapping, pages_for, insert_pages, remove_pages, take_away,
  unmap_found, sys_munmap, record_mapping,
}
use gpintosy.Syscall.Mmap.Pages.{
  IsRestored, IsListed, IsStopped, insert_pages-IsStopped, remove_pages-IsRestored,
}

find_mapping-append :
    (m : Mapping) (l : List Mapping)
    → find_mapping m.md l ≡ none
    → find_mapping m.md (l ++ m ∷ []) ≡ some m
unfolding find_mapping
find_mapping-append m [] h = ground arith
find_mapping-append m (n ∷ l) h = elim (Bool-cases (n.md == m.md)) [
  | inl e ↦ absurd (ground (arith, h, e))
  | inr e ↦ let g = find_mapping-append m l (ground (arith, h, e)) in rw e g
]

remove_mapping-append :
    (m : Mapping) (l : List Mapping)
    → find_mapping m.md l ≡ none
    → remove_mapping m.md (l ++ m ∷ []) ≡ l
unfolding find_mapping remove_mapping
remove_mapping-append m [] h = ground arith
remove_mapping-append m (n ∷ l) h = elim (Bool-cases (n.md == m.md)) [
  | inl e ↦ absurd (ground (arith, h, e))
  | inr e ↦ let g = remove_mapping-append m l (ground (arith, h, e)) in rw (e, g) refl
]

module _ {D E : Type 0} (driver : Driver D) (fs : Files (FileSys E)) where
  -- `sys_munmap` of what a mapping has recorded, if it has.
  abbrev pub unmap_recorded : Option ℕ → Call D (FileSys E) (Unit {0})
  unmap_recorded none = pure tt
  unmap_recorded (some md) = sys_munmap driver fs md

  sys_munmap-found :
      (md : ℕ) (m : Mapping) (s : Sys D (FileSys E))
      → find_mapping md s.mmap_list ≡ some m
      → sys_munmap driver fs md s ≡ unmap_found driver fs md (some m) s
  unfolding sys_munmap lookup_mapping
  sys_munmap-found md m s h = ap (λ o. unmap_found driver fs md o s) h

module _ {D E : Type 0} (files : FileSys E) where
  -- All is as before, but for the file, which is closed, and the block of the mapping, which is free.
  pub record IsTakenAway (s s' : Sys D (FileSys E)) : Type 0 where
    pub entries : (t v : Ptr) → s'.vm.spts t v ≡ s.vm.spts t v
    pub rest :
        s' ≡ record s { vm = record (s.vm) { spts = s'.vm.spts; files = files }; heap = s.heap + 1 }

module _ {D E : Type 0} (driver : Driver D) (fs : Files (FileSys E)) (file : Ptr) (md : ℕ)
    (addr : Ptr) (len : ℕ) (aligned : addr % 4096 ≡ 0) (above : addr ≢ null)
    (below : addr + 4096 * pages_for len ≤ phys_base) (s : Sys D (FileSys E)) (files : FileSys E)
    (new : find_mapping md s.mmap_list ≡ none) (closes : file_close file s.vm.files ≡ ok files)
    (fresh : (i : ℕ) → i < pages_for len → s.vm.spts s.vm.cur (addr + 4096 * i) ≡ none) where
  abbrev mapping : ℕ → Mapping
  mapping length = record { md = md; addr = addr; length = length; file = file }

  -- The state with the mapping in the list.
  abbrev recorded : ℕ → Sys D (FileSys E) → Sys D (FileSys E)
  recorded length s = record s { mmap_list = s.mmap_list ++ mapping length ∷ [] }

  recorded-IsListed :
      (length to : ℕ) (s' : Sys D (FileSys E))
      → IsListed file md addr len aligned above below 0 to s s'
      → IsListed file md addr len aligned above below 0 to (recorded length s) (recorded length s')
  recorded-IsListed length to s' t = record {
    entries = t.entries;
    others = t.others;
    rest = ap {A = Sys D (FileSys E)} {B = Sys D (FileSys E)} (λ x. recorded length x) t.rest;
    blocks = t.blocks;
  }

  found :
      (length : ℕ) → find_mapping md (s.mmap_list ++ mapping length ∷ []) ≡ some (mapping length)
  found length = find_mapping-append (mapping length) s.mmap_list new

  removed : (length : ℕ) → remove_mapping md (s.mmap_list ++ mapping length ∷ []) ≡ s.mmap_list
  removed length = remove_mapping-append (mapping length) s.mmap_list new

  take_away-IsTakenAway :
      (length : ℕ) (spts : Ptr → Ptr → Option SptEntry)
      → ((t v : Ptr) → spts t v ≡ s.vm.spts t v)
      → Ends
          (λ _. IsTakenAway files s)
          (take_away driver fs md file
            (record (recorded length s) { vm = record (s.vm) { spts = spts } }))
  unfolding free
  take_away-IsTakenAway length spts h =
      rw (removed length, closes) (record { entries = h; rest = refl })

  removes :
      (length to : ℕ) (s' : Sys D (FileSys E))
      → pages_for length ≡ to / 4096
      → to % 4096 ≡ 0
      → to ≤ 4096 * pages_for len
      → IsListed file md addr len aligned above below 0 to s s'
      → Ends
          (λ _. IsRestored (recorded length s))
          (remove_pages driver fs (pages_for length) md addr (recorded length s'))
  removes length to s' n p u t =
      let start : addr ≡ addr + 0 = omega arith in
      rw n (
        subst
          (λ a.
            Ends (λ _. IsRestored (recorded length s))
              (remove_pages driver fs (to / 4096) md a (recorded length s')))
          (sym start)
          (remove_pages-IsRestored file md addr len aligned above below driver fs (to / 4096) 0 to
            (recorded length s) (recorded length s') refl (omega (arith, p)) u
            (λ i l.
              ap (λ x. s.vm.spts s.vm.cur (addr + x)) (omega arith)
              ∙ fresh i (omega (arith, l, p, u)))
            (recorded-IsListed length to s' t)))

  sys_munmap-IsTakenAway :
      (length to : ℕ) (s' : Sys D (FileSys E))
      → pages_for length ≡ to / 4096
      → to % 4096 ≡ 0
      → to ≤ 4096 * pages_for len
      → IsListed file md addr len aligned above below 0 to s s'
      → Ends (λ _. IsTakenAway files s) (sys_munmap driver fs md (recorded length s'))
  sys_munmap-IsTakenAway length to s' n p u t =
      let same : s'.mmap_list ≡ s.mmap_list = ap (λ x. x.mmap_list) t.rest in
      let f : find_mapping md (s'.mmap_list ++ mapping length ∷ []) ≡ some (mapping length) =
        rw same (found length) in
      rw (sys_munmap-found driver fs md (mapping length) (recorded length s') f) (
        Ends-next (λ _. IsRestored (recorded length s)) (λ _. IsTakenAway files s)
          (λ _. take_away driver fs md file)
          (remove_pages driver fs (pages_for length) md addr (recorded length s'))
          (removes length to s' n p u t)
          (λ _ s1 r.
            subst (λ x. Ends (λ _. IsTakenAway files s) (take_away driver fs md file x))
              (sym r.rest) (take_away-IsTakenAway length s1.vm.spts r.entries)))

  record_mapping-IsTakenAway :
      (r : Bool × ℕ) (s' : Sys D (FileSys E))
      → IsStopped file md addr len aligned above below (pages_for len) 0 s r s'
      → Ends
          (λ _. IsTakenAway files s)
          ((record_mapping driver fs md addr len file r >>= unmap_recorded driver fs) s')
  unfolding record_mapping
  record_mapping-IsTakenAway (true, to) s' t =
      sys_munmap-IsTakenAway len to s' (omega (arith, t.complete refl)) t.page
        (omega (arith, t.high)) t.listed
  record_mapping-IsTakenAway (false, to) s' t =
      let P : Option ℕ → Sys D (FileSys E) → Type 0 =
        (λ o s1. Ends (λ _. IsTakenAway files s) (unmap_recorded driver fs o s1)) in
      Ends-next P (λ _. IsTakenAway files s) (unmap_recorded driver fs)
        (record_mapping driver fs md addr len file (false, to) s')
        (Ends-next (λ _. IsTakenAway files s) P (λ _. pure none)
          (sys_munmap driver fs md (recorded to s'))
          (sys_munmap-IsTakenAway to to s' (omega (arith, t.page)) t.page (omega (arith, t.high))
            t.listed)
          (λ _ s1 r. r))
        (λ o s1 r. r)

  -- For an address of a page, not page 0, from which on the pages of a mapping are below PHYS_BASE and
  -- not in the table, an identifier that no mapping has, and a file that can be closed: if the pages of
  -- the mapping are inserted, all or as many as there is memory for, and recorded as `sys_mmap`
  -- does, and what is recorded is then taken away by `sys_munmap`, no assertion fails, and all is as
  -- before, but for the file, which is closed, and the block of the mapping, which is free.
  pub record_mapping-sys_munmap :
      Ends
        (λ _. IsTakenAway files s)
        ((insert_pages (pages_for len) file md addr len 0 >>= λ r.
            record_mapping driver fs md addr len file r >>= unmap_recorded driver fs)
          s)
  record_mapping-sys_munmap =
      Ends-next (IsStopped file md addr len aligned above below (pages_for len) 0 s)
        (λ _. IsTakenAway files s)
        (λ r. record_mapping driver fs md addr len file r >>= unmap_recorded driver fs)
        (insert_pages (pages_for len) file md addr len 0 s)
        (insert_pages-IsStopped file md addr len aligned above below (pages_for len) 0 s refl
          (omega arith) (λ i l. ap (λ x. s.vm.spts s.vm.cur (addr + x)) (omega arith) ∙ fresh i l))
        record_mapping-IsTakenAway
