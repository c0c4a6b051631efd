-- ===== src/Process/Load/Segment.antt =====
-- The pages of a segment.
use gpintosy.Prelude.{
  ℕ, zero, suc, ◌+◌, ◌-◌, ◌*◌, ◌/◌, ◌^◌, ◌%◌, ◌≡◌, ◌≢◌, ◌≤◌, ◌<◌, refl, sym, ap, ◌∙◌, Bool, true,
  false, ◌&&◌, none, some, arith, ltb, ◌==◌, if◌then◌else◌, Bool-cases, inl, inr,
}
use mathlib.Core.Path.{subst}
use gpintosy.Kernel.{Ptr, null, ok}
use gpintosy.Vaddr.{pgsize, phys_base, pg_ofs, is_user_vaddr}
use gpintosy.Files.{FileSys, set_file, file_seek}
use gpintosy.Vm.{SptEntry, set_entry}
use gpintosy.Syscall.{Sys, returns, malloc, Ends, Ends-mono}
use gpintosy.Syscall.Mmap.Pages.{is_page}
use gpintosy.Process.Load.{
  Phdr, Extent, add, sub, round_up, validate_segment, extent_of, segment_entry, process_spt_insert,
  load_pages, load_segment,
}

-- The numbers of a segment are 32-bit words.
pub record IsPhdr (phdr : Phdr) : Type 0 where
  pub offset : phdr.p_offset < 2 ^ 32
  pub vaddr : phdr.p_vaddr < 2 ^ 32
  pub filesz : phdr.p_filesz < 2 ^ 32
  pub memsz : phdr.p_memsz < 2 ^ 32

-- The pages of an extent: they are whole pages of user memory above the first, with the segment in
-- them, and each of its bytes that is in the file stands at its place.
pub record IsPlaced (phdr : Phdr) (x : Extent) : Type 0 where
  pub file_aligned : x.file_page % pgsize ≡ 0
  pub mem_aligned : x.mem_page % pgsize ≡ 0
  pub whole : (x.read_bytes + x.zero_bytes) % pgsize ≡ 0
  pub low : pgsize ≤ x.mem_page
  pub high : x.mem_page + (x.read_bytes + x.zero_bytes) ≤ phys_base
  pub start : x.mem_page ≤ phdr.p_vaddr
  pub end : phdr.p_vaddr + phdr.p_memsz ≤ x.mem_page + (x.read_bytes + x.zero_bytes)
  pub in_file :
      (i : ℕ)
      → i < phdr.p_filesz
      → x.file_page + (phdr.p_vaddr + i - x.mem_page) ≡ phdr.p_offset + i
  pub is_read : (i : ℕ) → i < phdr.p_filesz → phdr.p_vaddr + i - x.mem_page < x.read_bytes

-- What `validate_segment` has tested.
record IsValid (phdr : Phdr) (file_len : ℕ) : Type 0 where
  offset : phdr.p_offset % 4096 ≡ phdr.p_vaddr % 4096
  in_file : phdr.p_offset ≤ file_len
  size : phdr.p_filesz ≤ phdr.p_memsz
  some_bytes : 0 < phdr.p_memsz
  end : phdr.p_vaddr + phdr.p_memsz < phys_base
  low : 4096 ≤ phdr.p_vaddr

validate_segment-IsValid :
    (phdr : Phdr) (file_len : ℕ)
    → IsPhdr phdr
    → validate_segment phdr file_len ≡ true
    → IsValid phdr file_len
unfolding validate_segment is_user_vaddr
validate_segment-IsValid phdr file_len w v = record {
  offset = ground (arith, v);
  in_file = ground (arith, v);
  size = ground (arith, v);
  some_bytes = ground (arith, v);
  end = ground (arith, v, w.vaddr, w.memsz);
  low = ground (arith, v);
}

-- The numbers of an extent, without their wrap-around.
record IsExact (phdr : Phdr) (x : Extent) : Type 0 where
  file_page : x.file_page ≡ phdr.p_offset - phdr.p_offset % 4096
  mem_page : x.mem_page ≡ phdr.p_vaddr - phdr.p_vaddr % 4096
  read_bytes :
      x.read_bytes ≡ (if ltb 0 phdr.p_filesz then phdr.p_vaddr % 4096 + phdr.p_filesz else 0)
  sum : x.read_bytes + x.zero_bytes ≡ (phdr.p_vaddr % 4096 + phdr.p_memsz + 4095) / 4096 * 4096

add-sub : (a b : ℕ) → b ≤ a → a < 2 ^ 32 → b + sub a b ≡ a
add-sub a b l h = omega (arith, l, h)

extent_of-IsExact :
    (phdr : Phdr) (file_len : ℕ)
    → IsPhdr phdr
    → IsValid phdr file_len
    → IsExact phdr (extent_of phdr)
unfolding extent_of
extent_of-IsExact phdr file_len w v =
    let read : (if ltb 0 phdr.p_filesz then add (phdr.p_vaddr % 4096) phdr.p_filesz else 0)
        ≡ (if ltb 0 phdr.p_filesz then phdr.p_vaddr % 4096 + phdr.p_filesz else 0) =
      ground (arith, v.end, v.size) in
    let round : round_up (add (phdr.p_vaddr % 4096) phdr.p_memsz)
        ≡ (phdr.p_vaddr % 4096 + phdr.p_memsz + 4095) / 4096 * 4096 =
      omega (arith, v.end) in
    record {
      file_page = refl;
      mem_page = refl;
      read_bytes = read;
      sum = rw (read, round) (add-sub _ _ (ground (arith, v.end, v.size)) (omega (arith, v.end)));
    }

-- A segment that `validate_segment` lets pass is placed well.
pub extent_of-IsPlaced :
    (phdr : Phdr) (file_len : ℕ)
    → IsPhdr phdr
    → validate_segment phdr file_len ≡ true
    → IsPlaced phdr (extent_of phdr)
extent_of-IsPlaced phdr file_len w e =
    let v = validate_segment-IsValid phdr file_len w e in
    let x = extent_of-IsExact phdr file_len w v in
    record {
      file_aligned = omega (arith, x.file_page);
      mem_aligned = omega (arith, x.mem_page);
      whole = omega (arith, x.sum);
      low = omega (arith, x.mem_page, v.low);
      high = omega (arith, x.sum, x.mem_page, v.end);
      start = omega (arith, x.mem_page);
      end = omega (arith, x.mem_page, x.sum);
      in_file = λ i l. omega (arith, x.file_page, x.mem_page, v.offset);
      is_read = λ i l. ground (arith, l, x.read_bytes, x.mem_page);
    }

module _ (file : Ptr) (writable : Bool) (x : Extent) where
  -- How much of the page at an offset of the extent is in the file.
  abbrev read_at : ℕ → ℕ
  read_at k = if ltb (x.read_bytes - k) 4096 then x.read_bytes - k else 4096

  -- The entry of the page at an address.
  abbrev pub page_entry : Ptr → SptEntry
  page_entry v =
      segment_entry v writable file (x.file_page + (v - x.mem_page)) (read_at (v - x.mem_page))

module _ {D F : Type 0} (file : Ptr) (writable : Bool) (x : Extent) where
  -- The pages from one offset to before another are in the table, with a block each; all else is as
  -- before.
  pub record IsMapped (from to : ℕ) (s s' : Sys D F) : Type 0 where
    pub entries :
        (v : Ptr)
        → s'.vm.spts s.vm.cur v ≡ (
            if is_page (x.mem_page + from) (x.mem_page + to) v
            then some (page_entry file writable x v)
            else s.vm.spts s.vm.cur v)
    pub others : (t v : Ptr) → t ≢ s.vm.cur → s'.vm.spts t v ≡ s.vm.spts t v
    pub blocks : s'.heap + (to - from) / 4096 ≡ s.heap

  -- The state with the entry of one more page.
  abbrev after : Sys D F → ℕ → Sys D F
  after s k = record s {
    vm =
        set_entry s.vm s.vm.cur (x.mem_page + k)
          (some (page_entry file writable x (x.mem_page + k)));
    heap = s.heap - 1;
  }

  process_spt_insert-some :
      (k : ℕ) (s : Sys D F)
      → x.mem_page % 4096 ≡ 0
      → 4096 ≤ x.mem_page
      → k % 4096 ≡ 0
      → s.vm.spts s.vm.cur (x.mem_page + k) ≡ none
      → (s.heap == 0) ≡ false
      → process_spt_insert
          (segment_entry
            (x.mem_page + k)
            writable
            file
            (x.file_page + k)
            (read_at file writable x k))
          s
        ≡ ok (returns true, after s k)
  unfolding process_spt_insert malloc pg_ofs
  process_spt_insert-some k s aligned low a n h =
      let z : (x.mem_page + k == null) ≡ false = ground (arith, low) in
      let b : (x.mem_page + k) % 4096 ≡ 0 = omega (arith, aligned, a) in
      let c : (read_at file writable x k + (4096 - read_at file writable x k) == 4096) ≡ true =
        ground arith in
      let d : x.mem_page + k - x.mem_page ≡ k = omega arith in rw (b, c, h, z, n, d) refl

  after_page :
      (k to : ℕ) (s s' : Sys D F)
      → x.mem_page % 4096 ≡ 0
      → k % 4096 ≡ 0
      → k + 4096 ≤ to
      → (s.heap == 0) ≡ false
      → IsMapped (k + 4096) to (after s k) s'
      → IsMapped k to s s'
  after_page k to s s' aligned a l h t = record {
    entries = λ v. t.entries v ∙ (elim (Bool-cases (v == x.mem_page + k)) [
      | inl e ↦
          let i : v ≡ x.mem_page + k = ground arith in
          let same : some (page_entry file writable x (x.mem_page + k))
              ≡ some (page_entry file writable x v) =
            ap (λ u. some (page_entry file writable x u)) (sym i) in
          ground (arith, same, aligned, a, l)
      | inr e ↦ ground (arith, aligned, a, l)
    ]);
    others = λ u v n. t.others u v n ∙ ground (arith, n);
    blocks = ground (arith, t.blocks);
  }

  load_pages-IsMapped :
      (n k zero_bytes : ℕ) (s : Sys D F)
      → x.mem_page % 4096 ≡ 0
      → 4096 ≤ x.mem_page
      → k % 4096 ≡ 0
      → x.read_bytes - k + zero_bytes ≡ 4096 * n
      → 4096 * n < 2 ^ 32
      → n ≤ s.heap
      → ((i : ℕ) → i < n → s.vm.spts s.vm.cur (x.mem_page + (k + 4096 * i)) ≡ none)
      → Ends
          (λ r s'. (r ≡ true) × IsMapped k (k + 4096 * n) s s')
          (load_pages n file
            (x.file_page + k)
            (x.mem_page + k)
            (x.read_bytes - k)
            zero_bytes
            writable
            s)
  unfolding load_pages
  load_pages-IsMapped zero k zb s aligned low a sum small room f =
      let r : (x.read_bytes - k == 0) ≡ true = ground (arith, sum) in
      let z : (zb == 0) ≡ true = ground (arith, sum) in
      rw (r, z)
        (refl, record { entries = λ v. ground arith; others = λ t v h. refl; blocks = omega arith })
  load_pages-IsMapped (suc n) k zb s aligned low a sum small room f =
      let b : ((x.read_bytes - k == 0) && (zb == 0)) ≡ false = ground (arith, sum) in
      let here : s.vm.spts s.vm.cur (x.mem_page + k) ≡ none =
        ap (λ v. s.vm.spts s.vm.cur (x.mem_page + v)) (omega arith) ∙ f 0 (omega arith) in
      let r : sub (x.read_bytes - k) (read_at file writable x k) ≡ x.read_bytes - (k + 4096) =
        ground (arith, sum, small) in
      let h : (s.heap == 0) ≡ false = ground (arith, room) in
      let file_next : x.file_page + k + 4096 ≡ x.file_page + (k + 4096) = omega arith in
      let mem_next : x.mem_page + k + 4096 ≡ x.mem_page + (k + 4096) = omega arith in
      rw (b, process_spt_insert-some k s aligned low a here h, r, file_next, mem_next)
        (Ends-mono (λ r s'. (r ≡ true) × IsMapped (k + 4096) (k + 4096 + 4096 * n) (after s k) s')
          (λ r s'. (r ≡ true) × IsMapped k (k + 4096 * suc n) s s')
          (load_pages n file (x.file_page + (k + 4096)) (x.mem_page + (k + 4096))
            (x.read_bytes - (k + 4096)) (sub zb (4096 - read_at file writable x k)) writable
            (after s k))
          (load_pages-IsMapped n (k + 4096) (sub zb (4096 - read_at file writable x k)) (after s k)
            aligned low (omega (arith, a)) (ground (arith, sum, small)) (omega (arith, small))
            (ground (arith, room))
            (λ i l.
              let same : x.mem_page + (k + 4096 + 4096 * i) ≡ x.mem_page + (k + 4096 * suc i) =
                omega arith in
              let g = ap (λ v. s.vm.spts s.vm.cur v) same ∙ f (suc i) (omega (arith, l)) in
              ground (arith, g)))
          (λ r s' (d, t).
            let end : k + 4096 + 4096 * n ≡ k + 4096 * suc n = omega arith in
            (
              d,
              after_page k (k + 4096 * suc n) s s' aligned a (omega arith) h
                  (subst (λ e. IsMapped (k + 4096) e (after s k) s') end t),
            )))

  -- The loop from the first page on.
  all_pages :
      (n to : ℕ) (s : Sys D F)
      → x.mem_page % 4096 ≡ 0
      → 4096 ≤ x.mem_page
      → to ≡ 4096 * n
      → x.read_bytes + x.zero_bytes ≡ 4096 * n
      → 4096 * n < 2 ^ 32
      → n ≤ s.heap
      → ((i : ℕ) → i < n → s.vm.spts s.vm.cur (x.mem_page + 4096 * i) ≡ none)
      → Ends
          (λ r s'. (r ≡ true) × IsMapped 0 to s s')
          (load_pages n file x.file_page x.mem_page x.read_bytes x.zero_bytes writable s)
  all_pages n to s aligned low e sum small room f =
      let file_start : x.file_page + 0 ≡ x.file_page = omega arith in
      let mem_start : x.mem_page + 0 ≡ x.mem_page = omega arith in
      let read_start : x.read_bytes - 0 ≡ x.read_bytes = omega arith in
      let end : 0 + 4096 * n ≡ to = omega (arith, e) in
      let same : load_pages n file (x.file_page + 0) (x.mem_page + 0) (x.read_bytes - 0)
            x.zero_bytes writable s
          ≡ load_pages n file x.file_page x.mem_page x.read_bytes x.zero_bytes writable s =
        rw (file_start, mem_start, read_start) refl in
      subst (Ends (λ r s'. (r ≡ true) × IsMapped 0 to s s')) same (
        subst
          (λ q.
            Ends (λ r s'. (r ≡ true) × IsMapped 0 q s s')
              (load_pages n file (x.file_page + 0) (x.mem_page + 0) (x.read_bytes - 0) x.zero_bytes
                writable s))
          end
          (load_pages-IsMapped n 0 x.zero_bytes s aligned low refl (omega (arith, sum)) small room
            (λ i l. ap (λ v. s.vm.spts s.vm.cur (x.mem_page + v)) (omega arith) ∙ f i l)))

module _ {E : Type 0} where
  abbrev sought : Ptr → Extent → FileSys E → FileSys E
  sought file x fs = set_file fs file (record (fs.files file) { pos = x.file_page })

module _ {D E : Type 0} where
  abbrev positioned : Ptr → Extent → Sys D (FileSys E) → Sys D (FileSys E)
  positioned file x s = record s { vm = record (s.vm) { files = sought file x s.vm.files } }

  mapped :
      (file : Ptr) (writable : Bool) (x : Extent) (s : Sys D (FileSys E))
      → x.mem_page % pgsize ≡ 0
      → 4096 ≤ x.mem_page
      → x.file_page % pgsize ≡ 0
      → (x.read_bytes + x.zero_bytes) % pgsize ≡ 0
      → x.read_bytes + x.zero_bytes < 2 ^ 32
      → (file == null) ≡ false
      → (x.read_bytes + x.zero_bytes) / 4096 ≤ s.heap
      → ((i : ℕ)
          → i < (x.read_bytes + x.zero_bytes) / 4096
          → s.vm.spts s.vm.cur (x.mem_page + 4096 * i) ≡ none)
      → Ends
          (λ r s'. (r ≡ true) × IsMapped file writable x 0 (x.read_bytes + x.zero_bytes) s s')
          (load_segment file x writable s)
  unfolding load_segment file_seek pg_ofs
  mapped file writable x s m low a whole small o room f =
      let sum : add x.read_bytes x.zero_bytes ≡ x.read_bytes + x.zero_bytes =
        omega (arith, small) in
      let wholes : (add x.read_bytes x.zero_bytes % 4096 == 0) ≡ true =
        ground (arith, whole, small) in
      let ms : (x.mem_page % 4096 == 0) ≡ true = ground (arith, m) in
      let fs : (x.file_page % 4096 == 0) ≡ true = ground (arith, a) in
      rw (wholes, ms, fs, o, sum)
        (Ends-mono
          (λ r s'.
            (r ≡ true)
            × IsMapped file writable x 0 (x.read_bytes + x.zero_bytes) (positioned file x s) s')
          (λ r s'. (r ≡ true) × IsMapped file writable x 0 (x.read_bytes + x.zero_bytes) s s')
          (load_pages ((x.read_bytes + x.zero_bytes) / 4096) file x.file_page x.mem_page
            x.read_bytes x.zero_bytes writable (positioned file x s))
          (all_pages file writable x ((x.read_bytes + x.zero_bytes) / 4096)
            (x.read_bytes + x.zero_bytes) (positioned file x s) m low (omega (arith, whole))
            (omega (arith, whole)) (omega (arith, small)) room f)
          (λ r s' (d, t).
            (d, record { entries = t.entries; others = t.others; blocks = t.blocks })))

  -- For a segment that `validate_segment` lets pass, if the file is open, the pages of the segment are
  -- not in the table and there is a block for each, then no assertion of `load_segment` fails, its loop
  -- comes to its end, and the answer is true: the table has an entry for each page of the segment,
  -- with what of it is to be read from where in the file, and is else as before.
  pub load_segment-IsMapped :
      (file : Ptr) (writable : Bool) (phdr : Phdr) (file_len : ℕ) (s : Sys D (FileSys E))
      → IsPhdr phdr
      → validate_segment phdr file_len ≡ true
      → (file == null) ≡ false
      → ((extent_of phdr).read_bytes + (extent_of phdr).zero_bytes) / 4096 ≤ s.heap
      → ((i : ℕ)
          → i < ((extent_of phdr).read_bytes + (extent_of phdr).zero_bytes) / 4096
          → s.vm.spts s.vm.cur ((extent_of phdr).mem_page + 4096 * i) ≡ none)
      → Ends
          (λ r s'.
            (r ≡ true)
            × IsMapped file writable
                (extent_of phdr)
                0
                ((extent_of phdr).read_bytes + (extent_of phdr).zero_bytes)
                s
                s')
          (load_segment file (extent_of phdr) writable s)
  load_segment-IsMapped file writable phdr file_len s w v o room f =
      let p = extent_of-IsPlaced phdr file_len w v in
      mapped file writable (extent_of phdr) s p.mem_aligned p.low p.file_aligned p.whole
        (omega (arith, p.high)) o room f
