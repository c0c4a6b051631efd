-- ===== src/Syscall/Mmap.antt =====
-- src/userprog/syscall.c: the mapping of files.
pub mod Pages
pub mod Unmapped
use gpintosy.Prelude.{
  ℕ, zero, suc, ◌+◌, ◌-◌, ◌/◌, ◌^◌, ◌%◌, Bool, true, false, not, ◌&&◌, ◌||◌, Option, none, some,
  List, [], ◌∷◌, ◌++◌, ltb, ◌==◌, if◌then◌else◌,
}
use gpintosy.Prelude.Int.{ℤ, pos, negsuc}
use gpintosy.Kernel.{Ptr, null, Result, ok, panic, undefined, assert}
use gpintosy.Vaddr.{Memory, pgsize, pg_ofs, pg_round_down, is_user_vaddr}
use gpintosy.Pagedir.{Pagedir, pagedir_is_dirty, pagedir_clear_page}
use gpintosy.Swap.{Driver, bytes_at}
use gpintosy.Files.{FileSys, file_close, file_length, file_reopen}
use gpintosy.Vm.{
  PageType, page_mmap, PageState, loaded, not_loaded, loading, evicting, no_slot, SptEntry, Files,
  Vm, memory, set_pagedir, set_entry,
}
use gpintosy.Vm.Frame.{is_dirty, clear_mapping, frame_free}
use gpintosy.Syscall.{
  Mapping, Sys, Answer, returns, exits, waits, Call, next, ◌>>=◌, ◌>>◌, pure, get, put, set_vm,
  lift, sys_exit, malloc, free,
}
use gpintosy.Syscall.Memory.{get_page}
use gpintosy.Syscall.Descriptors.{lookup_file, set_files, on_files}

unfoldable pub find_mapping : ℕ → List Mapping → Option Mapping
find_mapping md [] = none
find_mapping md (m ∷ l) = if m.md == md then some m else find_mapping md l

unfoldable pub remove_mapping : ℕ → List Mapping → List Mapping
remove_mapping md [] = []
remove_mapping md (m ∷ l) = if m.md == md then l else m ∷ remove_mapping md l

abbrev pub mmap_entry : Ptr → ℕ → Ptr → ℕ → ℕ → ℕ → SptEntry
mmap_entry file md upage ofs read_bytes zero_bytes = record {
  upage = upage;
  writable = true;
  type = page_mmap;
  state = not_loaded;
  file = file;
  ofs = ofs;
  read_bytes = read_bytes;
  zero_bytes = zero_bytes;
  swap_slot = no_slot;
  kpage = null;
  md = pos md;
}

-- How many pages so many bytes take.
abbrev pub pages_for : ℕ → ℕ
pages_for n = (n + pgsize - 1) / pgsize

module _ {D F : Type 0} where
  unfoldable pub lookup_mapping : ℕ → Sys D F → Option Mapping
  lookup_mapping md s = find_mapping md s.mmap_list

  unfoldable pub mmap_insert_page : Ptr → ℕ → Ptr → ℕ → ℕ → ℕ → Call D F Bool
  mmap_insert_page file md upage ofs read_bytes zero_bytes = do
    lift (assert (pg_ofs upage == 0))
    lift (assert (read_bytes + zero_bytes == pgsize))
    found ← malloc
    s ← get
    if not found then pure false else do
      lift (assert (not (upage == null)))
      elim (s.vm.spts s.vm.cur upage) [
        | some e ↦ do free; pure false
        | none ↦ do
          set_vm (
              set_entry s.vm s.vm.cur upage
                (some (mmap_entry file md upage ofs read_bytes zero_bytes)))
          pure true
      ]

  -- The loop over the pages of a new mapping, with the pages left; the answer is the offset that it
  -- has come to, and whether that is the end.
  unfoldable pub insert_pages : ℕ → Ptr → ℕ → Ptr → ℕ → ℕ → Call D F (Bool × ℕ)
  insert_pages zero file md addr len offset = pure (true, offset)
  insert_pages (suc n) file md addr len offset = do
    let page_read_bytes = if ltb (len - offset) pgsize then len - offset else pgsize
    done ←
        mmap_insert_page file md ((addr + offset) % 2 ^ 32) offset page_read_bytes
          (pgsize - page_read_bytes)
    if done then insert_pages n file md addr len (offset + pgsize) else pure (false, offset)

module _ {D F : Type 0} (driver : Driver D) (fs : Files F) where
  -- Whether a page of a new mapping may be mapped.
  unfoldable pub page_fits : Ptr → Call D F Bool
  page_fits upage =
      if not (is_user_vaddr upage) || not (is_user_vaddr ((upage + pgsize - 1) % 2 ^ 32))
      then pure false
      else do
        s ← get
        elim (s.vm.spts s.vm.cur (pg_round_down upage)) [
          | some e ↦ pure false
          | none ↦ do p ← get_page driver fs upage; pure (p == null)
        ]

  unfoldable pub pages_fit : ℕ → Ptr → Call D F Bool
  pages_fit zero addr = pure true
  pages_fit (suc n) addr = do
    fits ← page_fits addr
    if fits then pages_fit n ((addr + pgsize) % 2 ^ 32) else pure false

  -- The page of an entry is written back if it was written, and given back.
  unfoldable pub remove_loaded : SptEntry → Call D F (Unit {0})
  remove_loaded e = do
    s ← get
    let dirty = is_dirty s.vm s.vm.cur e.upage
    let t = s.vm.cur
    vm ← lift (clear_mapping s.vm t e.upage)
    let vm = set_entry vm t e.upage (some (record e { state = not_loaded; kpage = null }))
    let vm =
        if dirty
        then record vm {
          files = fs.write_at vm.files e.file (bytes_at (memory vm) e.kpage) e.read_bytes e.ofs;
        }
        else vm
    vm ← lift (frame_free e.kpage vm)
    set_vm vm

  abbrev pub remove_entry : Ptr → Call D F (Unit {0})
  remove_entry upage = do s ← get; set_vm (set_entry s.vm s.vm.cur upage none); free

  unfoldable pub mmap_remove_page : SptEntry → Call D F (Unit {0})
  mmap_remove_page e = elim (e.state) [
    | loading ↦ λ s. ok (waits, s)
    | evicting ↦ λ s. ok (waits, s)
    | not_loaded ↦ remove_entry e.upage
    | loaded ↦
        if e.kpage == null then remove_entry e.upage else do remove_loaded e; remove_entry e.upage
  ]

  abbrev pub is_of : ℤ → ℕ → Bool
  is_of (pos n) md = n == md
  is_of (negsuc n) md = false

  -- The loop of `sys_munmap`, with the pages left.
  unfoldable pub remove_pages : ℕ → ℕ → Ptr → Call D F (Unit {0})
  remove_pages zero md addr = pure tt
  remove_pages (suc n) md addr = do
    s ← get
    elim (s.vm.spts s.vm.cur (pg_round_down addr)) [
      | none ↦ pure tt
      | some e ↦ if is_of e.md md then mmap_remove_page e else pure tt
    ]
    remove_pages n md ((addr + pgsize) % 2 ^ 32)

module _ {D E : Type 0} (driver : Driver D) (fs : Files (FileSys E)) where
  -- The end of `sys_munmap`, once the pages are gone.
  abbrev pub take_away : ℕ → Ptr → Call D (FileSys E) (Unit {0})
  take_away md file = do
    s ← get
    put (record s { mmap_list = remove_mapping md s.mmap_list })
    on_files (file_close file)
    free

  -- `sys_munmap` with the mapping looked up.
  abbrev pub unmap_found : ℕ → Option Mapping → Call D (FileSys E) (Unit {0})
  unmap_found md none = pure tt
  unmap_found md (some mapping) = do
    remove_pages driver fs (pages_for mapping.length) md mapping.addr
    take_away md mapping.file

  unfoldable pub sys_munmap : ℕ → Call D (FileSys E) (Unit {0})
  sys_munmap md = do s ← get; unmap_found md (lookup_mapping md s)

  -- `file_reopen` of the mapped file
  unfoldable pub reopen : Ptr → Call D (FileSys E) Ptr
  reopen file = do s ← get; (f, files) ← lift (file_reopen file s.vm.files); set_files files; pure f

  -- The mapping is recorded; if its pages are not all there, it is taken away again.
  unfoldable pub record_mapping : ℕ → Ptr → ℕ → Ptr → Bool × ℕ → Call D (FileSys E) (Option ℕ)
  record_mapping md addr len file (done, offset) = do
    s ← get
    put (record s {
      mmap_list =
          s.mmap_list
          ++ record { md = md; addr = addr; length = if done then len else offset; file = file }
            ∷ [];
    })
    if done then pure (some md) else do sys_munmap md; pure none

  -- The part of `sys_mmap` with the file reopened.
  unfoldable pub map_file : Ptr → ℕ → Ptr → Call D (FileSys E) (Option ℕ)
  map_file addr len mapping_file = do
    fits ← pages_fit driver fs (pages_for len) addr
    if not fits then (do on_files (file_close mapping_file); pure none) else do
      found ← malloc
      if not found then (do on_files (file_close mapping_file); pure none) else do
        s ← get
        let md = s.next_md
        put (record s { next_md = md + 1 })
        r ← insert_pages (pages_for len) mapping_file md addr len 0
        record_mapping md addr len mapping_file r

  -- `none` is -1
  unfoldable pub sys_mmap : ℕ → Ptr → Call D (FileSys E) (Option ℕ)
  sys_mmap fd addr =
      if (fd == 0) || (fd == 1) || (addr == null) || not (pg_ofs addr == 0)
      then pure none
      else if not (is_user_vaddr addr)
      then pure none
      else do
        s ← get
        let base_file = lookup_file fd s
        if base_file == null then pure none else do
          len ← lift (file_length base_file s.vm.files)
          if len == 0 then pure none else do
            mapping_file ← reopen base_file
            if mapping_file == null then pure none else map_file addr len mapping_file

  -- `syscall_munmap_all`, with the mappings left.
  unfoldable pub munmap_all : ℕ → Call D (FileSys E) (Unit {0})
  munmap_all zero = pure tt
  munmap_all (suc n) = do
    s ← get
    elim (s.mmap_list) [ [] ↦ pure tt | m ∷ l ↦ do sys_munmap m.md; munmap_all n ]
