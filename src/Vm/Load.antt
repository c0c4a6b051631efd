-- ===== src/Vm/Load.antt =====
-- src/userprog/exception.c: page faults, the loading of a page, and the growth of the stack.
pub mod Fill
pub mod Access
pub mod Install
use gpintosy.Prelude.{
  ℕ, ◌+◌, ◌-◌, ◌^◌, ◌%◌, Bool, true, false, not, ◌&&◌, ◌||◌, Option, none, some, [], ◌∷◌, ltb, leb,
  ◌==◌, if◌then◌else◌,
}
use gpintosy.Prelude.Int.{negsuc}
use gpintosy.Kernel.{Ptr, null, Result, ok, panic, undefined, ◌>>=◌, ◌>>◌, assert, update}
use gpintosy.Vaddr.{put_bytes, pgsize, phys_base, pg_ofs, pg_round_down, is_user_vaddr, memset}
use gpintosy.Pagedir.{Pagedir, pagedir_get_page, pagedir_set_page}
use gpintosy.Palloc.{Flags}
use gpintosy.Swap.{Driver, swap_in}
use gpintosy.Vm.{
  PageType, page_file, page_zero, page_swap, page_mmap, PageState, not_loaded, loaded, loading,
  evicting, no_slot, SptEntry, Files, Vm, memory, set_memory, set_pagedir, set_entry,
}
use gpintosy.Vm.Frame.{frame_allocate, frame_free, frame_unpin}

-- What `vm_load_page` comes to: an answer, or a wait for another thread that loads or evicts the
-- page.
pub data Loading : Type 0 where
  answers : Bool → Loading
  waits : Loading

-- What `page_fault` does: the access is tried again, once the page is loaded or another thread is
-- done with it; a bad access of the kernel to user memory returns -1 there; or the process dies.
pub data Fault : Type 0 where
  retries : Fault
  fails_probe : Fault
  kills : Fault

abbrev pub stack_max_bytes : ℕ
stack_max_bytes = 8388608

abbrev pub user_flags : Flags
user_flags = record { pal_assert = false; pal_zero = false; pal_user = true }

-- Whether the faulting access looks like one of a growing stack: not more than 32 bytes below the
-- stack pointer, as a 32-bit word.
unfoldable pub seems_like_stack_access : Ptr → Ptr → Bool
seems_like_stack_access fault_addr esp =
    if (fault_addr == null) || (esp == null)
    then false
    else if not (is_user_vaddr fault_addr)
    then false
    else if ltb fault_addr (phys_base - stack_max_bytes)
    then false
    else leb ((esp + 2 ^ 32 - 32) % 2 ^ 32) fault_addr

module _ {D F : Type 0} (driver : Driver D) (fs : Files F) where
  -- The bytes of a page that is in a file, and zeros behind them; the answer is whether the file
  -- had them all.
  unfoldable pub read_page_of_file : SptEntry → Ptr → Vm D F → Bool × Vm D F
  read_page_of_file e kpage vm =
      let (n, bytes) = fs.read_at vm.files e.file e.read_bytes e.ofs in
      let m = put_bytes (memory vm) kpage n bytes in
      if n == e.read_bytes
      then (true, set_memory vm (memset (kpage + e.read_bytes) 0 e.zero_bytes m))
      else (false, set_memory vm m)

  -- The page's bytes go into the frame; the slot of a page that was in swap is given back.
  unfoldable pub fill_page : PageType → SptEntry → Ptr → Vm D F → Result (Bool × Vm D F)
  fill_page page_file e kpage vm = ok (read_page_of_file e kpage vm)
  fill_page page_mmap e kpage vm = ok (read_page_of_file e kpage vm)
  fill_page page_zero e kpage vm = ok (true, set_memory vm (memset kpage 0 pgsize (memory vm)))
  fill_page page_swap e kpage vm = do
    (done, m, swap) ← swap_in driver e.swap_slot kpage (memory vm) vm.swap
    ok (done, set_memory (record vm { swap = swap }) m)

  -- The page is not loaded again, and the frame is given back.
  unfoldable pub cancel_load : Ptr → SptEntry → Ptr → Vm D F → Result (Loading × Vm D F)
  cancel_load u e kpage vm = do
    vm ← frame_unpin kpage (set_entry vm vm.cur u (some (record e { state = not_loaded })))
    vm ← frame_free kpage vm
    ok (answers false, vm)

  -- The page is mapped, unless it already is or there is no page for a page table.
  unfoldable pub map_page : Ptr → Ptr → Bool → Vm D F → Result (Bool × Vm D F)
  map_page u kpage writable vm = elim (vm.pagedirs vm.cur) [
    | none ↦ panic
    | some pd ↦ do
      p ← pagedir_get_page pd u
      if not (p == null) then ok (false, vm) else do
        (done, pd) ← pagedir_set_page vm.init_ram_pages vm.table_room pd u kpage writable
        ok (done, set_pagedir vm vm.cur pd)
  ]

  -- The entry after the page was filled: a page that was in swap has no slot any more.
  abbrev pub without_slot : SptEntry → SptEntry
  without_slot e = elim (e.type) [
    | page_swap ↦ record e { swap_slot = no_slot }
    | page_file ↦ e
    | page_zero ↦ e
    | page_mmap ↦ e
  ]

  unfoldable pub install_loaded : Ptr → SptEntry → Ptr → Vm D F → Result (Loading × Vm D F)
  install_loaded u e kpage vm = do
    (done, vm) ← map_page u kpage e.writable vm
    if done
        then (do
          let e = record e { kpage = kpage; state = loaded }
          vm ← frame_unpin kpage (set_entry vm vm.cur u (some e))
          ok (answers true, vm))
        else cancel_load u e kpage vm

  unfoldable pub load_into : Ptr → SptEntry → Option Ptr × Vm D F → Result (Loading × Vm D F)
  load_into u e (none, vm) =
      ok (answers false, set_entry vm vm.cur u (some (record e { state = not_loaded })))
  load_into u e (some f, vm) = do
    let kpage = (vm.frames f).kpage
    (done, vm) ← fill_page e.type e kpage vm
    if done
        then install_loaded u (without_slot e) kpage
            (set_entry vm vm.cur u (some (without_slot (record e { state = loading }))))
        else cancel_load u e kpage vm

  -- `vm_load_page` of the entry `e` of the running process's page `u`.
  unfoldable pub vm_load_page : Ptr → SptEntry → Vm D F → Result (Loading × Vm D F)
  vm_load_page u e vm = elim (e.state) [
    | evicting ↦ ok (waits, vm)
    | loading ↦ ok (waits, vm)
    | loaded ↦ ok (answers true, vm)
    | not_loaded ↦ do
      found ←
          frame_allocate driver fs user_flags u
            (set_entry vm vm.cur u (some (record e { state = loading })))
      load_into u e found
  ]

  abbrev pub stack_entry : Ptr → SptEntry
  stack_entry upage = record {
    upage = upage;
    writable = true;
    type = page_zero;
    state = not_loaded;
    file = null;
    ofs = 0;
    read_bytes = 0;
    zero_bytes = pgsize;
    swap_slot = no_slot;
    kpage = null;
    md = negsuc 0;
  }

  -- A page that could not be loaded leaves the table again.
  unfoldable pub keep_grown : Ptr → Loading × Vm D F → Loading × Vm D F
  keep_grown u (answers true, vm) = (answers true, vm)
  keep_grown u (answers false, vm) = (answers false, set_entry vm vm.cur u none)
  keep_grown u (waits, vm) = (waits, vm)

  -- `room` is whether `malloc` and the table find memory for the entry.
  unfoldable pub grow_stack : Bool → Ptr → Vm D F → Result (Loading × Vm D F)
  grow_stack room u vm =
      if (u == null) || not (is_user_vaddr u) || not (pg_ofs u == 0)
      then ok (answers false, vm)
      else if ltb u (phys_base - stack_max_bytes)
      then ok (answers false, vm)
      else elim (vm.spts vm.cur u) [
        | some e ↦ ok (answers false, vm)
        | none ↦ if not room then ok (answers false, vm) else do
          r ← vm_load_page u (stack_entry u) (set_entry vm vm.cur u (some (stack_entry u)))
          ok (keep_grown u r)
      ]

  unfoldable pub after_growth : Bool → Loading × Vm D F → Fault × Vm D F
  after_growth user (answers true, vm) = (retries, vm)
  after_growth user (waits, vm) = (retries, vm)
  after_growth user (answers false, vm) = (if user then kills else fails_probe, vm)

  -- `esp` is the user stack pointer: of the fault, or the one saved at the entry to the kernel.
  unfoldable pub page_fault :
      (not_present write user room : Bool) (fault_addr esp : Ptr) → Vm D F → Result (Fault × Vm D F)
  page_fault not_present write user room fault_addr esp vm =
      let u = pg_round_down fault_addr in
      let bad = if user then kills else fails_probe in
      let entry = elim (vm.pagedirs vm.cur) as (λ o. Option SptEntry) [
        | none ↦ none
        | some pd ↦ vm.spts vm.cur u
      ] in
      if not (not_present && is_user_vaddr fault_addr) then ok (bad, vm) else elim entry [
        | some e ↦
            if write && not e.writable
            then ok (bad, vm)
            else do r ← vm_load_page u e vm; ok (after_growth user r)
        | none ↦
            if not (seems_like_stack_access fault_addr esp)
            then ok (bad, vm)
            else do r ← grow_stack room u vm; ok (after_growth user r)
      ]
