-- ===== src/Syscall/Memory.antt =====
-- src/userprog/syscall.c: the check of user addresses, and the copying of user memory.
pub mod Checked
use gpintosy.Prelude.{
  ℕ, zero, suc, ◌+◌, ◌-◌, ◌*◌, ◌/◌, ◌^◌, ◌%◌, Bool, true, false, not, ◌&&◌, ◌||◌, Option, none,
  some, List, [], ◌∷◌, ◌++◌, ltb, leb, ◌==◌, if◌then◌else◌,
}
use gpintosy.Prelude.Int.{ℤ, negsuc}
use gpintosy.Kernel.{Ptr, null, Result, ok, panic, undefined, update}
use gpintosy.Vaddr.{pgsize, pg_ofs, pg_no, pg_round_down, is_user_vaddr}
use gpintosy.Pagedir.{Pte, Pagedir, lookup_page, pagedir_get_page, set_pte}
use gpintosy.Swap.{Driver}
use gpintosy.Vm.{SptEntry, Files, Vm, memory, set_memory, set_pagedir}
use gpintosy.Vm.Frame.{frame_pin_user_page, frame_unpin_user_page}
use gpintosy.Vm.Load.{
  Loading, Fault, retries, kills, fails_probe, seems_like_stack_access, grow_stack, page_fault,
}
use gpintosy.Vm.Load
use gpintosy.Syscall.{
  Sys, Answer, returns, exits, waits, Call, next, ◌>>=◌, ◌>>◌, pure, get, put, set_vm, lift,
  sys_exit, malloc, free,
}

module _ {D F : Type 0} (driver : Driver D) (fs : Files F) where
  -- `pagedir_get_page` in the running process.
  unfoldable pub get_page : Ptr → Call D F Ptr
  get_page uaddr s = elim (s.vm.pagedirs s.vm.cur) [
    | none ↦ undefined
    | some pd ↦ lift (pagedir_get_page pd uaddr) s
  ]

  abbrev pub grown : Result (Loading × Vm D F) → Call D F Bool
  grown (ok (Load.answers true, vm)) s = ok (returns true, record s { vm = vm; heap = s.heap - 1 })
  grown (ok (Load.answers false, vm)) s = ok (returns false, record s { vm = vm })
  grown (ok (Load.waits, vm)) s = ok (waits, record s { vm = vm })
  grown panic s = panic
  grown undefined s = undefined

  -- `grow_stack` with the block for its entry.
  unfoldable pub grow : Ptr → Call D F Bool
  grow u s = grown (grow_stack driver fs (not (s.heap == 0)) u s.vm) s

  unfoldable pub check_user_vaddr : Ptr → Call D F (Unit {0})
  check_user_vaddr uaddr =
      if (uaddr == null) || not (is_user_vaddr uaddr) then sys_exit (negsuc 0) else do
        p ← get_page uaddr
        s ← get
        elim (s.vm.spts s.vm.cur (pg_round_down uaddr)) [
          | some e ↦ pure tt
          | none ↦
              if not (p == null)
              then pure tt
              else if not (seems_like_stack_access uaddr s.user_esp)
              then sys_exit (negsuc 0)
              else do
                done ← grow (pg_round_down uaddr)
                if done then pure tt else sys_exit (negsuc 0)
        ]

  -- The loop of `check_user_buffer`, with the rounds left.
  unfoldable pub check_pages : ℕ → Ptr → Call D F (Unit {0})
  check_pages zero uaddr = pure tt
  check_pages (suc n) uaddr = do check_user_vaddr uaddr; check_pages n (uaddr + pgsize)

  unfoldable pub check_user_buffer : Ptr → ℕ → Call D F (Unit {0})
  check_user_buffer buffer size =
      let last = (buffer + size - 1) % 2 ^ 32 in
      if size == 0 then pure tt else if ltb last buffer then sys_exit (negsuc 0) else do
        check_user_vaddr buffer
        check_user_vaddr last
        check_pages ((size + pgsize - 1) / pgsize) buffer

  -- The entry of a user page that is present, where the processor finds it.
  unfoldable pub present_pte : Ptr → Sys D F → Option Pte
  present_pte uaddr s = elim (s.vm.pagedirs s.vm.cur) [
    | none ↦ none
    | some pd ↦ elim (lookup_page pd uaddr) [
      | none ↦ none
      | some pte ↦ if pte.present then some pte else none
    ]
  ]

  -- An access sets the bits of the entry.
  abbrev pub touch : Bool → Ptr → Pte → Sys D F → Sys D F
  touch write uaddr pte s = elim (s.vm.pagedirs s.vm.cur) [
    | none ↦ s
    | some pd ↦ record s {
      vm =
          set_pagedir s.vm s.vm.cur
            (set_pte pd uaddr (record pte { accessed = true; dirty = pte.dirty || write }));
    }
  ]

  -- What an access of the kernel to user memory that faults comes to; `none` is a failed probe.
  abbrev pub faulted : Result (Fault × Vm D F) → Call D F Bool
  faulted (ok (retries, vm)) s = ok (returns true, record s { vm = vm })
  faulted (ok (kills, vm)) s = ok (returns false, record s { vm = vm })
  faulted (ok (fails_probe, vm)) s = ok (returns false, record s { vm = vm })
  faulted panic s = panic
  faulted undefined s = undefined

  unfoldable pub fault : Bool → Bool → Ptr → Call D F Bool
  fault not_present write uaddr s =
      faulted
        (page_fault driver fs not_present write false (not (s.heap == 0)) uaddr s.user_esp s.vm) s

  -- The frame address behind a user address, of which the page is brought in if need be. The
  -- instruction is tried again once; what is still not there another thread works on.
  unfoldable pub access : Bool → Ptr → Call D F (Option Ptr)
  access write uaddr s = elim (present_pte uaddr s) [
    | some pte ↦
        if write && not pte.writable
        then next (λ again. if again then (λ s. ok (waits, s)) else pure none)
            (fault false write uaddr s)
        else ok (returns (some (pte.page + pg_ofs uaddr)), touch write uaddr pte s)
    | none ↦
        next
          (λ again s. if not again then ok (returns none, s) else elim (present_pte uaddr s) [
            | none ↦ ok (waits, s)
            | some pte ↦ ok (returns (some (pte.page + pg_ofs uaddr)), touch write uaddr pte s)
          ])
          (fault true write uaddr s)
  ]

  -- `none` is -1
  unfoldable pub get_user : Ptr → Call D F (Option ℕ)
  get_user uaddr = do
    p ← access false uaddr
    s ← get
    elim p [ none ↦ pure none | some a ↦ pure (some (memory s.vm a)) ]

  unfoldable pub put_user : Ptr → ℕ → Call D F Bool
  put_user udst byte = do
    p ← access true udst
    s ← get
    elim p [
      | none ↦ pure false
      | some a ↦ do set_vm (set_memory s.vm (update (memory s.vm) a byte)); pure true
    ]

  -- The loop of `copy_in`, with the bytes left.
  unfoldable pub copy_in : ℕ → Ptr → Call D F (List ℕ)
  copy_in zero usrc = pure []
  copy_in (suc size) usrc = do
    check_user_vaddr usrc
    byte ← get_user usrc
    elim byte [
      | none ↦ sys_exit (negsuc 0)
      | some b ↦ do rest ← copy_in size ((usrc + 1) % 2 ^ 32); pure (b ∷ rest)
    ]

  unfoldable pub copy_out : Ptr → List ℕ → Call D F (Unit {0})
  copy_out udst [] = pure tt
  copy_out udst (b ∷ src) = do
    check_user_vaddr udst
    done ← put_user udst b
    if done then copy_out ((udst + 1) % 2 ^ 32) src else sys_exit (negsuc 0)

  -- The loop of `copy_in_string`, with the bytes left; the last byte of the page is made the end.
  unfoldable pub string_from : ℕ → Ptr → Call D F (List ℕ)
  string_from zero us = pure []
  string_from (suc n) us = do
    check_user_vaddr us
    ch ← get_user us
    elim ch [
      | none ↦ do free; sys_exit (negsuc 0)
      | some c ↦
          if c == 0
          then pure []
          else do rest ← string_from n ((us + 1) % 2 ^ 32); pure (if n == 0 then [] else c ∷ rest)
    ]

  -- The block stays allocated for the caller, and also if an address is bad inside the string.
  unfoldable pub copy_in_string : Ptr → Call D F (List ℕ)
  copy_in_string us = do
    check_user_vaddr us
    found ← malloc
    if not found then sys_exit (negsuc 0) else string_from pgsize us

  abbrev pub word : List ℕ → ℕ
  word [] = 0
  word (b ∷ l) = b + 256 * word l

  unfoldable pub read_u32 : Ptr → Call D F ℕ
  read_u32 uaddr = do bytes ← copy_in 4 uaddr; pure (word bytes)
