-- ===== src/Vm/Frame/Restore.antt =====
-- What a page is after an eviction that found no swap slot.
use gpintosy.Prelude.{◌-◌, ◌≡◌, ◌≤◌, ◌<◌, refl, ap, ◌∙◌, Bool, true, false, none, some, arith, ◌==◌}
use gpintosy.Kernel.{Ptr, Succeeds, Succeeds-bind}
use gpintosy.Vaddr.{phys_base, pg_ofs, pg_no}
use gpintosy.Pagedir.{Pagedir, pd_no, pagedir_is_dirty}
use gpintosy.Pagedir.Map.{entry, IsMapped, pagedir_set_page-IsMapped, pagedir_get_page-none}
use gpintosy.Swap.{Driver}
use gpintosy.Vm.{loaded, SptEntry, Files, Vm, set_entry, set_pagedir}
use gpintosy.Vm.Frame.{is_dirty, restore_mapping, after_swap}

dirty-entry : (pd : Pagedir) (u : Ptr) → pagedir_is_dirty pd u ≡ (entry pd u).dirty
unfolding pagedir_is_dirty entry
dirty-entry pd u = ground arith

missing-clean :
    (pd : Pagedir) (u : Ptr) → pd.tables (pd_no u) ≡ false → pagedir_is_dirty pd u ≡ false
unfolding pagedir_is_dirty
missing-clean pd u h = ground arith

module _ {D F : Type 0} (vm : Vm D F) (t u kpage : Ptr) (pd : Pagedir) (page : pg_ofs u ≡ 0)
    (user : u < phys_base) (aligned : pg_ofs kpage ≡ 0) (kernel : phys_base ≤ kpage)
    (ram : pg_no (kpage - phys_base) < vm.init_ram_pages) (table : vm.pagedirs t ≡ some pd)
    (unmapped : (entry pd u).present ≡ false) where
  abbrev IsClean : Vm D F → Type 0
  IsClean vm' = is_dirty vm' t u ≡ false

  set_pagedir-dirty : (pd' : Pagedir) → is_dirty (set_pagedir vm t pd') t u ≡ pagedir_is_dirty pd' u
  set_pagedir-dirty pd' = ground arith

  mapped-IsClean :
      (writable : Bool) (x : Bool × Pagedir)
      → IsMapped vm.table_room pd u kpage writable x
      → IsClean (set_pagedir vm t x.1)
  mapped-IsClean writable (true, pd') m =
      let n : (u == u) ≡ true = ground arith in
      set_pagedir-dirty pd' ∙ dirty-entry pd' u ∙ ap (λ e. e.dirty) (m u page) ∙ rw n refl
  mapped-IsClean writable (false, pd') m =
      set_pagedir-dirty pd' ∙ ap (λ d. pagedir_is_dirty d u) m.0 ∙ missing-clean pd u m.2

  restore_mapping-IsClean :
      (writable : Bool) → Succeeds IsClean (restore_mapping vm t u kpage writable)
  unfolding restore_mapping
  restore_mapping-IsClean writable =
      rw (table, restore_mapping, pagedir_get_page-none pd u user unmapped)
        (Succeeds-bind (IsMapped vm.table_room pd u kpage writable) IsClean _ _
          (pagedir_set_page-IsMapped vm.init_ram_pages vm.table_room pd u kpage writable page
            aligned user kernel ram unmapped)
          (mapped-IsClean writable))

module _ {D F : Type 0} (driver : Driver D) (fs : Files F) (vm : Vm D F) (v t u : Ptr)
    (pd : Pagedir) (page : pg_ofs u ≡ 0) (user : u < phys_base)
    (aligned : pg_ofs (vm.frames v).kpage ≡ 0) (kernel : phys_base ≤ (vm.frames v).kpage)
    (ram : pg_no ((vm.frames v).kpage - phys_base) < vm.init_ram_pages)
    (table : vm.pagedirs t ≡ some pd) (unmapped : (entry pd u).present ≡ false) where
  -- If there is no swap slot for the page that an eviction took away, the eviction answers false
  -- and the page is left with a clear dirty bit, whatever it was before. The page of the process
  -- is not mapped at that point, and its frame is one of the RAM.
  pub after_swap-clean :
      (e : SptEntry)
      → Succeeds
          (λ x. (x.0 ≡ false) × (is_dirty x.1 t u ≡ false))
          (after_swap driver fs v t u e vm none)
  unfolding after_swap
  after_swap-clean e =
      let vm' = set_entry vm t u (some (record e { state = loaded })) in
      Succeeds-bind (λ x. is_dirty x t u ≡ false) (λ x. (x.0 ≡ false) × (is_dirty x.1 t u ≡ false))
        _ _
        (restore_mapping-IsClean vm' t u (vm.frames v).kpage pd page user aligned kernel ram table
          unmapped e.writable)
        λ x c. (refl, c)
