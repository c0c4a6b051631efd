-- ===== src/Vm/Frame/Mapping.antt =====
-- Taking a page's mapping away and putting it back changes the page directories only.
use gpintosy.Prelude.{◌-◌, ◌≡◌, ◌≤◌, ◌<◌, refl, Bool, false, Option, none, some, arith}
use gpintosy.Kernel.{Ptr, Succeeds, Succeeds-bind}
use gpintosy.Vaddr.{phys_base, pg_ofs, pg_no}
use gpintosy.Pagedir.{Pagedir}
use gpintosy.Pagedir.Map.{
  entry, IsMapped, pagedir_set_page-IsMapped, pagedir_clear_page-entry, pagedir_get_page-none,
}
use gpintosy.Vm.{Vm}
use gpintosy.Vm.Frame.{clear_mapping, restore_mapping}

module _ {D F : Type 0} where
  -- A state that differs in the page directories only, and in which the page is not mapped.
  pub record IsUnmapped (vm : Vm D F) (t u : Ptr) (vm' : Vm D F) : Type 0 where
    pub only : vm' ≡ record vm { pagedirs = vm'.pagedirs }
    pub gone : (pd : Pagedir) → vm'.pagedirs t ≡ some pd → (entry pd u).present ≡ false

  pub clear_mapping-IsUnmapped :
      (vm : Vm D F) (t u : Ptr)
      → pg_ofs u ≡ 0
      → u < phys_base
      → Succeeds (IsUnmapped vm t u) (clear_mapping vm t u)
  unfolding clear_mapping
  clear_mapping-IsUnmapped vm t u a b = pick (vm.pagedirs t) refl
    where
      pick :
          (d : Option Pagedir)
          → vm.pagedirs t ≡ d
          → Succeeds (IsUnmapped vm t u) (clear_mapping vm t u)
      pick none e =
          rw (e, clear_mapping)
            (record { only = refl; gone = λ pd f. absurd (ground (arith, e, f)) })
      pick (some pd) e =
          rw (e, clear_mapping)
            (Succeeds-bind (λ pd'. (entry pd' u).present ≡ false) (IsUnmapped vm t u) _ _
              (pagedir_clear_page-entry pd u b a)
              λ pd' g. record { only = refl; gone = λ pd'' f. ground (arith, f, g) })

  -- A state that differs in the page directories only.
  abbrev pub OnlyPagedirs : Vm D F → Vm D F → Type 0
  OnlyPagedirs vm vm' = vm' ≡ record vm { pagedirs = vm'.pagedirs }

  pub restore_mapping-OnlyPagedirs :
      (vm : Vm D F) (t u kpage : Ptr) (writable : Bool)
      → pg_ofs u ≡ 0
      → u < phys_base
      → pg_ofs kpage ≡ 0
      → phys_base ≤ kpage
      → pg_no (kpage - phys_base) < vm.init_ram_pages
      → ((pd : Pagedir) → vm.pagedirs t ≡ some pd → (entry pd u).present ≡ false)
      → Succeeds (OnlyPagedirs vm) (restore_mapping vm t u kpage writable)
  unfolding restore_mapping
  restore_mapping-OnlyPagedirs vm t u kpage writable a b c d r g = pick (vm.pagedirs t) refl
    where
      pick :
          (o : Option Pagedir)
          → vm.pagedirs t ≡ o
          → Succeeds (OnlyPagedirs vm) (restore_mapping vm t u kpage writable)
      pick none e = rw (e, restore_mapping) refl
      pick (some pd) e =
          rw (e, restore_mapping, pagedir_get_page-none pd u b (g pd e))
            (Succeeds-bind (IsMapped vm.table_room pd u kpage writable) (OnlyPagedirs vm) _ _
              (pagedir_set_page-IsMapped vm.init_ram_pages vm.table_room pd u kpage writable a c b d
                r (g pd e))
              λ x m. refl)
