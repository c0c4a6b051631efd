-- ===== src/Pagedir/Map.antt =====
-- A page directory as a map from user pages to kernel pages.
use gpintosy.Prelude.{
  ℕ, ◌-◌, ◌≡◌, ◌≤◌, ◌<◌, refl, Bool, true, false, arith, ◌==◌, if◌then◌else◌, Bool-cases, inl, inr,
}
use gpintosy.Kernel.{Ptr, null, ok, ◌>>=◌, Succeeds}
use gpintosy.Vaddr.{phys_base, pg_ofs, pg_no, is_user_vaddr, is_kernel_vaddr, vtop}
use gpintosy.Pagedir.{
  Pte, zero_pte, Pagedir, pd_no, set_pte, lookup_page, create_page, install_page, pagedir_set_page,
  pagedir_get_page, pagedir_clear_page, pagedir_is_accessed, pagedir_set_accessed, new_table,
  pte_create_user,
}

-- The entry of a page; an entry of a missing table is zero.
unfoldable pub entry : Pagedir → Ptr → Pte
entry pd vaddr = if pd.tables (pd_no vaddr) then pd.ptes (pg_no vaddr) else zero_pte

-- What `pagedir_set_page` returns: true, with the page mapped and every other page's entry as it
-- was; or false, with nothing changed, as there was no page table and no room for one.
abbrev pub IsMapped : Bool → Pagedir → Ptr → Ptr → Bool → Bool × Pagedir → Type 0
IsMapped room pd upage kpage writable (true, pd') =
    (v : Ptr)
    → pg_ofs v ≡ 0
    → entry pd' v ≡ (if v == upage then pte_create_user kpage writable else entry pd v)
IsMapped room pd upage kpage writable (false, pd') =
    (pd' ≡ pd) × (room ≡ false) × (pd.tables (pd_no upage) ≡ false)

module _ (init_ram_pages : ℕ) (room : Bool) (pd : Pagedir) (upage kpage : Ptr)
    (writable : Bool) where
  set_existing :
      pg_ofs upage ≡ 0
      → pd.tables (pd_no upage) ≡ true
      → IsMapped room pd upage kpage writable
          (true, set_pte pd upage (pte_create_user kpage writable))
  unfolding entry pg_ofs pg_no
  set_existing a t = λ v o. ground arith

  set_created :
      pg_ofs upage ≡ 0
      → pd.tables (pd_no upage) ≡ false
      → IsMapped room pd upage kpage writable
          (true, set_pte (new_table pd (pd_no upage)) upage (pte_create_user kpage writable))
  unfolding entry pg_ofs pg_no
  set_created a t = λ v o. ground arith

  set_page-create :
      pg_ofs upage ≡ 0
      → pg_ofs kpage ≡ 0
      → upage < phys_base
      → phys_base ≤ kpage
      → pg_no (kpage - phys_base) < init_ram_pages
      → pagedir_set_page init_ram_pages room pd upage kpage writable
        ≡ (create_page room pd upage >>= install_page upage kpage writable pd)
  unfolding pagedir_set_page is_user_vaddr is_kernel_vaddr vtop
  set_page-create a b c d e = ground arith

  install-existing :
      upage < phys_base
      → pd.tables (pd_no upage) ≡ true
      → (entry pd upage).present ≡ false
      → (create_page room pd upage >>= install_page upage kpage writable pd)
        ≡ ok (true, set_pte pd upage (pte_create_user kpage writable))
  unfolding create_page install_page is_user_vaddr entry
  install-existing c t f = ground arith

  install-created :
      upage < phys_base
      → pd.tables (pd_no upage) ≡ false
      → room ≡ true
      → (create_page room pd upage >>= install_page upage kpage writable pd)
        ≡ ok (true, set_pte (new_table pd (pd_no upage)) upage (pte_create_user kpage writable))
  unfolding create_page install_page is_user_vaddr pg_no
  install-created c t r = ground arith

  install-none :
      upage < phys_base
      → pd.tables (pd_no upage) ≡ false
      → room ≡ false
      → (create_page room pd upage >>= install_page upage kpage writable pd) ≡ ok (false, pd)
  unfolding create_page install_page is_user_vaddr
  install-none c t r = ground arith

  -- For a user page that is not mapped and a kernel page of the RAM, `pagedir_set_page` fails no
  -- assertion. It maps the page, with clear dirty and accessed bits, and leaves the entries of all
  -- other pages; or there was neither a page table nor room for one, and nothing changes.
  pub pagedir_set_page-IsMapped :
      pg_ofs upage ≡ 0
      → pg_ofs kpage ≡ 0
      → upage < phys_base
      → phys_base ≤ kpage
      → pg_no (kpage - phys_base) < init_ram_pages
      → (entry pd upage).present ≡ false
      → Succeeds
          (IsMapped room pd upage kpage writable)
          (pagedir_set_page init_ram_pages room pd upage kpage writable)
  pagedir_set_page-IsMapped a b c d e f =
      rw (set_page-create a b c d e) (elim (Bool-cases (pd.tables (pd_no upage))) [
        | inl t ↦ rw (install-existing c t f) (set_existing a t)
        | inr t ↦ elim (Bool-cases room) [
          | inl r ↦ rw (install-created c t r) (set_created a t)
          | inr r ↦ rw (install-none c t r) (refl, r, t)
        ]
      ])

module _ (pd : Pagedir) (u : Ptr) (user : u < phys_base) where
  -- A page that was cleared is not mapped.
  pub pagedir_clear_page-entry :
      pg_ofs u ≡ 0 → Succeeds (λ pd'. (entry pd' u).present ≡ false) (pagedir_clear_page pd u)
  unfolding pagedir_clear_page entry is_user_vaddr lookup_page
  pagedir_clear_page-entry a = ground arith

  pub pagedir_get_page-none : (entry pd u).present ≡ false → pagedir_get_page pd u ≡ ok null
  unfolding pagedir_get_page entry is_user_vaddr lookup_page
  pagedir_get_page-none h = ground arith

pub pagedir_set_accessed-off :
    (pd : Pagedir) (u w : Ptr)
    → pagedir_is_accessed (pagedir_set_accessed pd u false) w
      ≡ (if pg_no w == pg_no u then false else pagedir_is_accessed pd w)
unfolding pagedir_is_accessed pagedir_set_accessed pg_no
pagedir_set_accessed-off pd u w = ground arith
