-- ===== src/Pagedir.antt =====
-- src/userprog/pagedir.c: the page directory of a process.
--
-- A directory is its page tables and their entries, by page number. `room` says whether the page
-- allocator has a page for a new table. The activation of a directory in the processor, and the
-- copy of the kernel's mappings, are left out; no process has the kernel's own directory.
pub mod Map
use gpintosy.Prelude.{
  ℕ, ◌+◌, ◌/◌, Bool, true, false, not, ◌&&◌, Option, none, some, ltb, ◌==◌, if◌then◌else◌,
}
use gpintosy.Kernel.{Ptr, null, Result, ok, ◌>>=◌, ◌>>◌, assert, update}
use gpintosy.Vaddr.{pg_ofs, pg_no, is_user_vaddr, vtop}

-- A page table entry: its bits, and the kernel address of its page.
pub record Pte : Type 0 where
  pub present : Bool
  pub page : Ptr
  pub writable : Bool
  pub dirty : Bool
  pub accessed : Bool

abbrev pub zero_pte : Pte
zero_pte = record { present = false; page = 0; writable = false; dirty = false; accessed = false }

pub record Pagedir : Type 0 where
  -- whether there is a page table, by its number
  pub tables : ℕ → Bool
  pub ptes : ℕ → Pte

abbrev pub pd_no : Ptr → ℕ
pd_no va = va / 4194304

-- `pte_create_user`
abbrev pub pte_create_user : Ptr → Bool → Pte
pte_create_user page writable = record {
  present = true;
  page = page;
  writable = writable;
  dirty = false;
  accessed = false;
}

abbrev pub set_pte : Pagedir → Ptr → Pte → Pagedir
set_pte pd vaddr pte = record pd { ptes = update pd.ptes (pg_no vaddr) pte }

-- `lookup_page` that creates nothing
unfoldable pub lookup_page : Pagedir → Ptr → Option Pte
lookup_page pd vaddr = if pd.tables (pd_no vaddr) then some (pd.ptes (pg_no vaddr)) else none

-- A new page table is all zeros.
abbrev pub new_table : Pagedir → ℕ → Pagedir
new_table pd n = record {
  tables = update pd.tables n true;
  ptes = λ i. if i / 1024 == n then zero_pte else pd.ptes i;
}

-- `lookup_page` that creates a missing page table: the directory with it, if there is room.
unfoldable pub create_page : Bool → Pagedir → Ptr → Result (Option Pagedir)
create_page room pd vaddr = do
  assert (is_user_vaddr vaddr)
  if pd.tables (pd_no vaddr)
      then ok (some pd)
      else if room
      then ok (some (new_table pd (pd_no vaddr)))
      else ok none

abbrev pub is_present : Option Pte → Bool
is_present none = false
is_present (some pte) = pte.present

unfoldable pub install_page : Ptr → Ptr → Bool → Pagedir → Option Pagedir → Result (Bool × Pagedir)
install_page upage kpage writable pd none = ok (false, pd)
install_page upage kpage writable pd (some pd') = do
  assert (not (pd'.ptes (pg_no upage)).present)
  ok (true, set_pte pd' upage (pte_create_user kpage writable))

unfoldable pub pagedir_set_page : ℕ → Bool → Pagedir → Ptr → Ptr → Bool → Result (Bool × Pagedir)
pagedir_set_page init_ram_pages room pd upage kpage writable = do
  assert (pg_ofs upage == 0)
  assert (pg_ofs kpage == 0)
  assert (is_user_vaddr upage)
  paddr ← vtop kpage
  assert (ltb (pg_no paddr) init_ram_pages)
  found ← create_page room pd upage
  install_page upage kpage writable pd found

unfoldable pub pagedir_get_page : Pagedir → Ptr → Result Ptr
pagedir_get_page pd uaddr = do
  assert (is_user_vaddr uaddr)
  ok (
      if is_present (lookup_page pd uaddr)
      then (pd.ptes (pg_no uaddr)).page + pg_ofs uaddr
      else null)

unfoldable pub pagedir_clear_page : Pagedir → Ptr → Result Pagedir
pagedir_clear_page pd upage = do
  assert (pg_ofs upage == 0)
  assert (is_user_vaddr upage)
  ok (
      if is_present (lookup_page pd upage)
      then set_pte pd upage (record (pd.ptes (pg_no upage)) { present = false })
      else pd)

unfoldable pub pagedir_is_dirty : Pagedir → Ptr → Bool
pagedir_is_dirty pd vpage = pd.tables (pd_no vpage) && (pd.ptes (pg_no vpage)).dirty

unfoldable pub pagedir_set_dirty : Pagedir → Ptr → Bool → Pagedir
pagedir_set_dirty pd vpage dirty =
    if pd.tables (pd_no vpage)
    then set_pte pd vpage (record (pd.ptes (pg_no vpage)) { dirty = dirty })
    else pd

unfoldable pub pagedir_is_accessed : Pagedir → Ptr → Bool
pagedir_is_accessed pd vpage = pd.tables (pd_no vpage) && (pd.ptes (pg_no vpage)).accessed

unfoldable pub pagedir_set_accessed : Pagedir → Ptr → Bool → Pagedir
pagedir_set_accessed pd vpage accessed =
    if pd.tables (pd_no vpage)
    then set_pte pd vpage (record (pd.ptes (pg_no vpage)) { accessed = accessed })
    else pd
