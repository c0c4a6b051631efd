-- ===== src/Vm.antt =====
-- The state of src/vm/frame.c, src/vm/spt.c and the page faults of src/userprog/exception.c.
--
-- A call runs to its end without another thread in between, so that the frame lock and the locks
-- of the pages are left out, and a page that is being loaded or evicted makes its caller wait. The
-- supplemental page table of a process is a map from pages to entries here, and a hash table in
-- Spt. The file system is a parameter: what is read from a file, and what a write leaves.
pub mod Frame
pub mod Load
pub mod Spt
use gpintosy.Prelude.{
  ℕ, ◌+◌, ◌-◌, ◌≤◌, ◌<◌, ◌≡◌, Bool, true, false, not, ◌&&◌, Option, none, some, List, [], ◌∷◌, ltb,
  leb, ◌==◌, if◌then◌else◌,
}
use gpintosy.Prelude.Int.{ℤ}
use gpintosy.Kernel.{Ptr, null, update}
use gpintosy.Vaddr.{Memory}
use gpintosy.Pagedir.{Pagedir}
use gpintosy.Palloc.{Pools}
use gpintosy.Swap.{Swap}

-- `enum vm_page_type`
pub data PageType : Type 0 where
  page_file page_zero page_swap page_mmap : PageType

-- `enum vm_page_state`
pub data PageState : Type 0 where
  not_loaded loaded loading evicting : PageState

abbrev pub is_loaded : PageState → Bool
is_loaded loaded = true
is_loaded _ = false

abbrev pub is_mmap : PageType → Bool
is_mmap page_mmap = true
is_mmap _ = false

-- Whether the page is in swap or was all zeros: there is no file to read it from again.
abbrev pub is_anonymous : PageType → Bool
is_anonymous page_swap = true
is_anonymous page_zero = true
is_anonymous _ = false

-- (size_t) -1
abbrev pub no_slot : ℕ
no_slot = 4294967295

-- `struct spt_entry`, less its lock and condition variable
pub record SptEntry : Type 0 where
  pub upage : Ptr
  pub writable : Bool
  pub type : PageType
  pub state : PageState
  pub file : Ptr
  pub ofs : ℕ
  pub read_bytes : ℕ
  pub zero_bytes : ℕ
  pub swap_slot : ℕ
  pub kpage : Ptr
  pub md : ℤ

-- `struct frame_entry`
pub record FrameEntry : Type 0 where
  pub kpage : Ptr
  pub owner : Ptr
  pub upage : Ptr
  pub pinned : Bool

-- `file_read_at` answers the number of bytes that it read, and the bytes; `file_write_at` is of the
-- bytes of a buffer.
pub record Files (F : Type 0) : Type 0 where
  pub read_at : F → Ptr → ℕ → ℕ → ℕ × (ℕ → ℕ)
  pub write_at : F → Ptr → (ℕ → ℕ) → ℕ → ℕ → F

pub record Vm (D F : Type 0) : Type 0 where
  -- the running process
  pub cur : Ptr
  pub spts : Ptr → Ptr → Option SptEntry
  pub pagedirs : Ptr → Option Pagedir
  pub frames : Ptr → FrameEntry
  pub frame_table : List Ptr
  pub clock_hand : Option Ptr
  pub pools : Pools
  pub swap : Swap D
  pub files : F
  pub init_ram_pages : ℕ
  -- what `malloc` returns next
  pub spare : List Ptr
  -- whether there is a page for a new page table
  pub table_room : Bool

module _ {D F : Type 0} where
  abbrev pub memory : Vm D F → Memory
  memory vm = vm.pools.memory

  abbrev pub set_memory : Vm D F → Memory → Vm D F
  set_memory vm m = record vm { pools = record (vm.pools) { memory = m } }

  abbrev pub set_frame : Vm D F → Ptr → FrameEntry → Vm D F
  set_frame vm f r = record vm { frames = update vm.frames f r }

  abbrev pub set_pagedir : Vm D F → Ptr → Pagedir → Vm D F
  set_pagedir vm t pd = record vm { pagedirs = update vm.pagedirs t (some pd) }

  abbrev pub set_entry : Vm D F → Ptr → Ptr → Option SptEntry → Vm D F
  set_entry vm t u e = record vm { spts = update vm.spts t (update (vm.spts t) u e) }
