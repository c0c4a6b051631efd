-- ===== src/Examples/Called.antt =====
-- The theorems on system calls at a process 7 with the descriptor 2 for the open file 70, on the disk
-- of Stored.
use gpintosy.Prelude.{
  ◌+◌, ◌*◌, ◌≤◌, ◌≡◌, refl, true, arith, ◌==◌, if◌then◌else◌, some, none, [], ◌∷◌,
}
use gpintosy.Kernel.{ok, Succeeds, Succeeds-mono}
use gpintosy.Vaddr.{phys_base}
use gpintosy.Pagedir.{zero_pte, Pagedir}
use gpintosy.Files.{FileSys, set_inode, file_allow_write, inode_close, file_close}
use gpintosy.Files.Denied.{IsCounted, file_close-IsCounted}
use gpintosy.Vm.{Files, Vm}
use gpintosy.Swap.Slots.{swap_of}
use gpintosy.Syscall.{Descriptor, Sys, Ends, Allows, ◌>>=◌}
use gpintosy.Syscall.Memory.{check_user_buffer}
use gpintosy.Syscall.Memory.Checked.{IsUserBuffer, check_user_buffer-IsUserBuffer}
use gpintosy.Syscall.Descriptors.{find_fd, lookup_fd, fd_allocate, fd_close}
use gpintosy.Syscall.Descriptors.Table.{
  empty, more, IsTable, IsAllocated, fd_allocate-IsAllocated, IsClosed, fd_close-IsClosed,
}
use gpintosy.Syscall.Mmap.{find_mapping, mmap_entry, pages_for, insert_pages, record_mapping}
use gpintosy.Syscall.Mmap.Unmapped.{unmap_recorded, IsTakenAway, record_mapping-sys_munmap}
use gpintosy.Examples.Swapped.{Disk, disk, block, map}
use gpintosy.Examples.Stored.{fs, fs-IsCounted}

-- Files of zeros.
abbrev pub zeros : Files (FileSys Disk)
zeros = record { read_at = λ f file size ofs. (size, λ i. 0); write_at = λ f file c size ofs. f }

abbrev pub pd : Pagedir
pd = record { tables = λ n. true; ptes = λ i. zero_pte }

abbrev pub vm : Vm Disk (FileSys Disk)
vm = record {
  cur = 7;
  spts = λ t u. none;
  pagedirs = λ t. if t == 7 then some pd else none;
  frames = λ f. record { kpage = 3221233664; owner = 7; upage = 4096; pinned = true };
  frame_table = 600 ∷ [];
  clock_hand = none;
  pools = record {
    kernel_pool = record { used_map = record { bit_cnt = 4; bits = λ w j. j == 0 }; base = 8192 };
    user_pool = record { used_map = record { bit_cnt = 4; bits = λ w j. true }; base = 24576 };
    memory = λ a. 0;
  };
  swap = swap_of disk block map;
  files = fs;
  init_ram_pages = 1024;
  spare = [];
  table_room = true;
}

abbrev pub sys : Sys Disk (FileSys Disk)
sys = record {
  vm = vm;
  fd_list = record { fd = 2; file = 70 } ∷ [];
  next_fd = 3;
  mmap_list = [];
  next_md = 0;
  user_esp = 3221225000;
  heap = 5;
  input = [];
  output = [];
}

sys-IsTable : IsTable sys
unfolding find_fd
sys-IsTable = record { low = omega arith; numbered = more (omega arith) (omega arith) refl empty }

fd_allocate-IsAllocated_example : Ends (IsAllocated 71 sys) (fd_allocate 71 sys)
fd_allocate-IsAllocated_example = fd_allocate-IsAllocated 71 sys sys-IsTable

found_closes :
    (d : Descriptor) → lookup_fd 2 sys ≡ some d → Succeeds (λ _. Unit) (file_close d.file fs)
unfolding lookup_fd find_fd
found_closes d h =
    let e : d.file ≡ 70 = ground (arith, h) in
    rw e (
      Succeeds-mono (IsCounted (71 ∷ [])) (λ _. Unit) (file_close 70 fs)
        (file_close-IsCounted (71 ∷ []) 70 fs fs-IsCounted refl (ground arith) refl) (λ a k. tt))

fd_close-IsClosed_example : Ends (λ _. IsClosed 2 sys) (fd_close 2 sys)
fd_close-IsClosed_example = fd_close-IsClosed 2 sys sys-IsTable found_closes

-- The process with an entry for every page.
abbrev listed : Sys Disk (FileSys Disk)
listed = record sys { vm = record vm { spts = λ t u. some (mmap_entry 70 0 u 0 0 4096) } }

check_user_buffer-IsUserBuffer_example :
    Allows (λ _ _. IsUserBuffer 65500 100) (check_user_buffer disk zeros 65500 100 listed)
check_user_buffer-IsUserBuffer_example =
    check_user_buffer-IsUserBuffer disk zeros 65500 100 listed (omega arith) (omega arith)
      (omega arith)

mapped_below : 65536 + 4096 * pages_for 5000 ≤ phys_base
mapped_below = omega arith

-- The files after the file 71 is closed.
abbrev closed_fs : FileSys Disk
closed_fs = set_inode fs 50 (record (fs.inodes 50) { open_cnt = 1 })

file_closes : file_close 71 fs ≡ ok closed_fs
unfolding file_close file_allow_write inode_close
file_closes = refl

unused : find_mapping 0 sys.mmap_list ≡ none
unfolding find_mapping
unused = refl

record_mapping-sys_munmap_example :
    Ends
      (λ _. IsTakenAway closed_fs sys)
      ((insert_pages 2 71 0 65536 5000 0 >>= λ r.
          record_mapping disk zeros 0 65536 5000 71 r >>= unmap_recorded disk zeros)
        sys)
record_mapping-sys_munmap_example =
    record_mapping-sys_munmap disk zeros 71 0 65536 5000 refl (ground arith) mapped_below sys
      closed_fs unused file_closes (λ i l. refl)
