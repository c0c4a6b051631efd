-- ===== src/Syscall/Descriptors.antt =====
-- src/userprog/syscall.c: the file descriptors of a process, and the calls on an open file but for
-- reading and writing.
pub mod Table
use gpintosy.Prelude.{
  ℕ, ◌+◌, ◌^◌, ◌%◌, Bool, true, false, not, Option, none, some, List, [], ◌∷◌, ◌++◌, ltb, leb, ◌==◌,
  keep, if◌then◌else◌,
}
use gpintosy.Prelude.Int.{ℤ, pos, negsuc}
use gpintosy.Kernel.{Ptr, null, Result, ok, panic, undefined}
use gpintosy.Files.{FileSys, file_close, file_length, file_seek, file_tell}
use gpintosy.Vm.{Vm}
use gpintosy.Syscall.{
  Descriptor, Sys, Answer, returns, exits, waits, Call, next, ◌>>=◌, ◌>>◌, pure, get, put, set_vm,
  lift, sys_exit, malloc, free,
}

unfoldable pub find_fd : ℕ → List Descriptor → Option Descriptor
find_fd fd [] = none
find_fd fd (d ∷ l) = if d.fd == fd then some d else find_fd fd l

-- `list_remove` of the first descriptor with a number
unfoldable pub remove_fd : ℕ → List Descriptor → List Descriptor
remove_fd fd [] = []
remove_fd fd (d ∷ l) = if d.fd == fd then l else d ∷ remove_fd fd l

module _ {D F : Type 0} where
  unfoldable pub lookup_fd : ℕ → Sys D F → Option Descriptor
  lookup_fd fd s = find_fd fd s.fd_list

  unfoldable pub lookup_file : ℕ → Sys D F → Ptr
  lookup_file fd s = elim (lookup_fd fd s) [ none ↦ null | some d ↦ d.file ]

  -- `none` is -1
  unfoldable pub fd_allocate : Ptr → Call D F (Option ℕ)
  fd_allocate file = do
    found ← malloc
    s ← get
    if not found then pure none else do
      put (record s {
        fd_list = s.fd_list ++ record { fd = s.next_fd; file = file } ∷ [];
        next_fd = s.next_fd + 1;
      })
      pure (some s.next_fd)

module _ {D E : Type 0} where
  -- A call on the file system.
  abbrev pub set_files : FileSys E → Call D (FileSys E) (Unit {0})
  set_files fs s = ok (returns tt, record s { vm = record (s.vm) { files = fs } })

  abbrev pub on_files : (FileSys E → Result (FileSys E)) → Call D (FileSys E) (Unit {0})
  on_files f = do s ← get; fs ← lift (f s.vm.files); set_files fs

  -- The part of `fd_close` with the descriptor looked up.
  abbrev pub close_found : ℕ → Option Descriptor → Call D (FileSys E) (Unit {0})
  close_found fd none = pure tt
  close_found fd (some d) = do
    s ← get
    put (record s { fd_list = remove_fd fd s.fd_list })
    on_files (file_close d.file)
    free

  unfoldable pub fd_close : ℕ → Call D (FileSys E) (Unit {0})
  fd_close fd = do s ← get; close_found fd (lookup_fd fd s)

  unfoldable pub sys_close : ℕ → Call D (FileSys E) (Unit {0})
  sys_close fd = if ltb fd 2 then pure tt else fd_close fd

  -- `none` is -1
  unfoldable pub sys_filesize : ℕ → Call D (FileSys E) (Option ℕ)
  sys_filesize fd = do
    s ← get
    let file = lookup_file fd s
    if file == null then pure none else do len ← lift (file_length file s.vm.files); pure (some len)

  unfoldable pub sys_seek : ℕ → ℕ → Call D (FileSys E) (Unit {0})
  sys_seek fd position = do
    s ← get
    let file = lookup_file fd s
    if file == null
        then pure tt
        else if ltb position (2 ^ 31)
        then on_files (file_seek file position)
        else lift panic

  unfoldable pub sys_tell : ℕ → Call D (FileSys E) ℕ
  sys_tell fd = do
    s ← get
    let file = lookup_file fd s
    if file == null then pure 0 else lift (file_tell file s.vm.files)

  -- The loop of `syscall_close_all_files`
  unfoldable pub close_files : List Descriptor → Call D (FileSys E) (Unit {0})
  close_files [] = pure tt
  close_files (d ∷ l) = do
    s ← get
    put (record s { fd_list = l })
    on_files (file_close d.file)
    free
    close_files l

  unfoldable pub syscall_close_all_files : Call D (FileSys E) (Unit {0})
  syscall_close_all_files = do s ← get; close_files s.fd_list
