-- ===== src/Process/Load.antt =====
-- src/userprog/process.c: the loading of an executable.
--
-- The state is that of the running process, as in the system calls. `load` is modelled from the
-- opened executable on.
pub mod Segment
use gpintosy.Prelude.{
  ℕ, zero, suc, ◌+◌, ◌-◌, ◌*◌, ◌/◌, ◌^◌, ◌%◌, Bool, true, false, not, ◌&&◌, ◌||◌, Option, none,
  some, List, [], ◌∷◌, ltb, leb, ◌==◌, if◌then◌else◌,
}
use gpintosy.Prelude.Int.{negsuc}
use gpintosy.Kernel.{Ptr, null, panic, undefined, assert}
use gpintosy.Vaddr.{Memory, put_bytes, pgsize, phys_base, pg_ofs, pg_round_down, is_user_vaddr}
use gpintosy.Pagedir.{pagedir_clear_page}
use gpintosy.Palloc.{Flags, palloc_get_page, palloc_free_page}
use gpintosy.Swap.{Driver}
use gpintosy.Files.{FileSys, file_length, file_seek, file_close, file_deny_write}
use gpintosy.Vm.{
  PageType, page_file, page_zero, loaded, not_loaded, no_slot, SptEntry, Files, Vm, memory,
  set_memory, set_pagedir, set_entry,
}
use gpintosy.Vm.Frame.{frame_allocate, frame_free, frame_unpin}
use gpintosy.Vm.Load.{map_page}
use gpintosy.Syscall.{Sys, Call, ◌>>=◌, ◌>>◌, pure, get, set_vm, lift, malloc, free}
use gpintosy.Syscall.Descriptors.{set_files, on_files}
use gpintosy.Syscall.Calls.{count, read_bounce, buffer_of}
use gpintosy.Process.Args.{stack_page, setup_args}
use gpintosy.Text.{strlen, strlcpy}

-- Addition, subtraction and rounding of 32-bit words.
abbrev pub add : ℕ → ℕ → ℕ
add a b = (a + b) % 2 ^ 32

abbrev pub sub : ℕ → ℕ → ℕ
sub a b = (a + 2 ^ 32 - b) % 2 ^ 32

-- `ROUND_UP (x, PGSIZE)`
abbrev pub round_up : ℕ → ℕ
round_up x = add x 4095 / 4096 * 4096

-- `struct Elf32_Ehdr`, with the fields that are read
pub record Ehdr : Type 0 where
  pub e_ident : List ℕ
  pub e_type : ℕ
  pub e_machine : ℕ
  pub e_version : ℕ
  pub e_entry : Ptr
  pub e_phoff : ℕ
  pub e_phentsize : ℕ
  pub e_phnum : ℕ

-- `struct Elf32_Phdr`, with the fields that are read
pub record Phdr : Type 0 where
  pub p_type : ℕ
  pub p_offset : ℕ
  pub p_vaddr : Ptr
  pub p_filesz : ℕ
  pub p_memsz : ℕ
  pub p_flags : ℕ

abbrev pub byte : List ℕ → ℕ → ℕ
byte [] i = 0
byte (b ∷ bytes) i = if i == 0 then b else byte bytes (i - 1)

abbrev pub half : List ℕ → ℕ → ℕ
half bytes i = byte bytes i + 256 * byte bytes (i + 1)

abbrev pub word : List ℕ → ℕ → ℕ
word bytes i = half bytes i + 65536 * half bytes (i + 2)

abbrev pub first : ℕ → List ℕ → List ℕ
first zero bytes = []
first (suc n) [] = []
first (suc n) (b ∷ bytes) = b ∷ first n bytes

-- The structures in the bytes of a file.
unfoldable pub ehdr_of : List ℕ → Ehdr
ehdr_of bytes = record {
  e_ident = first 7 bytes;
  e_type = half bytes 16;
  e_machine = half bytes 18;
  e_version = word bytes 20;
  e_entry = word bytes 24;
  e_phoff = word bytes 28;
  e_phentsize = half bytes 42;
  e_phnum = half bytes 44;
}

unfoldable pub phdr_of : List ℕ → Phdr
phdr_of bytes = record {
  p_type = word bytes 0;
  p_offset = word bytes 4;
  p_vaddr = word bytes 8;
  p_filesz = word bytes 16;
  p_memsz = word bytes 20;
  p_flags = word bytes 24;
}

abbrev pub same : List ℕ → List ℕ → Bool
same [] [] = true
same [] (b ∷ t) = false
same (a ∷ s) [] = false
same (a ∷ s) (b ∷ t) = (a == b) && same s t

-- The test of the header in `load`: "\177ELF\1\1\1", an executable, for the 386, version 1.
unfoldable pub is_executable : Ehdr → Bool
is_executable ehdr =
    same ehdr.e_ident (127 ∷ 69 ∷ 76 ∷ 70 ∷ 1 ∷ 1 ∷ 1 ∷ [])
    && (ehdr.e_type == 2)
    && (ehdr.e_machine == 3)
    && (ehdr.e_version == 1)
    && (ehdr.e_phentsize == 32)
    && leb ehdr.e_phnum 1024

-- `validate_segment`, with the length of the file
unfoldable pub validate_segment : Phdr → ℕ → Bool
validate_segment phdr file_len =
    if not (phdr.p_offset % pgsize == phdr.p_vaddr % pgsize)
    then false
    else if ltb file_len phdr.p_offset
    then false
    else if ltb phdr.p_memsz phdr.p_filesz
    then false
    else if phdr.p_memsz == 0
    then false
    else if not (is_user_vaddr phdr.p_vaddr)
    then false
    else if not (is_user_vaddr (add phdr.p_vaddr phdr.p_memsz))
    then false
    else if ltb (add phdr.p_vaddr phdr.p_memsz) phdr.p_vaddr
    then false
    else if ltb phdr.p_vaddr pgsize
    then false
    else true

-- What `load` computes of a segment: its first page in the file and in memory, and how many bytes
-- of it are read and how many are zero.
pub record Extent : Type 0 where
  pub file_page : ℕ
  pub mem_page : Ptr
  pub read_bytes : ℕ
  pub zero_bytes : ℕ

unfoldable pub extent_of : Phdr → Extent
extent_of phdr =
    let page_offset = phdr.p_vaddr % pgsize in
    let read_bytes = if ltb 0 phdr.p_filesz then add page_offset phdr.p_filesz else 0 in
    record {
      file_page = phdr.p_offset - phdr.p_offset % pgsize;
      mem_page = phdr.p_vaddr - phdr.p_vaddr % pgsize;
      read_bytes = read_bytes;
      zero_bytes = sub (round_up (add page_offset phdr.p_memsz)) read_bytes;
    }

-- The entry that `process_spt_insert` makes.
abbrev pub process_entry : Ptr → Bool → PageType → Ptr → ℕ → ℕ → ℕ → Ptr → SptEntry
process_entry upage writable type file ofs read_bytes zero_bytes kpage = record {
  upage = upage;
  writable = writable;
  type = type;
  state = if kpage == null then not_loaded else loaded;
  file = file;
  ofs = ofs;
  read_bytes = read_bytes;
  zero_bytes = zero_bytes;
  swap_slot = no_slot;
  kpage = kpage;
  md = negsuc 0;
}

-- The entry of a page of a segment, of which some bytes are in the file.
abbrev pub segment_entry : Ptr → Bool → Ptr → ℕ → ℕ → SptEntry
segment_entry upage writable file ofs page_read_bytes =
    let some_bytes = ltb 0 page_read_bytes in
    process_entry upage writable (if some_bytes then page_file else page_zero)
      (if some_bytes then file else null) (if some_bytes then ofs else 0) page_read_bytes
      (pgsize - page_read_bytes) null

module _ {D F : Type 0} where
  unfoldable pub process_spt_insert : SptEntry → Call D F Bool
  process_spt_insert e = do
    lift (assert (pg_ofs e.upage == 0))
    lift (assert (e.read_bytes + e.zero_bytes == pgsize))
    found ← malloc
    s ← get
    if not found then pure false else do
      lift (assert (not (e.upage == null)))
      elim (s.vm.spts s.vm.cur e.upage) [
        | some e' ↦ do free; pure false
        | none ↦ do set_vm (set_entry s.vm s.vm.cur e.upage (some e)); pure true
      ]

  -- The loop of `load_segment`, with the rounds left: a page each, so that no rounds are left only
  -- when nothing is.
  unfoldable pub load_pages : ℕ → Ptr → ℕ → Ptr → ℕ → ℕ → Bool → Call D F Bool
  load_pages zero file ofs upage read_bytes zero_bytes writable =
      if (read_bytes == 0) && (zero_bytes == 0) then pure true else lift undefined
  load_pages (suc n) file ofs upage read_bytes zero_bytes writable =
      if (read_bytes == 0) && (zero_bytes == 0) then pure true else do
        let page_read_bytes = if ltb read_bytes pgsize then read_bytes else pgsize
        done ← process_spt_insert (segment_entry upage writable file ofs page_read_bytes)
        if not done
            then pure false
            else load_pages n file (ofs + pgsize) (upage + pgsize) (sub read_bytes page_read_bytes)
                (sub zero_bytes (pgsize - page_read_bytes)) writable

abbrev pub pt_load : ℕ
pt_load = 1

-- `PT_DYNAMIC`, `PT_INTERP` and `PT_SHLIB`
abbrev pub is_refused : ℕ → Bool
is_refused p_type = (p_type == 2) || (p_type == 3) || (p_type == 5)

module _ {D E : Type 0} where
  unfoldable pub load_segment : Ptr → Extent → Bool → Call D (FileSys E) Bool
  load_segment file x writable = do
    lift (assert (add x.read_bytes x.zero_bytes % pgsize == 0))
    lift (assert (pg_ofs x.mem_page == 0))
    lift (assert (x.file_page % pgsize == 0))
    on_files (file_seek file x.file_page)
    load_pages (add x.read_bytes x.zero_bytes / pgsize) file x.file_page x.mem_page x.read_bytes
        x.zero_bytes writable

  -- The switch on the type of a program header; the answer is whether loading goes on.
  unfoldable pub load_phdr : Ptr → Phdr → Call D (FileSys E) Bool
  load_phdr file phdr =
      if is_refused phdr.p_type
      then pure false
      else if not (phdr.p_type == pt_load)
      then pure true
      else do
        s ← get
        len ← lift (file_length file s.vm.files)
        if not (validate_segment phdr len)
            then pure false
            else load_segment file (extent_of phdr) (phdr.p_flags / 2 % 2 == 1)

module _ {D E : Type 0} (driver : Driver D) (fs : Files (FileSys E)) (disk : Driver E)
    (room : Bool) where
  -- The loop over the program headers, with the headers left.
  unfoldable pub load_phdrs : ℕ → Ptr → ℕ → Call D (FileSys E) Bool
  load_phdrs zero file file_ofs = pure true
  load_phdrs (suc n) file file_ofs = do
    s ← get
    len ← lift (file_length file s.vm.files)
    if leb (2 ^ 31) file_ofs || ltb len file_ofs then pure false else do
      on_files (file_seek file file_ofs)
      bytes ← read_bounce driver fs disk room file 32
      if not (count driver fs disk room bytes == 32) then pure false else do
        go_on ← load_phdr file (phdr_of bytes)
        if go_on then load_phdrs n file (file_ofs + 32) else pure false

  -- `setup_stack` up to the arguments: the stack page, mapped and in the table.
  unfoldable pub map_stack : Call D (FileSys E) (Option Ptr)
  map_stack = do
    s ← get
    let flags : Flags = record { pal_assert = false; pal_zero = true; pal_user = true }
    (found, vm) ← lift (frame_allocate driver fs flags stack_page s.vm)
    set_vm vm
    elim found [
      | none ↦ pure none
      | some f ↦ do
        let kpage = (vm.frames f).kpage
        (mapped, vm) ← lift (map_page driver fs stack_page kpage true vm)
        set_vm vm
        if not mapped then (do vm ← lift (frame_free kpage vm); set_vm vm; pure none) else do
          done ← process_spt_insert (process_entry stack_page true page_zero null 0 0 pgsize kpage)
          s ← get
          if done
              then (do vm ← lift (frame_unpin kpage s.vm); set_vm vm; pure (some kpage))
              else elim (s.vm.pagedirs s.vm.cur) [
                | none ↦ lift panic
                | some pd ↦ do
                  pd ← lift (pagedir_clear_page pd stack_page)
                  vm ← lift (frame_free kpage (set_pagedir s.vm s.vm.cur pd))
                  set_vm vm
                  pure none
              ]
    ]

  -- `palloc_get_page (0)` and `palloc_free_page`
  unfoldable pub get_kernel_page : Call D (FileSys E) Ptr
  get_kernel_page = do
    s ← get
    (page, pools) ← lift (
        palloc_get_page (record { pal_assert = false; pal_zero = false; pal_user = false })
          s.vm.pools)
    set_vm (record s.vm { pools = pools })
    pure page

  unfoldable pub free_kernel_page : Ptr → Call D (FileSys E) (Unit {0})
  free_kernel_page page = do
    s ← get
    pools ← lift (palloc_free_page page s.vm.pools)
    set_vm (record s.vm { pools = pools })

  -- The stack page under its user addresses.
  abbrev pub stack_view : Ptr → Memory → Memory
  stack_view kpage m a = m (kpage + (a - stack_page))

  -- The arguments are written to the stack page. A page that is too small for them is left as it
  -- is: the process does not run.
  unfoldable pub write_args : List ℕ → Ptr → Call D (FileSys E) (Option Ptr)
  write_args cmdline kpage = do
    s ← get
    elim (setup_args cmdline (stack_view kpage (memory s.vm))) [
      | none ↦ pure none
      | some (sp, m) ↦ do
        set_vm (set_memory s.vm (put_bytes (memory s.vm) kpage pgsize (λ i. m (stack_page + i))))
        pure (some sp)
    ]

  -- `none` is a failure, `some` the stack pointer.
  unfoldable pub setup_stack : List ℕ → Call D (FileSys E) (Option Ptr)
  setup_stack cmdline = do
    mapped ← map_stack
    elim mapped [
      | none ↦ pure none
      | some kpage ↦ do
        copy ← get_kernel_page
        if copy == null then pure none else do
          s ← get
          let text = strlcpy cmdline pgsize
          set_vm (set_memory s.vm (put_bytes (memory s.vm) copy (strlen text + 1) (buffer_of text)))
          sp ← write_args cmdline kpage
          free_kernel_page copy
          pure sp
    ]

  -- The part of `load` with the executable opened; the answer is where the program starts and its
  -- stack pointer.
  unfoldable pub load_executable : Ptr → List ℕ → Call D (FileSys E) (Option (Ptr × Ptr))
  load_executable file cmdline = do
    bytes ← read_bounce driver fs disk room file 52
    let ehdr = ehdr_of bytes
    if not (count driver fs disk room bytes == 52) || not (is_executable ehdr)
        then pure none
        else do
          done ← load_phdrs ehdr.e_phnum file ehdr.e_phoff
          if not done then pure none else do
            esp ← setup_stack cmdline
            elim esp [ none ↦ pure none | some sp ↦ pure (some (ehdr.e_entry, sp)) ]

  -- `load` from `file_deny_write` on.
  unfoldable pub load_file : Ptr → List ℕ → Call D (FileSys E) (Option (Ptr × Ptr))
  load_file file cmdline = do
    on_files (file_deny_write file)
    r ← load_executable file cmdline
    elim r [ none ↦ do on_files (file_close file); pure none | some start ↦ pure (some start) ]
