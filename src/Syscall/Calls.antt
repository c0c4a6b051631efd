-- ===== src/Syscall/Calls.antt =====
-- src/userprog/syscall.c: pinning a user buffer, and the calls that read and write.
use gpintosy.Prelude.{
  ℕ, zero, suc, ◌+◌, ◌-◌, ◌/◌, Bool, true, false, not, Option, none, some, List, [], ◌∷◌, ltb, ◌==◌,
  if◌then◌else◌,
}
use gpintosy.Prelude.Int.{negsuc}
use gpintosy.Kernel.{Ptr, null, ok}
use gpintosy.Vaddr.{Memory, pgsize, pg_round_down}
use gpintosy.Swap.{Driver}
use gpintosy.Files.{FileSys, file_read, file_write}
use gpintosy.Vm.{Files, Vm}
use gpintosy.Vm.Frame.{frame_pin_user_page, frame_unpin_user_page}
use gpintosy.Syscall.{
  returns, waits, Call, ◌>>=◌, ◌>>◌, pure, get, set_vm, lift, sys_exit, malloc, free,
}
use gpintosy.Syscall.Memory.{
  get_page, check_user_vaddr, check_user_buffer, get_user, put_user, copy_in, copy_out,
}
use gpintosy.Syscall.Descriptors.{lookup_file, set_files}

-- The bytes of a buffer, from the address 0 on; and a buffer with such bytes.
unfoldable pub bytes_of : Memory → ℕ → ℕ → List ℕ
bytes_of m a zero = []
bytes_of m a (suc n) = m a ∷ bytes_of m (suc a) n

unfoldable pub buffer_of : List ℕ → Memory
buffer_of [] a = 0
buffer_of (b ∷ l) zero = b
buffer_of (b ∷ l) (suc a) = buffer_of l a

abbrev pub bounce_size : ℕ
bounce_size = 256

abbrev pub chunk_of : ℕ → ℕ
chunk_of left = if ltb bounce_size left then bounce_size else left

-- How many pages a buffer touches.
abbrev pub page_cnt : Ptr → ℕ → ℕ
page_cnt buffer size = (pg_round_down (buffer + size - 1) - pg_round_down buffer) / pgsize + 1

module _ {D F : Type 0} (driver : Driver D) (fs : Files F) where
  abbrev pub exit_unless : Bool → Call D F (Unit {0})
  exit_unless b = if b then pure tt else sys_exit (negsuc 0)

  abbrev pub is_some : Option ℕ → Bool
  is_some none = false
  is_some (some b) = true

  -- `frame_pin_user_page`
  unfoldable pub pin : Ptr → Call D F Bool
  pin page s =
      let (done, vm) = frame_pin_user_page s.vm.cur page s.vm in
      ok (returns done, record s { vm = vm })

  -- One round of `pin_user_buffer`: the page is brought in, if need be, and pinned; if it went out
  -- in between, once more.
  unfoldable pub pin_page : Ptr → Call D F (Unit {0})
  pin_page page = do
    check_user_vaddr driver fs page
    kpage ← get_page driver fs page
    kpage ←
        if not (kpage == null)
        then pure kpage
        else do byte ← get_user driver fs page; exit_unless (is_some byte); get_page driver fs page
    exit_unless (not (kpage == null))
    done ← pin page
    if done then pure tt else do
      kpage ← get_page driver fs page
      exit_unless (kpage == null)
      byte ← get_user driver fs page
      exit_unless (is_some byte)
      done ← pin page
      exit_unless done

  -- The loop, with the pages left.
  unfoldable pub pin_pages : ℕ → Ptr → Call D F (Unit {0})
  pin_pages zero page = pure tt
  pin_pages (suc n) page = do pin_page page; pin_pages n (page + pgsize)

  unfoldable pub pin_user_buffer : Ptr → ℕ → Call D F (Unit {0})
  pin_user_buffer buffer size =
      if size == 0 then pure tt else pin_pages (page_cnt buffer size) (pg_round_down buffer)

  unfoldable pub unpin_pages : ℕ → Ptr → Vm D F → Vm D F
  unpin_pages zero page vm = vm
  unpin_pages (suc n) page vm = unpin_pages n (page + pgsize) (frame_unpin_user_page vm.cur page vm)

  unfoldable pub unpin_user_buffer : Ptr → ℕ → Call D F (Unit {0})
  unpin_user_buffer buffer size = do
    s ← get
    if size == 0
        then pure tt
        else set_vm (unpin_pages (page_cnt buffer size) (pg_round_down buffer) s.vm)

  unfoldable pub input_getc : Call D F ℕ
  input_getc s = elim (s.input) [
    | [] ↦ ok (waits, s)
    | c ∷ l ↦ ok (returns c, record s { input = l })
  ]

  unfoldable pub putbuf : List ℕ → Call D F (Unit {0})
  putbuf bytes s = ok (returns tt, record s { output = bytes ∷ s.output })

  -- The loop of `sys_read` of the keyboard, with the bytes left.
  unfoldable pub read_keys : ℕ → Ptr → Call D F (Unit {0})
  read_keys zero ubuffer = pure tt
  read_keys (suc n) ubuffer = do
    ch ← input_getc
    done ← put_user driver fs ubuffer ch
    exit_unless done
    read_keys n (ubuffer + 1)

module _ {D E : Type 0} (driver : Driver D) (fs : Files (FileSys E)) (disk : Driver E)
    (room : Bool) where
  -- `file_read` into the bounce buffer, and `file_write` from it.
  unfoldable pub read_bounce : Ptr → ℕ → Call D (FileSys E) (List ℕ)
  read_bounce file chunk = do
    s ← get
    (n, m, files) ← lift (file_read disk room file 0 chunk s.vm.files (λ a. 0))
    set_files files
    pure (bytes_of m 0 n)

  unfoldable pub write_bounce : Ptr → List ℕ → ℕ → Call D (FileSys E) ℕ
  write_bounce file bytes chunk = do
    s ← get
    (n, files) ← lift (file_write disk room file 0 chunk (buffer_of bytes) s.vm.files)
    set_files files
    pure n

  abbrev pub count : List ℕ → ℕ
  count [] = 0
  count (b ∷ l) = suc (count l)

  -- The loop of `sys_read` of a file: a round reads a byte or more, so that the size is enough fuel.
  unfoldable pub read_rounds : ℕ → ℕ → Ptr → ℕ → ℕ → Call D (FileSys E) (Option ℕ)
  read_rounds zero fd ubuffer size bytes_read = pure (some bytes_read)
  read_rounds (suc n) fd ubuffer size bytes_read =
      if not (ltb bytes_read size) then pure (some bytes_read) else do
        s ← get
        let file = lookup_file fd s
        let chunk = chunk_of (size - bytes_read)
        if file == null then pure none else do
          bytes ← read_bounce file chunk
          if count bytes == 0 then pure (some bytes_read) else do
            copy_out driver fs (ubuffer + bytes_read) bytes
            if ltb (count bytes) chunk
                then pure (some (bytes_read + count bytes))
                else read_rounds n fd ubuffer size (bytes_read + count bytes)

  -- `none` is -1
  unfoldable pub sys_read : ℕ → Ptr → ℕ → Call D (FileSys E) (Option ℕ)
  sys_read fd buffer size = if size == 0 then pure (some 0) else do
    check_user_buffer driver fs buffer size
    pin_user_buffer driver fs buffer size
    result ←
        if fd == 0
        then (do read_keys driver fs size buffer; pure (some size))
        else if fd == 1
        then pure none
        else read_rounds size fd buffer size 0
    unpin_user_buffer driver fs buffer size
    pure result

  unfoldable pub write_rounds : ℕ → ℕ → Ptr → ℕ → ℕ → Call D (FileSys E) (Option ℕ)
  write_rounds zero fd ubuffer size bytes_written = pure (some bytes_written)
  write_rounds (suc n) fd ubuffer size bytes_written =
      if not (ltb bytes_written size) then pure (some bytes_written) else do
        s ← get
        let file = lookup_file fd s
        let chunk = chunk_of (size - bytes_written)
        if file == null then pure (if bytes_written == 0 then none else some bytes_written) else do
          bytes ← copy_in driver fs chunk (ubuffer + bytes_written)
          chunk_written ← write_bounce file bytes chunk
          if chunk_written == 0
              then pure (some bytes_written)
              else if ltb chunk_written chunk
              then pure (some (bytes_written + chunk_written))
              else write_rounds n fd ubuffer size (bytes_written + chunk_written)

  -- The whole buffer goes to the console at once.
  unfoldable pub write_console : Ptr → ℕ → Call D (FileSys E) (Option ℕ)
  write_console buffer size = do
    found ← malloc
    if not found then pure none else do
      bytes ← copy_in driver fs size buffer
      putbuf driver fs bytes
      free
      pure (some size)

  unfoldable pub sys_write : ℕ → Ptr → ℕ → Call D (FileSys E) (Option ℕ)
  sys_write fd buffer size = if size == 0 then pure (some 0) else do
    check_user_buffer driver fs buffer size
    pin_user_buffer driver fs buffer size
    result ←
        if fd == 1
        then write_console buffer size
        else if fd == 0
        then pure none
        else write_rounds size fd buffer size 0
    unpin_user_buffer driver fs buffer size
    pure result
