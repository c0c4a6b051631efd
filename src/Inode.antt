-- ===== src/Inode.antt =====
-- src/filesys/inode.c: the bytes of a file, on the sectors of the file system's device.
--
-- Sizes and offsets are not negative. `room` is whether `malloc` finds a sector for the bounce
-- buffer, which is a memory of its own, from the address 0 on.
pub mod Bytes
pub mod Read
pub mod Write
use gpintosy.Prelude.{
  ℕ, zero, suc, ◌+◌, ◌-◌, ◌/◌, ◌%◌, Bool, true, false, not, ◌&&◌, ◌||◌, Option, none, some, ltb,
  leb, ◌==◌, if◌then◌else◌,
}
use gpintosy.Kernel.{Ptr, Result, ok, ◌>>=◌, ◌>>◌, assert}
use gpintosy.Vaddr.{Memory, put_bytes, memset}
use gpintosy.Swap.{Driver, Block, block_sector_size, block_read, block_write, bytes_at}

-- `struct inode` with the members of its `struct inode_disk`, less its place in a list
pub record Inode : Type 0 where
  pub sector : ℕ
  pub open_cnt : ℕ
  pub removed : Bool
  pub deny_write_cnt : ℕ
  pub start : ℕ
  pub len : ℕ

unfoldable pub bytes_to_sectors : ℕ → ℕ
bytes_to_sectors size = (size + block_sector_size - 1) / block_sector_size

-- (block_sector_t) -1
abbrev pub no_sector : ℕ
no_sector = 4294967295

unfoldable pub byte_to_sector : Inode → ℕ → ℕ
byte_to_sector inode pos =
    if ltb pos inode.len then inode.start + pos / block_sector_size else no_sector

unfoldable pub inode_length : Inode → ℕ
inode_length inode = inode.len

unfoldable pub inode_remove : Inode → Inode
inode_remove inode = record inode { removed = true }

unfoldable pub inode_deny_write : Inode → Result Inode
inode_deny_write inode = do
  let inode = record inode { deny_write_cnt = inode.deny_write_cnt + 1 }
  assert (leb inode.deny_write_cnt inode.open_cnt)
  ok inode

unfoldable pub inode_allow_write : Inode → Result Inode
inode_allow_write inode = do
  assert (ltb 0 inode.deny_write_cnt)
  assert (leb inode.deny_write_cnt inode.open_cnt)
  ok (record inode { deny_write_cnt = inode.deny_write_cnt - 1 })

unfoldable pub chunk_size : Inode → ℕ → ℕ → ℕ
chunk_size inode size offset =
    let inode_left = inode_length inode - offset in
    let sector_left = block_sector_size - offset % block_sector_size in
    let min_left = if ltb inode_left sector_left then inode_left else sector_left in
    if ltb size min_left then size else min_left

module _ {D : Type 0} (driver : Driver D) (room : Bool) (inode : Inode) where
  -- One round of the loop of `inode_read_at`: a sector goes into the buffer, or a part of one by
  -- way of the bounce buffer, for which there may be no memory.
  unfoldable pub read_chunk : Block D → ℕ → ℕ → Ptr → Memory → Result (Option Memory)
  read_chunk block offset chunk buffer m =
      let sector_idx = byte_to_sector inode offset in
      let sector_ofs = offset % block_sector_size in
      if (sector_ofs == 0) && (chunk == block_sector_size)
      then (do m ← block_read driver block sector_idx buffer m; ok (some m))
      else if not room
      then ok none
      else do
        bounce ← block_read driver block sector_idx 0 (λ a. 0)
        ok (some (put_bytes m buffer chunk (bytes_at bounce sector_ofs)))

  -- The loop of `inode_read_at`; a round reads a byte or more, so that the size is enough fuel.
  unfoldable pub read_loop : ℕ → Block D → ℕ → ℕ → ℕ → Ptr → Memory → Result (ℕ × Memory)
  read_loop zero block size offset bytes_read buffer m = ok (bytes_read, m)
  read_loop (suc n) block size offset bytes_read buffer m =
      let chunk = chunk_size inode size offset in
      if chunk == 0 then ok (bytes_read, m) else do
        r ← read_chunk block offset chunk (buffer + bytes_read) m
        elim r [
          | none ↦ ok (bytes_read, m)
          | some m' ↦
              read_loop n block (size - chunk) (offset + chunk) (bytes_read + chunk) buffer m'
        ]

  unfoldable pub inode_read_at : Block D → Ptr → ℕ → ℕ → Memory → Result (ℕ × Memory)
  inode_read_at block buffer size offset m = read_loop size block size offset 0 buffer m

  -- The bounce buffer with the bytes to be written, in the sector as it is or in zeros.
  unfoldable pub fill_bounce : Block D → ℕ → ℕ → Ptr → Memory → Result Memory
  fill_bounce block offset chunk buffer m = do
    let sector_ofs = offset % block_sector_size
    let sector_left = block_sector_size - sector_ofs
    bounce ←
        if ltb 0 sector_ofs || ltb chunk sector_left
        then block_read driver block (byte_to_sector inode offset) 0 (λ a. 0)
        else ok (memset 0 0 block_sector_size (λ a. 0))
    ok (put_bytes bounce sector_ofs chunk (bytes_at m buffer))

  -- One round of the loop of `inode_write_at`.
  unfoldable pub write_chunk : Memory → ℕ → ℕ → Ptr → Block D → Result (Option (Block D))
  write_chunk m offset chunk buffer block =
      let sector_idx = byte_to_sector inode offset in
      if (offset % block_sector_size == 0) && (chunk == block_sector_size)
      then (do block ← block_write driver block sector_idx buffer m; ok (some block))
      else if not room
      then ok none
      else do
        bounce ← fill_bounce block offset chunk buffer m
        block ← block_write driver block sector_idx 0 bounce
        ok (some block)

  -- The loop of `inode_write_at`, on the same fuel.
  unfoldable pub write_loop : ℕ → Memory → ℕ → ℕ → ℕ → Ptr → Block D → Result (ℕ × Block D)
  write_loop zero m size offset bytes_written buffer block = ok (bytes_written, block)
  write_loop (suc n) m size offset bytes_written buffer block =
      let chunk = chunk_size inode size offset in
      if chunk == 0 then ok (bytes_written, block) else do
        r ← write_chunk m offset chunk (buffer + bytes_written) block
        elim r [
          | none ↦ ok (bytes_written, block)
          | some block' ↦
              write_loop n m (size - chunk) (offset + chunk) (bytes_written + chunk) buffer block'
        ]

  unfoldable pub inode_write_at : Memory → Ptr → ℕ → ℕ → Block D → Result (ℕ × Block D)
  inode_write_at m buffer size offset block =
      if not (inode.deny_write_cnt == 0)
      then ok (0, block)
      else write_loop size m size offset 0 buffer block
