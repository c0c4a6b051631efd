-- ===== src/Files.antt =====
-- src/filesys/file.c, the open inodes of src/filesys/inode.c and src/filesys/free-map.c.
--
-- `saved` is whether the free map could be written to its file, if that is open. What the free map
-- file holds is left out, as the map is in memory while the system runs. The memory of a closed
-- file or inode is not used again.
pub mod Denied
use gpintosy.Prelude.{
  ℕ, ◌+◌, ◌-◌, ◌*◌, ◌≡◌, Bool, true, false, not, Option, none, some, List, [], ◌∷◌, ltb, ◌==◌, keep,
  if◌then◌else◌,
}
use gpintosy.Kernel.{Ptr, null, Result, ok, ◌>>=◌, ◌>>◌, assert, update}
use gpintosy.Vaddr.{Memory}
use gpintosy.Bitmap.{Bitmap, bitmap_all, bitmap_set_multiple, bitmap_scan_and_flip}
use gpintosy.Swap.{Driver, Block, block_read}
use gpintosy.Inode.{
  Inode, bytes_to_sectors, inode_length, inode_deny_write, inode_allow_write, inode_read_at,
  inode_write_at,
}

-- `struct file`
pub record File : Type 0 where
  pub inode : Ptr
  pub pos : ℕ
  pub deny_write : Bool

pub record FileSys (D : Type 0) : Type 0 where
  pub device : Block D
  pub free_map : Bitmap
  pub inodes : Ptr → Inode
  pub open_inodes : List Ptr
  pub files : Ptr → File
  -- what `malloc` returns next
  pub spare : List Ptr

module _ {D : Type 0} where
  abbrev pub set_inode : FileSys D → Ptr → Inode → FileSys D
  set_inode fs i r = record fs { inodes = update fs.inodes i r }

  abbrev pub set_file : FileSys D → Ptr → File → FileSys D
  set_file fs f r = record fs { files = update fs.files f r }

  -- The group that was found is free again if the map cannot be saved.
  unfoldable pub keep_sector :
      Bool → ℕ → FileSys D → Option ℕ × Bitmap → Result (Option ℕ × FileSys D)
  keep_sector saved cnt fs (none, map) = ok (none, record fs { free_map = map })
  keep_sector saved cnt fs (some sector, map) =
      if saved then ok (some sector, record fs { free_map = map }) else do
        map ← bitmap_set_multiple map sector cnt false
        ok (none, record fs { free_map = map })

  unfoldable pub free_map_allocate : Bool → ℕ → FileSys D → Result (Option ℕ × FileSys D)
  free_map_allocate saved cnt fs = do
    found ← bitmap_scan_and_flip fs.free_map 0 cnt false
    keep_sector saved cnt fs found

  unfoldable pub free_map_release : ℕ → ℕ → FileSys D → Result (FileSys D)
  free_map_release sector cnt fs = do
    all ← bitmap_all fs.free_map sector cnt
    assert all
    map ← bitmap_set_multiple fs.free_map sector cnt false
    ok (record fs { free_map = map })

  unfoldable pub inode_reopen : Ptr → FileSys D → FileSys D
  inode_reopen i fs =
      if i == null
      then fs
      else set_inode fs i (record (fs.inodes i) { open_cnt = (fs.inodes i).open_cnt + 1 })

  -- The caller is one of the openers. The last one frees the sectors of a removed inode.
  unfoldable pub inode_close : Ptr → FileSys D → Result (FileSys D)
  inode_close i fs =
      let inode = record (fs.inodes i) { open_cnt = (fs.inodes i).open_cnt - 1 } in
      if i == null
      then ok fs
      else if not ((fs.inodes i).open_cnt == 1)
      then ok (set_inode fs i inode)
      else do
        let fs = set_inode fs i inode
        let fs = record fs { open_inodes = keep (λ x. not (x == i)) fs.open_inodes }
        if inode.removed
            then (do
              fs ← free_map_release inode.sector 1 fs
              free_map_release inode.start (bytes_to_sectors inode.len) fs)
            else ok fs

  -- A file for an inode that was opened; without memory the inode is closed again.
  unfoldable pub file_open : Ptr → FileSys D → Result (Ptr × FileSys D)
  file_open i fs = elim (fs.spare) [
    | [] ↦ do fs ← inode_close i fs; ok (null, fs)
    | f ∷ l ↦
        if i == null
        then ok (null, fs)
        else ok (
          f,
          set_file (record fs { spare = l }) f (record { inode = i; pos = 0; deny_write = false }),
        )
  ]

  unfoldable pub file_reopen : Ptr → FileSys D → Result (Ptr × FileSys D)
  file_reopen f fs = let i = (fs.files f).inode in file_open i (inode_reopen i fs)

  unfoldable pub file_deny_write : Ptr → FileSys D → Result (FileSys D)
  file_deny_write f fs = do
    assert (not (f == null))
    let file = fs.files f
    if file.deny_write then ok fs else do
      inode ← inode_deny_write (fs.inodes file.inode)
      ok (set_inode (set_file fs f (record file { deny_write = true })) file.inode inode)

  unfoldable pub file_allow_write : Ptr → FileSys D → Result (FileSys D)
  file_allow_write f fs = do
    assert (not (f == null))
    let file = fs.files f
    if not file.deny_write then ok fs else do
      inode ← inode_allow_write (fs.inodes file.inode)
      ok (set_inode (set_file fs f (record file { deny_write = false })) file.inode inode)

  unfoldable pub file_close : Ptr → FileSys D → Result (FileSys D)
  file_close f fs =
      if f == null then ok fs else do fs ← file_allow_write f fs; inode_close (fs.files f).inode fs

  unfoldable pub file_length : Ptr → FileSys D → Result ℕ
  file_length f fs = do assert (not (f == null)); ok (inode_length (fs.inodes (fs.files f).inode))

  unfoldable pub file_seek : Ptr → ℕ → FileSys D → Result (FileSys D)
  file_seek f new_pos fs = do
    assert (not (f == null))
    ok (set_file fs f (record (fs.files f) { pos = new_pos }))

  unfoldable pub file_tell : Ptr → FileSys D → Result ℕ
  file_tell f fs = do assert (not (f == null)); ok (fs.files f).pos

  -- The position of a file after a number of bytes.
  abbrev pub advance : Ptr → ℕ → FileSys D → FileSys D
  advance f n fs = set_file fs f (record (fs.files f) { pos = (fs.files f).pos + n })

  module _ (driver : Driver D) (room : Bool) where
    unfoldable pub file_read_at : Ptr → Ptr → ℕ → ℕ → FileSys D → Memory → Result (ℕ × Memory)
    file_read_at f buffer size file_ofs fs m =
        inode_read_at driver room (fs.inodes (fs.files f).inode) fs.device buffer size file_ofs m

    unfoldable pub file_read : Ptr → Ptr → ℕ → FileSys D → Memory → Result (ℕ × Memory × FileSys D)
    file_read f buffer size fs m = do
      (bytes_read, m) ← file_read_at f buffer size (fs.files f).pos fs m
      ok (bytes_read, m, advance f bytes_read fs)

    unfoldable pub file_write_at : Ptr → Ptr → ℕ → ℕ → Memory → FileSys D → Result (ℕ × FileSys D)
    file_write_at f buffer size file_ofs m fs = do
      (bytes_written, device) ←
          inode_write_at driver room (fs.inodes (fs.files f).inode) m buffer size file_ofs fs.device
      ok (bytes_written, record fs { device = device })

    unfoldable pub file_write : Ptr → Ptr → ℕ → Memory → FileSys D → Result (ℕ × FileSys D)
    file_write f buffer size m fs = do
      (bytes_written, fs) ← file_write_at f buffer size (fs.files f).pos m fs
      ok (bytes_written, advance f bytes_written fs)
