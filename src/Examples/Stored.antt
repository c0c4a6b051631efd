-- ===== src/Examples/Stored.antt =====
-- The theorems on files at a file of 1000 bytes in the sectors 3 and 4 of a disk, which is open
-- twice, at 70 and 71.
use gpintosy.Prelude.{refl, true, false, arith}
use gpintosy.Prelude.{[], ◌∷◌, ◌==◌, if◌then◌else◌}
use gpintosy.Files.{FileSys, file_close}
use gpintosy.Files.Denied.{IsCounted, file_close-IsCounted}
use gpintosy.Examples.Swapped.{Disk, map}
use gpintosy.Kernel.{Succeeds}
use gpintosy.Inode.{Inode, inode_read_at, inode_write_at}
use gpintosy.Inode.Bytes.{IsOn}
use gpintosy.Inode.Read.{IsReadTo, inode_read_at-IsReadTo}
use gpintosy.Inode.Write.{IsWrittenTo, inode_write_at-IsWrittenTo}
use gpintosy.Examples.Swapped.{disk, block, memory}

abbrev inode : Inode
inode = record {
  sector = 2;
  open_cnt = 1;
  removed = false;
  deny_write_cnt = 0;
  start = 3;
  len = 1000;
}

inode-IsOn : IsOn disk inode block
inode-IsOn = record { own = refl; fits = λ i h. omega arith }

inode_read_at-IsReadTo_example :
    Succeeds
      (IsReadTo disk inode block inode-IsOn 700 400 0 8192 memory)
      (inode_read_at disk true inode block 8192 700 400 memory)
inode_read_at-IsReadTo_example =
    inode_read_at-IsReadTo disk inode block inode-IsOn 700 400 8192 memory

inode_write_at-IsWrittenTo_example :
    Succeeds
      (IsWrittenTo disk inode memory 700 400 0 8192 block)
      (inode_write_at disk true inode memory 8192 700 400 block)
inode_write_at-IsWrittenTo_example =
    inode_write_at-IsWrittenTo disk inode memory 700 400 8192 block inode-IsOn refl

-- The file 70 denies writes.
abbrev pub fs : FileSys Disk
fs = record {
  device = block;
  free_map = map;
  inodes = λ i.
      if i == 50
      then record inode { open_cnt = 2; deny_write_cnt = 1 }
      else record inode { open_cnt = 0 };
  open_inodes = 50 ∷ [];
  files = λ f. record { inode = 50; pos = 0; deny_write = f == 70 };
  spare = [];
}

pub fs-IsCounted : IsCounted (70 ∷ 71 ∷ []) fs
fs-IsCounted = record { deniers = λ i. ground arith; openers = λ i. ground arith }

file_close-IsCounted_example : Succeeds (IsCounted (71 ∷ [])) (file_close 70 fs)
file_close-IsCounted_example =
    file_close-IsCounted (71 ∷ []) 70 fs fs-IsCounted refl (ground arith) refl
