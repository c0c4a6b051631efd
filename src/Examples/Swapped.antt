-- ===== src/Examples/Swapped.antt =====
-- The theorems on bitmaps and swap slots at a disk of 24 sectors, of which the first slot is used.
use gpintosy.Prelude.{ℕ, ◌/◌, ◌%◌, ◌≡◌, ◌≢◌, refl, false, arith, ◌==◌, if◌then◌else◌}
use gpintosy.Kernel.{Succeeds}
use gpintosy.Vaddr.{Memory, pg_ofs}
use gpintosy.Bitmap.{Bitmap, bitmap_scan_and_flip}
use gpintosy.Bitmap.Scan.{IsFlipped, bitmap_scan_and_flip-IsFlipped}
use gpintosy.Swap.{Driver, Block, swap_out, swap_in, bytes_at}
use gpintosy.Swap.Slots.{swap_of, IsReady, IsHeld, IsOut, swap_out-IsOut}
use gpintosy.Swap.Back.{IsIn, swap_in-IsIn}

abbrev pub Disk : Type 0
Disk = ℕ → ℕ → ℕ

abbrev write_to : Disk → ℕ → (ℕ → ℕ) → Disk
write_to d s c = λ t. if t == s then c else d t

pub write_to-same : (d : Disk) (s : ℕ) (c : ℕ → ℕ) (i : ℕ) → write_to d s c s i ≡ c i
write_to-same d s c i = ground arith

pub write_to-other : (d : Disk) (s t : ℕ) (c : ℕ → ℕ) (i : ℕ) → t ≢ s → write_to d s c t i ≡ d t i
write_to-other d s t c i ne = ground arith

abbrev pub disk : Driver Disk
disk = record {
  read = λ d s. d s;
  write = write_to;
  read_written = λ d s c i h. write_to-same d s c i;
  read_other = write_to-other;
}

abbrev pub block : Block Disk
block = record { size = 24; foreign = false; aux = λ s i. s }

abbrev pub map : Bitmap
map = record { bit_cnt = 3; bits = λ w j. j == 0 }

abbrev pub memory : Memory
memory a = a % 256

pub map-IsReady : IsReady disk block map
map-IsReady = record { room = omega arith; own = refl; small = omega arith }

-- The first slot holds its sector numbers.
abbrev pub page : ℕ → ℕ
page i = i / 512

pub first-IsHeld : IsHeld disk block map 0 page
first-IsHeld = record { valid = omega arith; used = refl; content = λ t i h l. ground arith }

page_aligned : pg_ofs 8192 ≡ 0
unfolding pg_ofs
page_aligned = refl

swap_out-IsOut_example :
    Succeeds
      (IsOut disk block map (bytes_at memory 8192))
      (swap_out disk 8192 memory (swap_of disk block map))
swap_out-IsOut_example =
    swap_out-IsOut disk block map map-IsReady 8192 memory (ground arith) page_aligned

swap_in-IsIn_example :
    Succeeds
      (IsIn disk block map 0 page 8192 memory)
      (swap_in disk 0 8192 memory (swap_of disk block map))
swap_in-IsIn_example =
    swap_in-IsIn disk block map 0 page map-IsReady first-IsHeld 8192 memory (ground arith)
      page_aligned

bitmap_scan_and_flip-IsFlipped_example :
    Succeeds (IsFlipped map 2 false 0) (bitmap_scan_and_flip map 0 2 false)
bitmap_scan_and_flip-IsFlipped_example =
    bitmap_scan_and_flip-IsFlipped map 2 false 0 (omega arith) (omega arith)
