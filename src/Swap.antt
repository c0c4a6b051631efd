-- ===== src/Swap.antt =====
-- src/vm/swap.c: the swap slots, on a block device of src/devices/block.c.
--
-- The swap lock makes each call one step and is left out. What a driver does is a parameter.
pub mod Pages
pub mod Slots
pub mod Back
use gpintosy.Prelude.{
  ℕ, zero, suc, ◌+◌, ◌-◌, ◌*◌, ◌/◌, ◌<◌, ◌≡◌, ◌≢◌, Bool, true, false, not, ◌&&◌, ◌||◌, Option, none,
  some, ltb, leb, ◌==◌, if◌then◌else◌,
}
use gpintosy.Kernel.{Ptr, null, Result, ok, ◌>>=◌, ◌>>◌, assert}
use gpintosy.Vaddr.{pgsize, pg_ofs, Memory}
use gpintosy.Bitmap.{Bitmap, bitmap_reset, bitmap_test, bitmap_scan_and_flip}

abbrev pub block_sector_size : ℕ
block_sector_size = 512

abbrev pub sectors_per_page : ℕ
sectors_per_page = pgsize / block_sector_size

-- `struct block_operations`, on the contents of a device: a sector holds 512 bytes, and keeps what
-- was last written to it.
pub record Driver (D : Type 0) : Type 0 where
  pub read : D → ℕ → ℕ → ℕ
  pub write : D → ℕ → (ℕ → ℕ) → D
  pub read_written : (d : D) (s : ℕ) (c : ℕ → ℕ) (i : ℕ) → i < 512 → read (write d s c) s i ≡ c i
  pub read_other :
      (d : D) (s t : ℕ) (c : ℕ → ℕ) (i : ℕ) → t ≢ s → read (write d s c) t i ≡ read d t i

-- `struct block`, less its name and its counters of accesses
pub record Block (D : Type 0) : Type 0 where
  pub size : ℕ
  pub foreign : Bool
  pub aux : D

-- The static variables: the swap device, if there is one, and the map of its slots, if it could be
-- allocated.
pub record Swap (D : Type 0) : Type 0 where
  pub device : Option (Block D)
  pub map : Option Bitmap
  pub slots : ℕ

-- The bytes of memory from an address on.
abbrev pub bytes_at : Memory → Ptr → ℕ → ℕ
bytes_at m p = λ i. m (p + i)

-- Memory with the 512 bytes from an address on replaced.
abbrev pub put_sector : Memory → Ptr → (ℕ → ℕ) → Memory
put_sector m p c = λ a. if leb p a && ltb a (p + block_sector_size) then c (a - p) else m a

module _ {D : Type 0} where
  unfoldable pub check_sector : Block D → ℕ → Result (Unit {0})
  check_sector block sector = assert (ltb sector block.size)

  -- `swap_table_init` with the device of the role BLOCK_SWAP, and what `bitmap_create` returns for
  -- a number of bits.
  unfoldable pub swap_table_init : Option (Block D) → (ℕ → Option Bitmap) → Swap D
  swap_table_init none create = record { device = none; map = none; slots = 0 }
  swap_table_init (some block) create =
      let slots = block.size / sectors_per_page in
      record { device = some block; map = create slots; slots = slots }

  unfoldable pub swap_slot_count : Swap D → ℕ
  swap_slot_count s = s.slots

  unfoldable pub swap_slot_valid : Swap D → ℕ → Bool
  swap_slot_valid s slot = elim (s.device) [
    | none ↦ false
    | some block ↦ elim (s.map) [ none ↦ false | some map ↦ ltb slot s.slots ]
  ]

  module _ (driver : Driver D) where
    unfoldable pub block_read : Block D → ℕ → Ptr → Memory → Result Memory
    block_read block sector buffer m = do
      check_sector block sector
      ok (put_sector m buffer (driver.read block.aux sector))

    unfoldable pub block_write : Block D → ℕ → Ptr → Memory → Result (Block D)
    block_write block sector buffer m = do
      check_sector block sector
      assert (not block.foreign)
      ok (record block { aux = driver.write block.aux sector (bytes_at m buffer) })

    -- The loops over the sectors of a page, with the rounds left.
    unfoldable pub write_page : ℕ → ℕ → Ptr → Memory → Block D → Result (Block D)
    write_page zero sector p m block = ok block
    write_page (suc n) sector p m block = do
      block ← block_write block sector p m
      write_page n (suc sector) (p + block_sector_size) m block

    unfoldable pub read_page : ℕ → ℕ → Ptr → Block D → Memory → Result Memory
    read_page zero sector p block m = ok m
    read_page (suc n) sector p block m = do
      m ← block_read block sector p m
      read_page n (suc sector) (p + block_sector_size) block m

    -- The slot that was found, if any, is written.
    unfoldable pub write_slot :
        Ptr → Memory → Swap D → Block D → Option ℕ × Bitmap → Result (Option ℕ × Swap D)
    write_slot kpage m s block (none, map) = ok (none, record s { map = some map })
    write_slot kpage m s block (some slot, map) = do
      block ← write_page sectors_per_page (slot * sectors_per_page) kpage m block
      ok (some slot, record s { device = some block; map = some map })

    -- The slot, or `none` for false.
    unfoldable pub swap_out : Ptr → Memory → Swap D → Result (Option ℕ × Swap D)
    swap_out kpage m s = do
      assert (not (kpage == null))
      assert (pg_ofs kpage == 0)
      elim (s.device) [
        | none ↦ ok (none, s)
        | some block ↦ elim (s.map) [
          | none ↦ ok (none, s)
          | some map ↦ do
            found ← bitmap_scan_and_flip map 0 1 false
            write_slot kpage m s block found
        ]
      ]

    -- Reads a slot in use and frees it.
    unfoldable pub read_slot :
        ℕ → Ptr → Memory → Swap D → Block D → Bitmap → Result (Bool × Memory × Swap D)
    read_slot slot kpage m s block map = do
      used ← bitmap_test map slot
      if used
          then (do
            m ← read_page sectors_per_page (slot * sectors_per_page) kpage block m
            ok (true, m, record s { map = some (bitmap_reset map slot) }))
          else ok (false, m, s)

    unfoldable pub swap_in : ℕ → Ptr → Memory → Swap D → Result (Bool × Memory × Swap D)
    swap_in slot kpage m s = do
      assert (not (kpage == null))
      assert (pg_ofs kpage == 0)
      elim (s.device) [
        | none ↦ ok (false, m, s)
        | some block ↦ elim (s.map) [
          | none ↦ ok (false, m, s)
          | some map ↦
              if ltb slot s.slots then read_slot slot kpage m s block map else ok (false, m, s)
        ]
      ]

  unfoldable pub swap_free : ℕ → Swap D → Result (Swap D)
  swap_free slot s = if not (swap_slot_valid s slot) then ok s else elim (s.map) [
    | none ↦ ok s
    | some map ↦ do
      used ← bitmap_test map slot
      ok (if used then record s { map = some (bitmap_reset map slot) } else s)
  ]
