-- ===== src/Swap/Pages.antt =====
-- The loops that write a page to eight sectors and read it back.
use gpintosy.Prelude.{ℕ, zero, suc, ◌+◌, ◌*◌, ◌<◌, ◌≤◌, ◌≡◌, refl, ◌∙◌, false, arith, inl, ◌⊎◌}
use gpintosy.Kernel.{Ptr, ok, Succeeds, Succeeds-mono}
use gpintosy.Vaddr.{Memory}
use gpintosy.Swap.{
  Driver, Block, bytes_at, put_sector, check_sector, block_read, block_write, write_page, read_page,
}

module _ {D : Type 0} (driver : Driver D) where
  -- `b'` is `b` with `n` sectors from `sector` on written from memory.
  pub record IsWritten (n sector : ℕ) (p : Ptr) (m : Memory) (b b' : Block D) : Type 0 where
    pub size : b'.size ≡ b.size
    pub foreign : b'.foreign ≡ b.foreign
    pub written :
        (t i : ℕ) → t < n → i < 512 → driver.read b'.aux (sector + t) i ≡ m (p + t * 512 + i)
    pub kept :
        (t i : ℕ)
        → (t < sector) ⊎ (sector + n ≤ t)
        → i < 512
        → driver.read b'.aux t i ≡ driver.read b.aux t i

  module _ (m : Memory) where
    abbrev written_once : ℕ → Ptr → Block D → Block D
    written_once sector p b = record b { aux = driver.write b.aux sector (bytes_at m p) }

    block_write-ok :
        (sector : ℕ) (p : Ptr) (b : Block D)
        → sector < b.size
        → b.foreign ≡ false
        → block_write driver b sector p m ≡ ok (written_once sector p b)
    unfolding block_write check_sector
    block_write-ok sector p b h f = ground (arith, f)

    extend-IsWritten :
        (n sector : ℕ) (p : Ptr) (b b' : Block D)
        → IsWritten n (suc sector) (p + 512) m (written_once sector p b) b'
        → IsWritten (suc n) sector p m b b'
    extend-IsWritten n sector p b b' w = record {
      size = w.size;
      foreign = w.foreign;
      written = go;
      kept = λ t i h l.
          w.kept t i (ground arith) l
          ∙ driver.read_other b.aux sector t (bytes_at m p) i (ground arith);
    }
      where
        go :
            (t i : ℕ)
            → t < suc n
            → i < 512
            → driver.read b'.aux (sector + t) i ≡ m (p + t * 512 + i)
        go zero i h l = ground (
          arith,
          w.kept sector i (inl (omega arith)) l,
          driver.read_written b.aux sector (bytes_at m p) i l,
        )
        go (suc t) i h l = ground (arith, w.written t i (omega arith) l)

    pub write_page-IsWritten :
        (n sector : ℕ) (p : Ptr) (b : Block D)
        → sector + n ≤ b.size
        → b.foreign ≡ false
        → Succeeds (IsWritten n sector p m b) (write_page driver n sector p m b)
    unfolding write_page
    write_page-IsWritten zero sector p b h f = record {
      size = refl;
      foreign = refl;
      written = λ t i k l. absurd (omega arith);
      kept = λ t i k l. refl;
    }
    write_page-IsWritten (suc n) sector p b h f = rw (block_write-ok sector p b (omega arith) f) (
        Succeeds-mono (IsWritten n (suc sector) (p + 512) m (written_once sector p b))
          (IsWritten (suc n) sector p m b) _
          (write_page-IsWritten n (suc sector) (p + 512) (written_once sector p b) (omega arith) f)
          λ b'. extend-IsWritten n sector p b b')

  -- `m'` is `m` with `n` sectors from `sector` on read into it.
  pub record IsRead (n sector : ℕ) (p : Ptr) (b : Block D) (m m' : Memory) : Type 0 where
    pub got : (t i : ℕ) → t < n → i < 512 → m' (p + t * 512 + i) ≡ driver.read b.aux (sector + t) i
    pub kept : (a : Ptr) → (a < p) ⊎ (p + n * 512 ≤ a) → m' a ≡ m a

  module _ (b : Block D) where
    abbrev read_once : ℕ → Ptr → Memory → Memory
    read_once sector p m = put_sector m p (driver.read b.aux sector)

    block_read-ok :
        (sector : ℕ) (p : Ptr) (m : Memory)
        → sector < b.size
        → block_read driver b sector p m ≡ ok (read_once sector p m)
    unfolding block_read check_sector
    block_read-ok sector p m h = ground arith

    extend-IsRead :
        (n sector : ℕ) (p : Ptr) (m m' : Memory)
        → IsRead n (suc sector) (p + 512) b (read_once sector p m) m'
        → IsRead (suc n) sector p b m m'
    extend-IsRead n sector p m m' r = record { got = go; kept = λ a h. ground (arith, r.kept a) }
      where
        go :
            (t i : ℕ)
            → t < suc n
            → i < 512
            → m' (p + t * 512 + i) ≡ driver.read b.aux (sector + t) i
        go zero i h l = ground (arith, r.kept (p + i))
        go (suc t) i h l = ground (arith, r.got t i (omega arith) l)

    pub read_page-IsRead :
        (n sector : ℕ) (p : Ptr) (m : Memory)
        → sector + n ≤ b.size
        → Succeeds (IsRead n sector p b m) (read_page driver n sector p b m)
    unfolding read_page
    read_page-IsRead zero sector p m h = record {
      got = λ t i k l. absurd (omega arith);
      kept = λ a k. refl;
    }
    read_page-IsRead (suc n) sector p m h = rw (block_read-ok sector p m (omega arith)) (
        Succeeds-mono (IsRead n (suc sector) (p + 512) b (read_once sector p m))
          (IsRead (suc n) sector p b m) _
          (read_page-IsRead n (suc sector) (p + 512) (read_once sector p m) (omega arith))
          λ m'. extend-IsRead n sector p m m')
