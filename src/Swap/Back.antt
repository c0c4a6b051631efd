-- ===== src/Swap/Back.antt =====
-- `swap_in` gives back the page that a slot holds.
use gpintosy.Prelude.{
  ℕ, ◌+◌, ◌*◌, ◌/◌, ◌%◌, ◌<◌, ◌≤◌, ◌≡◌, ◌≢◌, refl, Bool, true, false, arith, ltb, ◌==◌, ◌⊎◌,
}
use gpintosy.Kernel.{Ptr, null, ok, ◌>>=◌, Succeeds, Succeeds-bind}
use gpintosy.Vaddr.{pg_ofs, Memory}
use gpintosy.Bitmap.{Bitmap, bitmap_reset}
use gpintosy.Bitmap.Bits.{bit, bitmap_test-bit, bit-reset}
use gpintosy.Swap.Slots.{swap_of, IsReady, IsHeld}
use gpintosy.Swap.Pages.{IsRead, read_page-IsRead}
use gpintosy.Swap.{Driver, Block, Swap, read_page, read_slot, swap_in}

module _ {D : Type 0} (driver : Driver D) where
  -- What `swap_in` of a slot that holds `page` returns: memory has the page at `p` and is
  -- otherwise the same, the slot is free, and the other slots hold what they held.
  pub record IsIn (block : Block D) (map : Bitmap) (slot : ℕ) (page : ℕ → ℕ) (p : Ptr) (m : Memory)
      (r : Bool × Memory × Swap D) : Type 0 where
    pub done : r.0 ≡ true
    pub back : (i : ℕ) → i < 4096 → r.1 (p + i) ≡ page i
    pub rest : (a : Ptr) → (a < p) ⊎ (p + 4096 ≤ a) → r.1 a ≡ m a
    pub same : r.2 ≡ swap_of driver block (bitmap_reset map slot)
    pub free : bit (bitmap_reset map slot) slot ≡ false
    pub others :
        (u : ℕ) (other : ℕ → ℕ)
        → u ≢ slot
        → IsHeld driver block map u other
        → IsHeld driver block (bitmap_reset map slot) u other

  module _ (block : Block D) (map : Bitmap) (slot : ℕ) (page : ℕ → ℕ)
      (ready : IsReady driver block map) (held : IsHeld driver block map slot page) where
    reset-cnt : (bitmap_reset map slot).bit_cnt ≡ map.bit_cnt
    unfolding bitmap_reset
    reset-cnt = refl

    keeps_others :
        (u : ℕ) (other : ℕ → ℕ)
        → u ≢ slot
        → IsHeld driver block map u other
        → IsHeld driver block (bitmap_reset map slot) u other
    keeps_others u other ne h = record {
      valid = rw reset-cnt h.valid;
      used = ground (arith, bit-reset map slot u, h.used);
      content = h.content;
    }

    read_IsIn :
        (p : Ptr) (m m' : Memory)
        → IsRead driver 8 (slot * 8) p block m m'
        → IsIn block map slot page p m (true, m', swap_of driver block (bitmap_reset map slot))
    read_IsIn p m m' r = record {
      done = refl;
      back = λ i h. grind (arith, r.got (i / 512) (i % 512), held.content (i / 512) (i % 512));
      rest = λ a h. r.kept a (ground arith);
      same = refl;
      free = ground (arith, bit-reset map slot slot);
      others = keeps_others;
    }

    swap_in-read :
        (p : Ptr) (m : Memory)
        → p ≢ null
        → pg_ofs p ≡ 0
        → swap_in driver slot p m (swap_of driver block map) ≡ (
            read_page driver 8 (slot * 8) p block m >>= λ m'.
            ok (true, m', swap_of driver block (bitmap_reset map slot)))
    unfolding swap_in read_slot bitmap_reset
    swap_in-read p m n o =
        let e : (p == null) ≡ false = ground arith in
        let v : ltb slot map.bit_cnt ≡ true = ground (arith, held.valid) in
        rw (e, o, v, bitmap_test-bit map slot held.valid, held.used) refl

    -- With a swap device that has room for its slots, `swap_in` of a slot that holds a page fails no
    -- assertion and answers true. Memory then has that page, and is otherwise unchanged; the slot
    -- is free, and the other slots hold what they held.
    pub swap_in-IsIn :
        (p : Ptr) (m : Memory)
        → p ≢ null
        → pg_ofs p ≡ 0
        → Succeeds
            (IsIn block map slot page p m)
            (swap_in driver slot p m (swap_of driver block map))
    swap_in-IsIn p m n o = rw (swap_in-read p m n o) (
        Succeeds-bind (IsRead driver 8 (slot * 8) p block m) (IsIn block map slot page p m) _ _
          (read_page-IsRead driver block 8 (slot * 8) p m (omega (arith, held.valid, ready.room)))
          λ m' r. read_IsIn p m m' r)
