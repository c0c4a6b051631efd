-- ===== src/Swap/Slots.antt =====
-- What the swap slots hold: `swap_out` as an operation on a map from slots to pages.
use gpintosy.Prelude.{
  ℕ, ◌+◌, ◌*◌, ◌^◌, ◌<◌, ◌≤◌, ◌≡◌, ◌≢◌, refl, sym, ap, ◌∙◌, true, false, Option, none, some, arith,
  ◌==◌, ◌⊎◌,
}
use gpintosy.Kernel.{Ptr, null, ◌>>=◌, Succeeds, Succeeds-bind}
use gpintosy.Vaddr.{pg_ofs, Memory}
use gpintosy.Bitmap.{Bitmap, bitmap_scan_and_flip}
use gpintosy.Bitmap.Bits.{bit}
use gpintosy.Bitmap.Ranges.{IsSetTo}
use gpintosy.Bitmap.Scan.{IsFirst, IsFlipped, bitmap_scan_and_flip-IsFlipped}
use gpintosy.Swap.Pages.{IsWritten, write_page-IsWritten}
use gpintosy.Swap.{Driver, Block, Swap, bytes_at, write_slot, swap_out}

module _ {D : Type 0} (driver : Driver D) where
  -- The swap table with a device and a map of its slots.
  abbrev pub swap_of : Block D → Bitmap → Swap D
  swap_of block map = record { device = some block; map = some map; slots = map.bit_cnt }

  -- The device is not a foreign one and has room for the slots.
  pub record IsReady (block : Block D) (map : Bitmap) : Type 0 where
    pub room : map.bit_cnt * 8 ≤ block.size
    pub own : block.foreign ≡ false
    pub small : map.bit_cnt < 2 ^ 32

  -- A slot in use holds a page.
  pub record IsHeld (block : Block D) (map : Bitmap) (slot : ℕ) (page : ℕ → ℕ) : Type 0 where
    pub valid : slot < map.bit_cnt
    pub used : bit map slot ≡ true
    pub content :
        (t i : ℕ) → t < 8 → i < 512 → driver.read block.aux (slot * 8 + t) i ≡ page (t * 512 + i)

  -- What `swap_out` of a page may return: with `none` every slot was in use; else a slot that was
  -- free now holds the page, and what the other slots hold they still hold.
  abbrev pub IsOut : Block D → Bitmap → (ℕ → ℕ) → Option ℕ × Swap D → Type 0
  IsOut block map page (none, s) =
      ((u : ℕ) → u < map.bit_cnt → bit map u ≡ true) × (s ≡ swap_of block map)
  IsOut block map page (some slot, s) =
      (block' : Block D) × (map' : Bitmap) × (s ≡ swap_of block' map')
      × IsReady block' map'
      × (bit map slot ≡ false)
      × IsHeld block' map' slot page
      × ((u : ℕ) (other : ℕ → ℕ) → IsHeld block map u other → IsHeld block' map' u other)

  module _ (block : Block D) (map : Bitmap) (ready : IsReady block map) where
    all_used : IsFirst map 0 1 false none → (u : ℕ) → u < map.bit_cnt → bit map u ≡ true
    all_used f u h =
        let (k, l, n, e) = f u (omega arith) (omega arith) in
        let p : k ≡ u = omega arith in rw (← p) e

    -- A page written to a free slot.
    module _ {slot : ℕ} {map' : Bitmap} (free : bit map slot ≡ false)
        (valid : slot + 1 ≤ map.bit_cnt) (set : IsSetTo map slot 1 true map') {p : Ptr} {m : Memory}
        {block' : Block D} (w : IsWritten driver 8 (slot * 8) p m block block') where
      stored_IsHeld : IsHeld block' map' slot (bytes_at m p)
      stored_IsHeld = record {
        valid = omega (arith, set.same_cnt);
        used = ground (arith, set.bits slot);
        content = λ t i h l. ground (arith, w.written t i h l);
      }

      others_IsHeld :
          (u : ℕ) (other : ℕ → ℕ) → IsHeld block map u other → IsHeld block' map' u other
      others_IsHeld u other held = record {
        valid = omega (arith, set.same_cnt, held.valid);
        used = ground (arith, set.bits u, held.used);
        content = λ t i h l. w.kept (u * 8 + t) i (apart t h) l ∙ held.content t i h l;
      }
        where
          apart : (t : ℕ) → t < 8 → (u * 8 + t < slot * 8) ⊎ (slot * 8 + 8 ≤ u * 8 + t)
          apart t h = ground (arith, held.used)

      stored_IsReady : IsReady block' map'
      stored_IsReady = record {
        room = omega (arith, set.same_cnt, w.size, ready.room);
        own = w.foreign ∙ ready.own;
        small = omega (arith, set.same_cnt, ready.small);
      }

    found_IsOut :
        (kpage : Ptr) (m : Memory) (r : Option ℕ × Bitmap)
        → IsFlipped map 1 false 0 r
        → Succeeds
            (IsOut block map (bytes_at m kpage))
            (write_slot driver kpage m (swap_of block map) block r)
    unfolding write_slot
    found_IsOut kpage m (none, map') (f, e) =
        (all_used f, ap (λ x. record { device = some block; map = some x; slots = map.bit_cnt }) e)
    found_IsOut kpage m (some slot, map') (f, set) =
        let free : bit map slot ≡ false = f.2 slot (omega arith) (omega arith) in
        Succeeds-bind (IsWritten driver 8 (slot * 8) kpage m block)
          (IsOut block map (bytes_at m kpage)) _ _
          (write_page-IsWritten driver m 8 (slot * 8) kpage block (omega (arith, f.1, ready.room))
            ready.own)
          λ block' w. (
            block',
            map',
            ap (λ n. record { device = some block'; map = some map'; slots = n })
                (sym set.same_cnt),
            stored_IsReady free f.1 set w,
            free,
            stored_IsHeld free f.1 set w,
            others_IsHeld free f.1 set w,
          )

    swap_out-found :
        (kpage : Ptr) (m : Memory)
        → kpage ≢ null
        → pg_ofs kpage ≡ 0
        → swap_out driver kpage m (swap_of block map) ≡ (
            bitmap_scan_and_flip map 0 1 false
            >>= write_slot driver kpage m (swap_of block map) block)
    unfolding swap_out
    swap_out-found kpage m n o = let e : (kpage == null) ≡ false = ground arith in rw (e, o) refl

    -- With a swap device that has room for its slots, `swap_out` of a page fails no assertion. It
    -- answers false only if every slot is in use, and then changes nothing; else the page is held
    -- by a slot that was free, and the other slots hold what they held.
    pub swap_out-IsOut :
        (kpage : Ptr) (m : Memory)
        → kpage ≢ null
        → pg_ofs kpage ≡ 0
        → Succeeds
            (IsOut block map (bytes_at m kpage))
            (swap_out driver kpage m (swap_of block map))
    swap_out-IsOut kpage m n o = rw (swap_out-found kpage m n o) (
        Succeeds-bind (IsFlipped map 1 false 0) (IsOut block map (bytes_at m kpage)) _ _
          (bitmap_scan_and_flip-IsFlipped map 1 false 0 (omega arith) ready.small)
          λ r f. found_IsOut kpage m r f)
