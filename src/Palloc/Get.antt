-- ===== src/Palloc/Get.antt =====
-- What the page allocator hands out.
use gpintosy.Prelude.{
  ℕ, zero, suc, ◌+◌, ◌*◌, ◌%◌, ◌^◌, ◌≡◌, ◌≢◌, ◌≤◌, refl, Bool, true, false, not, ◌&&◌, Option, none,
  some, ◌⊎◌, inl, inr, arith, ltb, leb, ◌==◌, if◌then◌else◌,
}
use gpintosy.Kernel.{Ptr, null, Succeeds, Succeeds-bind, update}
use gpintosy.Vaddr.{pgsize, Memory, memset}
use gpintosy.Bitmap.{Bitmap}
use gpintosy.Bitmap.Ranges.{IsSetTo, AllAre, SomeIs}
use gpintosy.Bitmap.Scan.{IsFirst, IsFlipped, bitmap_scan_and_flip-IsFlipped}
use gpintosy.Palloc.{
  Pool, Flags, Pools, pool_of, set_pool, pages_at, fill_pages, palloc_get_multiple,
}

pub memset-byte :
    (dst value n : ℕ) (m : Memory) (a : Ptr)
    → memset dst value n m a ≡ (if leb dst a && ltb a (dst + n) then value else m a)
unfolding memset
memset-byte dst value zero m a = ground arith
memset-byte dst value (suc n) m a =
    ground (arith, memset-byte (suc dst) value n (update m dst value) a)

-- The pages of a pool lie in the address space, and none of them at NULL.
pub record IsPool (pool : Pool) : Type 0 where
  pub some_base : pool.base ≢ null
  pub room : pool.base + pgsize * pool.used_map.bit_cnt ≤ 2 ^ 32

-- Pages that were free before and are used after; no other page changes hands. Asked for zeros,
-- they hold zeros, and no other byte of memory changes.
pub record IsGot (user clear : Bool) (cnt : ℕ) (p : Pools) (pages : Ptr) (p' : Pools) : Type 0 where
  pub index : ℕ
  pub address : pages ≡ (pool_of user p).base + pgsize * index
  pub inside : index + cnt ≤ (pool_of user p).used_map.bit_cnt
  pub free : AllAre (pool_of user p).used_map index cnt false
  pub taken : IsSetTo (pool_of user p).used_map index cnt true (pool_of user p').used_map
  pub base : (pool_of user p').base ≡ (pool_of user p).base
  pub other : pool_of (not user) p' ≡ pool_of (not user) p
  pub bytes :
      (a : Ptr)
      → p'.memory a
        ≡ (if clear && leb pages a && ltb a (pages + pgsize * cnt) then 0 else p.memory a)

-- The pool has no group of so many free pages.
abbrev pub NoRoom : Bool → ℕ → Pools → Type 0
NoRoom user cnt p =
    (i : ℕ)
    → i + cnt ≤ (pool_of user p).used_map.bit_cnt
    → SomeIs (pool_of user p).used_map i cnt true

-- What `palloc_get_multiple` returns: NULL if the pool has no room, or pages that were free.
abbrev pub Gets : Bool → Bool → ℕ → Pools → Ptr × Pools → Type 0
Gets user clear cnt p (pages, p') =
    ((pages ≡ null) × NoRoom user cnt p) ⊎ ((pages ≢ null) × IsGot user clear cnt p pages p')

module _ (clear : Bool) (cnt : ℕ) (p : Pools) where
  abbrev flags : Bool → Flags
  flags user = record { pal_assert = false; pal_zero = clear; pal_user = user }

  abbrev with_map : Bool → Bitmap → Pools
  with_map user map = set_pool user (record (pool_of user p) { used_map = map }) p

  found_IsGot :
      (user : Bool) (i : ℕ) (map : Bitmap) (pages : Ptr)
      → pages ≡ (pool_of user p).base + pgsize * i
      → IsFirst (pool_of user p).used_map 0 cnt false (some i)
      → IsSetTo (pool_of user p).used_map i cnt true map
      → (p' : Pools) → pool_of user p' ≡ record (pool_of user p) { used_map = map }
      → pool_of (not user) p' ≡ pool_of (not user) p
      → ((a : Ptr)
          → p'.memory a
            ≡ (if clear && leb pages a && ltb a (pages + pgsize * cnt) then 0 else p.memory a))
      → IsGot user clear cnt p pages p'
  found_IsGot user i map pages e f s p' same other bytes = record {
    index = i;
    address = e;
    inside = f.1;
    free = f.2;
    taken = rw same s;
    base = rw same refl;
    other = other;
    bytes = bytes;
  }

  -- The pools and memory once the pages are filled.
  abbrev filled : Bool → Bitmap → Ptr → Pools
  filled user map pages =
      let q = with_map user map in
      if clear then record q { memory = memset pages 0 (pgsize * cnt) q.memory } else q

  filled_pool :
      (user : Bool) (map : Bitmap) (pages : Ptr)
      → pool_of user (filled user map pages) ≡ record (pool_of user p) { used_map = map }
  filled_pool user map pages = ground arith

  filled_other :
      (user : Bool) (map : Bitmap) (pages : Ptr)
      → pool_of (not user) (filled user map pages) ≡ pool_of (not user) p
  filled_other user map pages = ground arith

  filled_bytes :
      (user : Bool) (map : Bitmap) (pages a : Ptr)
      → (filled user map pages).memory a
        ≡ (if clear && leb pages a && ltb a (pages + pgsize * cnt) then 0 else p.memory a)
  filled_bytes user map pages a =
      ground (arith, memset-byte pages 0 (pgsize * cnt) (with_map user map).memory a)

  fill_Gets :
      (user : Bool) (r : Option ℕ × Bitmap)
      → IsPool (pool_of user p)
      → cnt ≢ 0
      → IsFlipped (pool_of user p).used_map cnt false 0 r
      → Succeeds
          (Gets user clear cnt p)
          (fill_pages (flags user) cnt (pages_at (pool_of user p) r.0) (with_map user r.1))
  unfolding fill_pages
  fill_Gets user (none, map) wf c (f, e) = inl (refl, λ i h. f i (omega arith) h)
  fill_Gets user (some i, map) wf c (f, s) =
      let pool = pool_of user p in
      let pages = (pool.base + pgsize * i) % 2 ^ 32 in
      let e : pages ≡ pool.base + pgsize * i = omega (arith, wf.room, f.1, c) in
      let ne : pages ≢ null = ground (arith, e, wf.some_base) in
      let nn : (pages == null) ≡ false = ground (arith, ne) in
      rw nn (
        inr (
          ne,
          found_IsGot user i map pages e f s _ (filled_pool user map pages)
              (filled_other user map pages) (filled_bytes user map pages),
        ))

  -- Without PAL_ASSERT, `palloc_get_multiple` of one page or more succeeds.
  -- It returns NULL only if the pool has no group of so many free pages; else the pages were free,
  -- are now used, hold zeros if asked for, and nothing else of the pools or of memory changes. The
  -- pool must lie in the address space, and not at NULL.
  pub palloc_get_multiple-Gets :
      (user : Bool)
      → IsPool (pool_of user p)
      → cnt ≢ 0
      → Succeeds (Gets user clear cnt p) (palloc_get_multiple (flags user) cnt p)
  unfolding palloc_get_multiple
  palloc_get_multiple-Gets user wf c =
      let nz : (cnt == 0) ≡ false = ground arith in
      rw nz (
        Succeeds-bind (IsFlipped (pool_of user p).used_map cnt false 0) (Gets user clear cnt p) _ _
          (bitmap_scan_and_flip-IsFlipped (pool_of user p).used_map cnt false 0 (omega arith)
            (omega (arith, wf.room)))
          λ r f. fill_Gets user r wf c f)
