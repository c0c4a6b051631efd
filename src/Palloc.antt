-- ===== src/Palloc.antt =====
-- src/threads/palloc.c: the two pools of pages.
--
-- A pool's lock makes a search of its map one step and is left out. The map is a value, though its
-- bits lie in memory right before the pool's first page.
pub mod Get
use gpintosy.Prelude.{
  ℕ, ◌+◌, ◌-◌, ◌*◌, ◌/◌, ◌%◌, ◌^◌, Bool, true, false, not, ◌&&◌, Option, none, some, ltb, leb, ◌==◌,
  if◌then◌else◌,
}
use gpintosy.Kernel.{Ptr, null, Result, ok, panic, ◌>>=◌, ◌>>◌, assert}
use gpintosy.Vaddr.{pgsize, pg_ofs, pg_no, ptov, Memory, memset}
use gpintosy.Bitmap.{Bitmap, bitmap_set_all, bitmap_set_multiple, bitmap_all, bitmap_scan_and_flip}

-- `struct pool`, less its lock
pub record Pool : Type 0 where
  pub used_map : Bitmap
  pub base : Ptr

-- `enum palloc_flags`
pub record Flags : Type 0 where
  pub pal_assert : Bool
  pub pal_zero : Bool
  pub pal_user : Bool

-- The static variables, and memory.
pub record Pools : Type 0 where
  pub kernel_pool : Pool
  pub user_pool : Pool
  pub memory : Memory

abbrev pub pool_of : Bool → Pools → Pool
pool_of user p = if user then p.user_pool else p.kernel_pool

abbrev pub set_pool : Bool → Pool → Pools → Pools
set_pool user pool p =
    if user then record p { user_pool = pool } else record p { kernel_pool = pool }

-- The address of the pages found; NULL if there are none.
abbrev pub pages_at : Pool → Option ℕ → Ptr
pages_at pool none = null
pages_at pool (some page_idx) = (pool.base + pgsize * page_idx) % 2 ^ 32

-- What is left once the map has been searched.
unfoldable pub fill_pages : Flags → ℕ → Ptr → Pools → Result (Ptr × Pools)
fill_pages flags page_cnt pages p =
    if pages == null
    then (if flags.pal_assert then panic else ok (pages, p))
    else ok (
      pages,
      (if flags.pal_zero
          then record p { memory = memset pages 0 (pgsize * page_cnt) p.memory }
          else p),
    )

unfoldable pub palloc_get_multiple : Flags → ℕ → Pools → Result (Ptr × Pools)
palloc_get_multiple flags page_cnt p =
    let pool = pool_of flags.pal_user p in
    if page_cnt == 0 then ok (null, p) else do
      (page_idx, used_map) ← bitmap_scan_and_flip pool.used_map 0 page_cnt false
      let p = set_pool flags.pal_user (record pool { used_map = used_map }) p
      fill_pages flags page_cnt (pages_at pool page_idx) p

unfoldable pub palloc_get_page : Flags → Pools → Result (Ptr × Pools)
palloc_get_page flags p = palloc_get_multiple flags 1 p

unfoldable pub page_from_pool : Pool → Ptr → Bool
page_from_pool pool page =
    let page_no = pg_no page in
    let start_page = pg_no pool.base in
    let end_page = start_page + pool.used_map.bit_cnt in
    leb start_page page_no && ltb page_no end_page

-- Gives pages back to a pool.
unfoldable pub free_to : Bool → Ptr → ℕ → Pools → Result Pools
free_to user pages page_cnt p = do
  let pool = pool_of user p
  let page_idx = pg_no pages - pg_no pool.base
  let p = record p { memory = memset pages 204 (pgsize * page_cnt) p.memory }
  used ← bitmap_all pool.used_map page_idx page_cnt
  assert used
  used_map ← bitmap_set_multiple pool.used_map page_idx page_cnt false
  ok (set_pool user (record pool { used_map = used_map }) p)

unfoldable pub palloc_free_multiple : Ptr → ℕ → Pools → Result Pools
palloc_free_multiple pages page_cnt p = do
  assert (pg_ofs pages == 0)
  if pages == null
      then ok p
      else if page_cnt == 0
      then ok p
      else if page_from_pool p.kernel_pool pages
      then free_to false pages page_cnt p
      else if page_from_pool p.user_pool pages
      then free_to true pages page_cnt p
      else panic

unfoldable pub palloc_free_page : Ptr → Pools → Result Pools
palloc_free_page page p = palloc_free_multiple page 1 p

-- `bitmap_buf_size`: a `struct bitmap` of 8 bytes, and the words.
unfoldable pub bitmap_buf_size : ℕ → ℕ
bitmap_buf_size bit_cnt = 8 + 4 * ((bit_cnt + 31) / 32)

-- The map takes the first pages of the pool; all others are free.
unfoldable pub init_pool : Ptr → ℕ → Result Pool
init_pool base page_cnt = do
  let bm_pages = (bitmap_buf_size page_cnt + pgsize - 1) / pgsize
  assert (leb bm_pages page_cnt)
  let page_cnt = page_cnt - bm_pages
  used_map ← bitmap_set_all (record { bit_cnt = page_cnt; bits = λ w j. false }) false
  ok (record { used_map = used_map; base = base + bm_pages * pgsize })

-- Free memory runs from 1 MB to the end of the RAM of `init_ram_pages` pages.
unfoldable pub palloc_init : ℕ → ℕ → Memory → Result Pools
palloc_init init_ram_pages user_page_limit m = do
  free_start ← ptov (1024 * 1024)
  free_end ← ptov (init_ram_pages * pgsize)
  let free_pages = (free_end - free_start) / pgsize
  let half = free_pages / 2
  let user_pages = if ltb user_page_limit half then user_page_limit else half
  let kernel_pages = free_pages - user_pages
  kernel_pool ← init_pool free_start kernel_pages
  user_pool ← init_pool (free_start + kernel_pages * pgsize) user_pages
  ok (record { kernel_pool = kernel_pool; user_pool = user_pool; memory = m })
