-- ===== src/Vm/Frame.antt =====
-- src/vm/frame.c: the frame table and its clock.
pub mod Clock
pub mod Pages
pub mod Mapping
pub mod Victim
pub mod Evict
pub mod Restore
use gpintosy.Prelude.{
  ℕ, zero, suc, ◌+◌, ◌*◌, Bool, true, false, not, ◌&&◌, ◌||◌, Option, none, some, List, [], ◌∷◌,
  ◌++◌, length, keep, ◌==◌, if◌then◌else◌,
}
use gpintosy.Kernel.{Ptr, null, Result, ok, ◌>>=◌, ◌>>◌, assert, update}
use gpintosy.Vaddr.{pgsize, pg_ofs, pg_round_down, memset}
use gpintosy.Pagedir.{
  Pagedir, pagedir_get_page, pagedir_set_page, pagedir_clear_page, pagedir_is_dirty,
  pagedir_is_accessed, pagedir_set_accessed,
}
use gpintosy.Palloc.{Flags, palloc_get_page, palloc_free_page}
use gpintosy.Swap.{Driver, bytes_at, swap_out}
use gpintosy.Vm.{
  PageType, page_swap, not_loaded, loaded, evicting, is_loaded, is_mmap, is_anonymous, no_slot,
  SptEntry, FrameEntry, Files, Vm, memory, set_memory, set_frame, set_pagedir, set_entry,
}

-- The entry after one in the table; the first after the last.
unfoldable pub next_or_first : List Ptr → List Ptr → Ptr → Option Ptr
next_or_first table [] e = none
next_or_first table (a ∷ []) e = elim table [ [] ↦ none | b ∷ l ↦ some b ]
next_or_first table (a ∷ b ∷ l) e = if a == e then some b else next_or_first table (b ∷ l) e

abbrev pub first_of : List Ptr → Option Ptr
first_of [] = none
first_of (a ∷ l) = some a

abbrev pub or_else : Option Ptr → Ptr → Ptr
or_else none e = e
or_else (some a) e = a

-- The hand, unless the table is empty.
abbrev pub if_any : List Ptr → Option Ptr → Option Ptr
if_any [] hand = none
if_any (a ∷ l) hand = hand

-- The first entry of a table that passes a test.
unfoldable pub find_frame : (Ptr → Bool) → List Ptr → Option Ptr
find_frame p [] = none
find_frame p (a ∷ l) = if p a then some a else find_frame p l

module _ {D F : Type 0} where
  -- Whether the clock may take the frame at all.
  unfoldable pub is_candidate : Vm D F → Ptr → Bool
  is_candidate vm e =
      let f = vm.frames e in
      not f.pinned
      && not (f.owner == null)
      && elim (vm.pagedirs f.owner) [ none ↦ false | some pd ↦ true ]
      && not (f.upage == null)

  abbrev pub is_accessed : Vm D F → Ptr → Ptr → Bool
  is_accessed vm t u = elim (vm.pagedirs t) [ none ↦ false | some pd ↦ pagedir_is_accessed pd u ]

  abbrev pub clear_accessed : Vm D F → Ptr → Ptr → Vm D F
  clear_accessed vm t u = elim (vm.pagedirs t) [
    | none ↦ vm
    | some pd ↦ set_pagedir vm t (pagedir_set_accessed pd u false)
  ]

  -- The loop of the clock, with the rounds left and the hand.
  unfoldable pub scan_clock : ℕ → Ptr → Vm D F → Option Ptr × Vm D F
  scan_clock zero hand vm = (none, record vm { clock_hand = some hand })
  scan_clock (suc n) hand vm =
      let next = or_else (next_or_first vm.frame_table vm.frame_table hand) hand in
      let f = vm.frames hand in
      let u = pg_round_down f.upage in
      let skip = scan_clock n next vm in
      let second_chance = scan_clock n next (clear_accessed vm f.owner u) in
      if not (is_candidate vm hand)
      then skip
      else if is_accessed vm f.owner u
      then second_chance
      else (some hand, record vm { clock_hand = some next })

  unfoldable pub frame_select_victim_clock_locked : Vm D F → Option Ptr × Vm D F
  frame_select_victim_clock_locked vm = elim (vm.frame_table) [
    | [] ↦ (none, vm)
    | first ∷ l ↦
        let hand = or_else vm.clock_hand first in scan_clock (length vm.frame_table * 2) hand vm
  ]

  -- The directory of the owner, if it has one, no longer maps the page.
  unfoldable pub clear_mapping : Vm D F → Ptr → Ptr → Result (Vm D F)
  clear_mapping vm t u = elim (vm.pagedirs t) [
    | none ↦ ok vm
    | some pd ↦ do pd ← pagedir_clear_page pd u; ok (set_pagedir vm t pd)
  ]

  abbrev pub is_dirty : Vm D F → Ptr → Ptr → Bool
  is_dirty vm t u = elim (vm.pagedirs t) [ none ↦ false | some pd ↦ pagedir_is_dirty pd u ]

  -- The mapping that an eviction took away, if the eviction cannot be finished.
  unfoldable pub restore_mapping : Vm D F → Ptr → Ptr → Ptr → Bool → Result (Vm D F)
  restore_mapping vm t u kpage writable = elim (vm.pagedirs t) [
    | none ↦ ok vm
    | some pd ↦ do
      p ← pagedir_get_page pd u
      if not (p == null) then ok vm else do
        (_, pd) ← pagedir_set_page vm.init_ram_pages vm.table_room pd u kpage writable
        ok (set_pagedir vm t pd)
  ]

  module _ (driver : Driver D) (fs : Files F) where
    -- A dirty page of a mapped file is written back.
    unfoldable pub write_back : Bool → SptEntry → Ptr → Vm D F → Vm D F
    write_back dirty e kpage vm =
        if dirty && is_mmap e.type
        then record vm {
          files = fs.write_at vm.files e.file (bytes_at (memory vm) kpage) e.read_bytes e.ofs;
        }
        else vm

    -- The entry and the frame once the page is out.
    unfoldable pub forget_page : Ptr → Ptr → Ptr → SptEntry → Vm D F → Vm D F
    forget_page v t u e vm =
        set_frame (set_entry vm t u (some (record e { state = not_loaded; kpage = null }))) v
          (record (vm.frames v) { owner = null; upage = null })

    -- With a slot the page is in swap; without one the eviction cannot be finished.
    unfoldable pub after_swap :
        Ptr → Ptr → Ptr → SptEntry → Vm D F → Option ℕ → Result (Bool × Vm D F)
    after_swap v t u e vm (some slot) =
        ok (true, forget_page v t u (record e { type = page_swap; swap_slot = slot }) vm)
    after_swap v t u e vm none = do
      let vm = set_entry vm t u (some (record e { state = loaded }))
      vm ← restore_mapping vm t u (vm.frames v).kpage e.writable
      ok (false, vm)

    -- The eviction of a loaded page.
    unfoldable pub evict_loaded : Ptr → Ptr → Ptr → SptEntry → Vm D F → Result (Bool × Vm D F)
    evict_loaded v t u e vm = do
      let kpage = (vm.frames v).kpage
      let dirty = is_dirty vm t u
      let must_swap = is_anonymous e.type || (dirty && not (is_mmap e.type))
      vm ← clear_mapping (set_entry vm t u (some (record e { state = evicting }))) t u
      let vm = write_back dirty e kpage vm
      if must_swap
          then (do
            (slot, swap) ← swap_out driver kpage (memory vm) vm.swap
            after_swap v t u e (record vm { swap = swap }) slot)
          else ok (true, forget_page v t u (record e { swap_slot = no_slot }) vm)

    unfoldable pub frame_evict_page : Ptr → Vm D F → Result (Bool × Vm D F)
    frame_evict_page v vm = do
      let f = vm.frames v
      assert (not (f.owner == null))
      assert (not (f.upage == null))
      assert (not (f.kpage == null))
      assert (pg_ofs f.kpage == 0)
      let u = pg_round_down f.upage
      let vm = set_frame vm v (record f { upage = u })
      elim (vm.spts f.owner u) [
        | none ↦ ok (false, vm)
        | some e ↦
            if is_loaded e.state && (e.kpage == f.kpage)
            then evict_loaded v f.owner u e vm
            else ok (false, vm)
      ]

    -- The victim is pinned, and unpinned again if it cannot be evicted.
    unfoldable pub evict_victim : Option Ptr × Vm D F → Result (Option Ptr × Vm D F)
    evict_victim (none, vm) = ok (none, vm)
    evict_victim (some v, vm) = do
      (done, vm) ← frame_evict_page v (set_frame vm v (record (vm.frames v) { pinned = true }))
      ok (
          if done
          then (some v, vm)
          else (none, set_frame vm v (record (vm.frames v) { pinned = false })))

    unfoldable pub frame_evict : Vm D F → Result (Option Ptr × Vm D F)
    frame_evict vm = evict_victim (frame_select_victim_clock_locked vm)

    -- An evicted frame is used again, with zeros if asked for.
    unfoldable pub reuse_frame : Flags → Ptr → Option Ptr × Vm D F → Option Ptr × Vm D F
    reuse_frame flags upage (none, vm) = (none, vm)
    reuse_frame flags upage (some v, vm) =
        let f = vm.frames v in
        let vm =
          if flags.pal_zero then set_memory vm (memset f.kpage 0 pgsize (memory vm)) else vm in
        (some v, set_frame vm v (record f { owner = vm.cur; upage = upage; pinned = true }))

    -- A page of the user pool gets an entry at the end of the table.
    unfoldable pub add_frame : Ptr → Ptr → Vm D F → Result (Option Ptr × Vm D F)
    add_frame kpage upage vm = elim (vm.spare) [
      | [] ↦ do pools ← palloc_free_page kpage vm.pools; ok (none, record vm { pools = pools })
      | v ∷ l ↦ ok (
        some v,
        record (set_frame vm v
            (record { kpage = kpage; owner = vm.cur; upage = upage; pinned = true })) {
              frame_table = vm.frame_table ++ v ∷ [];
              spare = l;
            },
      )
    ]

    unfoldable pub frame_allocate : Flags → Ptr → Vm D F → Result (Option Ptr × Vm D F)
    frame_allocate flags upage vm = do
      assert flags.pal_user
      let u = if upage == null then null else pg_round_down upage
      (kpage, pools) ← palloc_get_page flags vm.pools
      let vm = record vm { pools = pools }
      if kpage == null
          then (do found ← frame_evict vm; ok (reuse_frame flags u found))
          else add_frame kpage u vm

  unfoldable pub frame_lookup : Ptr → Vm D F → Option Ptr
  frame_lookup kpage vm = find_frame (λ e. (vm.frames e).kpage == kpage) vm.frame_table

  -- The hand moves off a frame that is to go.
  unfoldable pub leave_hand : Vm D F → Ptr → Option Ptr
  leave_hand vm e = elim (vm.clock_hand) [
    | none ↦ none
    | some hand ↦
        if hand == e
        then elim (next_or_first vm.frame_table vm.frame_table e) [
          | none ↦ none
          | some next ↦ if next == e then none else some next
        ]
        else some hand
  ]

  unfoldable pub frame_free : Ptr → Vm D F → Result (Vm D F)
  frame_free kpage vm =
      if kpage == null
      then ok vm
      else elim (find_frame (λ e. ((vm.frames e).kpage == kpage) && ((vm.frames e).owner == vm.cur))
          vm.frame_table) [
            | none ↦ ok vm
            | some e ↦ do
              let table = keep (λ x. not (x == e)) vm.frame_table
              let hand = if_any table (leave_hand vm e)
              pools ← palloc_free_page kpage vm.pools
              ok (record vm { frame_table = table; clock_hand = hand; pools = pools })
          ]

  -- The first frame that passes a test is pinned or unpinned; the answer is whether there was one.
  unfoldable pub pin_first : (FrameEntry → Bool) → Bool → Vm D F → Bool × Vm D F
  pin_first p pinned vm = elim (find_frame (λ e. p (vm.frames e)) vm.frame_table) [
    | none ↦ (false, vm)
    | some e ↦ (true, set_frame vm e (record (vm.frames e) { pinned = pinned }))
  ]

  unfoldable pub frame_pin : Ptr → Vm D F → Result (Vm D F)
  frame_pin kpage vm = do
    assert ((kpage == null) || (pg_ofs kpage == 0))
    ok (pin_first (λ f. f.kpage == kpage) true vm).1

  unfoldable pub frame_unpin : Ptr → Vm D F → Result (Vm D F)
  frame_unpin kpage vm = do
    assert ((kpage == null) || (pg_ofs kpage == 0))
    ok (pin_first (λ f. f.kpage == kpage) false vm).1

  unfoldable pub frame_pin_user_page : Ptr → Ptr → Vm D F → Bool × Vm D F
  frame_pin_user_page owner upage vm =
      let u = pg_round_down upage in
      if (owner == null) || (upage == null)
      then (false, vm)
      else pin_first (λ f. (f.owner == owner) && (f.upage == u)) true vm

  unfoldable pub frame_unpin_user_page : Ptr → Ptr → Vm D F → Vm D F
  frame_unpin_user_page owner upage vm =
      let u = pg_round_down upage in
      if (owner == null) || (upage == null)
      then vm
      else (pin_first (λ f. (f.owner == owner) && (f.upage == u)) false vm).1
