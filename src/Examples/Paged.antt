-- ===== src/Examples/Paged.antt =====
-- The theorems on user pages at a process 7 with the page 4096, and the frames 500 and 600. The
-- page has the slot 0 of the swap table, or it is loaded in the frame 500.
use mathlib.Core.Bool.{false≢true}
use gpintosy.Prelude.{
  ap, ◌∙◌, ℕ, ◌+◌, ◌-◌, ◌%◌, ◌≡◌, ◌<◌, refl, true, false, Bool, not, arith, ◌==◌, leb, ltb, ◌&&◌,
  if◌then◌else◌, some, none, [], ◌∷◌, inl, inr,
}
use gpintosy.Prelude.Int.{negsuc}
use gpintosy.Kernel.{Ptr, ok, Succeeds}
use gpintosy.Vaddr.{pg_ofs, pg_no, pg_round_down}
use gpintosy.Pagedir.{zero_pte, Pagedir, pagedir_set_page}
use gpintosy.Pagedir.Map.{entry, IsMapped, pagedir_set_page-IsMapped}
use gpintosy.Vm.{PageType, page_zero, page_swap, PageState, loaded, not_loaded, SptEntry, Files, Vm}
use gpintosy.Vm.Frame.{
  is_candidate, is_dirty, after_swap, frame_evict_page, frame_select_victim_clock_locked,
}
use gpintosy.Vm.Frame.Clock.{frame_select_victim-IsTaken}
use gpintosy.Vm.Frame.Victim.{IsVictim, IsKept}
use gpintosy.Vm.Frame.Restore.{after_swap-clean}
use gpintosy.Vm.Frame.Evict.{frame_evict_page-IsKept}
use gpintosy.Vm.Load.{without_slot, load_into, page_fault}
use gpintosy.Vm.Load.Install.{IsReadyFor, IsLoadedIn, load_into-IsLoadedIn}
use gpintosy.Vm.Load.Access.{MayLoad, refused, page_fault-refused}
use gpintosy.Swap.Slots.{swap_of}
use gpintosy.Examples.Swapped.{Disk, disk, block, map, map-IsReady, page, first-IsHeld}

abbrev Store : Type 0
Store = Ptr → ℕ → ℕ

abbrev store : Store → Ptr → (ℕ → ℕ) → ℕ → ℕ → Store
store f file c size ofs =
    λ p j. if (p == file) && leb ofs j && ltb j (ofs + size) then c (j - ofs) else f p j

abbrev files : Files Store
files = record { read_at = λ f file size ofs. (size, λ i. f file (ofs + i)); write_at = store }

abbrev pd : Bool → Pagedir
pd present = record {
  tables = λ n. present;
  ptes = λ i.
      if i == 1
      then record {
        present = present;
        page = 3221233664;
        writable = true;
        dirty = true;
        accessed = true;
      }
      else zero_pte;
}

abbrev entry_of : PageType → PageState → SptEntry
entry_of type state = record {
  upage = 4096;
  writable = true;
  type = type;
  state = state;
  file = 800;
  ofs = 0;
  read_bytes = 4096;
  zero_bytes = 0;
  swap_slot = 0;
  kpage = 3221233664;
  md = negsuc 0;
}

abbrev vm : Bool → SptEntry → Vm Disk Store
vm present e = record {
  cur = 7;
  spts = λ t u. if (t == 7) && (u == 4096) then some e else none;
  pagedirs = λ t. if t == 7 then some (pd present) else none;
  frames = λ f. record {
    kpage = if f == 500 then 3221233664 else 3221237760;
    owner = 7;
    upage = if f == 500 then 4096 else 8192;
    pinned = not (f == 500);
  };
  frame_table = 600 ∷ 500 ∷ [];
  clock_hand = none;
  pools = record {
    kernel_pool = record { used_map = record { bit_cnt = 4; bits = λ w j. j == 0 }; base = 8192 };
    user_pool = record { used_map = record { bit_cnt = 4; bits = λ w j. true }; base = 24576 };
    memory = λ a. a % 256;
  };
  swap = swap_of disk block map;
  files = λ file j. j % 7;
  init_ram_pages = 1024;
  spare = [];
  table_room = true;
}

abbrev swapped : SptEntry
swapped = entry_of page_swap not_loaded

abbrev resident : SptEntry
resident = entry_of page_zero loaded

page_start : pg_ofs 4096 ≡ 0
unfolding pg_ofs
page_start = refl

frame_start : pg_ofs 3221233664 ≡ 0
unfolding pg_ofs
frame_start = refl

in_ram : pg_no 8192 < 1024
unfolding pg_no
in_ram = omega arith

vm-IsReadyFor : IsReadyFor disk files (vm false swapped) 4096 3221233664 (pd false)
unfolding entry
vm-IsReadyFor = record {
  table = refl;
  page = page_start;
  user = omega arith;
  unmapped = refl;
  aligned = frame_start;
  kernel = omega arith;
  ram = in_ram;
  room = refl;
}

load_into-IsLoadedIn_example :
    Succeeds
      (IsLoadedIn disk files
        (vm false swapped)
        4096
        3221233664
        (without_slot disk files swapped)
        (pd false)
        page)
      (load_into disk files 4096 swapped (some 500, vm false swapped))
load_into-IsLoadedIn_example =
    load_into-IsLoadedIn disk files (vm false swapped) 4096 500 swapped (pd false) page block map
      vm-IsReadyFor refl map-IsReady first-IsHeld

resident-IsVictim :
    IsVictim disk files (vm true resident) ((vm true resident).frames 500) resident block map
resident-IsVictim = record {
  owned = ground arith;
  used = ground arith;
  aligned = frame_start;
  kernel = omega arith;
  ram = in_ram;
  page = page_start;
  user = omega arith;
  listed = refl;
  resident = refl;
  same = refl;
  table = refl;
  ready = map-IsReady;
  clean = λ a d. absurd (ground arith);
}

frame_evict_page-IsKept_example :
    Succeeds
      (λ x.
        IsKept disk files
          (vm true resident)
          7
          4096
          3221233664
          (is_dirty (vm true resident) 7 4096 && false)
          (λ file j. j % 7)
          x.1)
      (frame_evict_page disk files 500 (vm true resident))
unfolding gpintosy.Pagedir.pagedir_is_dirty pg_no
frame_evict_page-IsKept_example =
    frame_evict_page-IsKept disk files (vm true resident) 500 resident block map resident-IsVictim

frame_select_victim-IsTaken_example :
    (v : Ptr) × ((frame_select_victim_clock_locked (vm true resident)).0 ≡ some v)
    × (is_candidate (vm true resident) v ≡ true)
unfolding is_candidate
frame_select_victim-IsTaken_example =
    frame_select_victim-IsTaken (vm true resident) (λ x. ground arith) 500 (omega arith) refl 600
      (omega arith) refl

not_allowed : MayLoad true true 4100 4096 (vm true (record resident { writable = false })) → ⊥
unfolding pg_round_down
not_allowed (p, u, inl (e, s, r)) =
    absurd (
      false≢true (ap (λ o. elim o as (λ x. Bool) [ none ↦ true | some x ↦ x.writable ]) s ∙ r refl))
not_allowed (p, u, inr (s, a)) = absurd (ground (arith, s))

page_fault-refused_example :
    page_fault disk files true true true true 4100 4096
      (vm true (record resident { writable = false }))
    ≡ ok (refused true, vm true (record resident { writable = false }))
page_fault-refused_example =
    page_fault-refused disk files true true true true 4100 4096
      (vm true (record resident { writable = false })) (pd true) refl (omega arith) not_allowed

pagedir_set_page-IsMapped_example :
    Succeeds
      (IsMapped true (pd false) 4096 3221233664 true)
      (pagedir_set_page 1024 true (pd false) 4096 3221233664 true)
unfolding entry
pagedir_set_page-IsMapped_example =
    pagedir_set_page-IsMapped 1024 true (pd false) 4096 3221233664 true page_start frame_start
      (omega arith) (omega arith) in_ram refl

after_swap-clean_example :
    Succeeds
      (λ x. (x.0 ≡ false) × (is_dirty x.1 7 4096 ≡ false))
      (after_swap disk files 500 7 4096 resident (vm false resident) none)
unfolding entry
after_swap-clean_example =
    after_swap-clean disk files (vm false resident) 500 7 4096 (pd false) page_start (omega arith)
      frame_start (omega arith) in_ram refl refl resident
