-- ===== src/Vm/Load/Fill.antt =====
-- What a frame holds after a page was read into it.
use mathlib.Core.Path.{subst}
use gpintosy.Prelude.{ℕ, ◌+◌, ◌≡◌, ◌≢◌, ◌≤◌, ◌<◌, refl, sym, Bool, true, ◌⊎◌, arith, ◌==◌}
use gpintosy.Kernel.{Ptr, null, Succeeds, Succeeds-bind}
use gpintosy.Vaddr.{put_bytes, pgsize, pg_ofs, memset, Memory}
use gpintosy.Bitmap.{Bitmap}
use gpintosy.Palloc.Get.{memset-byte}
use gpintosy.Swap.{Driver, Block, Swap, swap_in}
use gpintosy.Swap.Slots.{swap_of, IsReady, IsHeld}
use gpintosy.Swap.Back.{IsIn, swap_in-IsIn}
use gpintosy.Vm.{
  PageType, page_file, page_zero, page_swap, page_mmap, SptEntry, Files, Vm, memory, set_memory,
}
use gpintosy.Vm.Frame.Pages.{HasSlot, IsInFile, IsInSwap, IsBackedAs}
use gpintosy.Vm.Load.{read_page_of_file, fill_page}

module _ {D F : Type 0} (driver : Driver D) (fs : Files F) where
  -- The frame holds the bytes of the page, and the rest of memory is the same. Nothing but memory
  -- and the swap table has changed, and the slots of other pages hold what they held.
  pub record IsFilled (vm : Vm D F) (e : SptEntry) (c : ℕ → ℕ) (kpage : Ptr) (r : Bool × Vm D F)
      : Type 0 where
    pub done : r.0 ≡ true
    pub holds : (i : ℕ) → i < 4096 → memory r.1 (kpage + i) ≡ c i
    pub rest : (a : Ptr) → (a < kpage) ⊎ (kpage + 4096 ≤ a) → memory r.1 a ≡ memory vm a
    pub only : r.1 ≡ set_memory (record vm { swap = r.1.swap }) (memory r.1)
    pub slots :
        (e' : SptEntry) (c' : ℕ → ℕ)
        → e'.swap_slot ≢ e.swap_slot
        → IsInSwap driver fs vm e' c'
        → IsInSwap driver fs r.1 e' c'

  module _ (vm : Vm D F) (e : SptEntry) (c : ℕ → ℕ) (kpage : Ptr) where
    -- Memory with the file's bytes in the frame, and zeros behind them.
    abbrev with_file : Memory
    with_file =
        let read = fs.read_at vm.files e.file e.read_bytes e.ofs in
        memset (kpage + e.read_bytes) 0 e.zero_bytes
          (put_bytes (memory vm) kpage e.read_bytes read.1)

    read_page-whole :
        IsInFile driver fs vm e c
        → read_page_of_file driver fs e kpage vm ≡ (true, set_memory vm with_file)
    unfolding read_page_of_file
    read_page-whole h =
        let w : ((fs.read_at vm.files e.file e.read_bytes e.ofs).0 == e.read_bytes) ≡ true =
          ground (arith, h.whole) in
        rw (w, h.whole) refl

    file_page-IsFilled :
        IsInFile driver fs vm e c → IsFilled vm e c kpage (true, set_memory vm with_file)
    file_page-IsFilled h =
        let read = fs.read_at vm.files e.file e.read_bytes e.ofs in
        let m = put_bytes (memory vm) kpage e.read_bytes read.1 in
        record {
          done = refl;
          holds = λ i l.
              rw (memset-byte (kpage + e.read_bytes) 0 e.zero_bytes m (kpage + i))
                (ground (arith, h.page, h.bytes i l));
          rest = λ a l.
              rw (memset-byte (kpage + e.read_bytes) 0 e.zero_bytes m a) (ground (arith, h.page));
          only = refl;
          slots = λ e' c' n s. s;
        }

    zero_page-IsFilled :
        ((i : ℕ) → i < 4096 → c i ≡ 0)
        → IsFilled vm e c kpage (true, set_memory vm (memset kpage 0 pgsize (memory vm)))
    zero_page-IsFilled h = record {
      done = refl;
      holds =
          λ i l. rw (memset-byte kpage 0 pgsize (memory vm) (kpage + i)) (ground (arith, h i l));
      rest = λ a l. rw (memset-byte kpage 0 pgsize (memory vm) a) (ground arith);
      only = refl;
      slots = λ e' c' n s. s;
    }

    module _ (block : Block D) (map : Bitmap) (table : vm.swap ≡ swap_of driver block map)
        (ready : IsReady driver block map) where
      swap_page-IsFilled :
          IsHeld driver block map e.swap_slot c
          → (r : Bool × Memory × Swap D) → IsIn driver block map e.swap_slot c kpage (memory vm) r
          → IsFilled vm e c kpage (r.0, set_memory (record vm { swap = r.2 }) r.1)
      swap_page-IsFilled h r i = record {
        done = i.done;
        holds = i.back;
        rest = i.rest;
        only = refl;
        slots = λ e' c' n. rw (table, i.same) (i.others e'.swap_slot c' n);
      }

      -- A page that is in its file, in swap or all zeros is read into the frame without a failed
      -- assertion: the frame holds its bytes then, and the other bytes of memory are the same.
      pub fill_page-IsFilled :
          kpage ≢ null
          → pg_ofs kpage ≡ 0
          → (p : PageType) → IsBackedAs driver fs p vm e c
          → Succeeds (IsFilled vm e c kpage) (fill_page driver fs p e kpage vm)
      unfolding fill_page
      fill_page-IsFilled n o page_file b = rw (read_page-whole b) (file_page-IsFilled b)
      fill_page-IsFilled n o page_mmap b = rw (read_page-whole b) (file_page-IsFilled b)
      fill_page-IsFilled n o page_zero b = zero_page-IsFilled b
      fill_page-IsFilled n o page_swap b =
          let held : IsHeld driver block map e.swap_slot c =
            subst (λ s. HasSlot driver fs s.device s.map e.swap_slot c) table b in
          Succeeds-bind (IsIn driver block map e.swap_slot c kpage (memory vm))
            (IsFilled vm e c kpage) _ _
            (subst
              (λ s.
                Succeeds (IsIn driver block map e.swap_slot c kpage (memory vm))
                  (swap_in driver e.swap_slot kpage (memory vm) s))
              (sym table)
              (swap_in-IsIn driver block map e.swap_slot c ready held kpage (memory vm) n o))
            (swap_page-IsFilled held)
