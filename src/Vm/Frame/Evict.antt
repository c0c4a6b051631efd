-- ===== src/Vm/Frame/Evict.antt =====
-- src/vm/frame.c: `frame_evict_page`, from a loaded page to its frame being empty.
use gpintosy.Prelude.{
  ℕ, ◌%◌, ◌≡◌, refl, sym, Bool, true, false, not, ◌&&◌, ◌||◌, Option, none, some, inl, inr, arith,
  ◌==◌, if◌then◌else◌, Bool-cases,
}
use mathlib.Core.Path.{subst}
use gpintosy.Kernel.{Ptr, null, Result, ok, ◌>>=◌, Succeeds, Succeeds-bind, Succeeds-mono}
use gpintosy.Vaddr.{pg_ofs, pg_round_down}
use gpintosy.Bitmap.{Bitmap}
use gpintosy.Pagedir.{Pagedir}
use gpintosy.Pagedir.Map.{entry}
use gpintosy.Swap.{Driver, Block, Swap, bytes_at, swap_out}
use gpintosy.Swap.Slots.{swap_of, IsOut, swap_out-IsOut}
use gpintosy.Vm.{
  PageType, page_file, page_zero, page_swap, page_mmap, loaded, no_slot, evicting, is_loaded,
  is_mmap, is_anonymous, SptEntry, FrameEntry, Files, Vm, memory, set_frame, set_entry,
}
use gpintosy.Vm.Frame.{
  is_dirty, clear_mapping, write_back, forget_page, after_swap, evict_loaded, frame_evict_page,
}
use gpintosy.Vm.Frame.Pages.{Contents-same}
use gpintosy.Vm.Frame.Mapping.{
  IsUnmapped, clear_mapping-IsUnmapped, OnlyPagedirs, restore_mapping-OnlyPagedirs,
}
use gpintosy.Vm.Frame.Victim
use gpintosy.Vm.Frame.Victim.{IsVictim, IsKept}

page_ofs : (u : Ptr) → pg_ofs u ≡ 0 → u % 4096 ≡ 0
unfolding pg_ofs
page_ofs u h = h

module _ {D F : Type 0} (driver : Driver D) (fs : Files F) where
  module _ (vm : Vm D F) (v : Ptr) (f : FrameEntry) (e : SptEntry) (block : Block D) (map : Bitmap)
      (h : IsVictim driver fs vm f e block map) where
    abbrev dirty : Bool
    dirty = is_dirty vm f.owner f.upage

    abbrev page : ℕ → ℕ
    page = bytes_at (memory vm) f.kpage

    abbrev Kept : Vm D F → Type 0
    Kept = Victim.Kept driver fs vm v f e block map h

    abbrev cleared : (Ptr → Option Pagedir) → Vm D F
    cleared = Victim.cleared driver fs vm v f e block map h

    abbrev dropped : (Ptr → Option Pagedir) → Vm D F
    dropped = Victim.dropped driver fs vm v f e block map h

    -- Swapping failed, and the page stays where it is.
    abbrev kept_loaded : (Ptr → Option Pagedir) → Vm D F
    kept_loaded pds =
        set_entry (record (cleared pds) { swap = swap_of driver block map }) f.owner f.upage
          (some (record e { state = loaded }))

    kept_loaded-IsKept :
        (pds pds' : Ptr → Option Pagedir)
        → (dirty && is_mmap e.type) ≡ false
        → Kept (record (kept_loaded pds) { pagedirs = pds' })
    kept_loaded-IsKept pds pds' w = record {
      same_memory = refl;
      same_files = rw w refl;
      this = λ n. record {
        entry = record e { state = loaded };
        found = ground arith;
        holds = λ i l. rw h.same refl;
      };
      others = λ t' u' c d n k.
          Contents-same driver fs t' u' c
            (record { same_memory = refl; same_files = refl; slots = λ e' c' s. rw h.table at s })
            (ground (arith, d)) k;
    }

    abbrev must_swap : Bool
    must_swap = is_anonymous e.type || (dirty && not (is_mmap e.type))

    swap_not_written : must_swap ≡ true → (dirty && is_mmap e.type) ≡ false
    swap_not_written m = not_both e.type m
      where
        not_both :
            (p : PageType)
            → (is_anonymous p || (dirty && not (is_mmap p))) ≡ true
            → (dirty && is_mmap p) ≡ false
        not_both page_file m = ground arith
        not_both page_zero m = ground arith
        not_both page_swap m = ground arith
        not_both page_mmap m = ground (arith, m)

    -- What is left of the eviction once the mapping is gone.
    abbrev finish : Vm D F → Result (Bool × Vm D F)
    finish vm2 =
        let vm3 = write_back driver fs dirty e f.kpage vm2 in
        if must_swap
        then (swap_out driver f.kpage (memory vm3) vm3.swap >>= λ r.
            after_swap driver fs v f.owner f.upage e (record vm3 { swap = r.1 }) r.0)
        else ok
            (true, forget_page driver fs v f.owner f.upage (record e { swap_slot = no_slot }) vm3)

    finish-swaps :
        (pds : Ptr → Option Pagedir)
        → must_swap ≡ true
        → finish (cleared pds) ≡ (
            swap_out driver f.kpage (memory vm) (swap_of driver block map) >>= λ r.
            after_swap driver fs v f.owner f.upage e (record (cleared pds) { swap = r.1 }) r.0)
    unfolding write_back
    finish-swaps pds m = rw (m, swap_not_written m, h.table) refl

    finish-drops :
        (pds : Ptr → Option Pagedir)
        → must_swap ≡ false
        → finish (cleared pds) ≡ ok (true, dropped pds)
    finish-drops pds m = rw m refl

    module _ (frame : (vm.frames v).kpage ≡ f.kpage) (pds : Ptr → Option Pagedir)
        (gone : (pd : Pagedir) → pds f.owner ≡ some pd → (entry pd f.upage).present ≡ false) where
      after_swap-IsKept :
          must_swap ≡ true
          → (r : Option ℕ × Swap D) → IsOut driver block map page r
          → Succeeds
              (λ x. Kept x.1)
              (after_swap driver fs v f.owner f.upage e (record (cleared pds) { swap = r.1 }) r.0)
      unfolding after_swap
      after_swap-IsKept m (some slot, s) (block', map', es, ready, free, held, others) = rw es (
          Victim.swapped-IsKept driver fs vm v f e block map h slot block' map' pds
            (swap_not_written m) ready held others)
      after_swap-IsKept m (none, s) (full, es) =
          rw (es, frame)
            (Succeeds-bind (OnlyPagedirs (kept_loaded pds)) (λ x. Kept x.1) _ _
              (restore_mapping-OnlyPagedirs (kept_loaded pds) f.owner f.upage f.kpage e.writable
                h.page h.user h.aligned h.kernel h.ram gone)
              λ vm' o. rw o (kept_loaded-IsKept pds vm'.pagedirs (swap_not_written m)))

      finish-IsKept : Succeeds (λ x. Kept x.1) (finish (cleared pds))
      finish-IsKept = elim (Bool-cases must_swap) [
        | inl m ↦ rw (finish-swaps pds m) (
            Succeeds-bind (IsOut driver block map page) (λ x. Kept x.1) _ _
              (swap_out-IsOut driver block map h.ready f.kpage (memory vm)
                (ground (arith, h.kernel)) h.aligned)
              λ r o. after_swap-IsKept m r o)
        | inr m ↦ rw (finish-drops pds m) (
            Victim.dropped-IsKept driver fs vm v f e block map h pds (ground (arith, m))
              (ground (arith, m)))
      ]

    evict_loaded-finish :
        (vm.frames v).kpage ≡ f.kpage
        → evict_loaded driver fs v f.owner f.upage e vm ≡ (
            clear_mapping
              (set_entry vm f.owner f.upage (some (record e { state = evicting })))
              f.owner
              f.upage
            >>= finish)
    unfolding evict_loaded
    evict_loaded-finish q = rw q refl

    evict_loaded-IsKept :
        (vm.frames v).kpage ≡ f.kpage
        → Succeeds (λ x. Kept x.1) (evict_loaded driver fs v f.owner f.upage e vm)
    evict_loaded-IsKept q =
        let vm1 = set_entry vm f.owner f.upage (some (record e { state = evicting })) in
        rw (evict_loaded-finish q) (
          Succeeds-bind (IsUnmapped vm1 f.owner f.upage) (λ x. Kept x.1) _ _
            (clear_mapping-IsUnmapped vm1 f.owner f.upage h.page h.user)
            λ vm2 r.
              subst (λ x. Succeeds (λ y. Kept y.1) (finish x)) (sym r.only)
                (finish-IsKept q vm2.pagedirs r.gone))

  -- The same victim, with its page's address rounded down.
  module _ (vm : Vm D F) (v : Ptr) (e : SptEntry) (block : Block D) (map : Bitmap)
      (h : IsVictim driver fs vm (vm.frames v) e block map) where
    abbrev f : FrameEntry
    f = vm.frames v

    abbrev rounded : Vm D F
    rounded = set_frame vm v (record f { upage = pg_round_down f.upage })

    rounded-IsVictim : IsVictim driver fs rounded f e block map
    rounded-IsVictim = record {
      owned = h.owned;
      used = h.used;
      aligned = h.aligned;
      kernel = h.kernel;
      ram = h.ram;
      page = h.page;
      user = h.user;
      listed = h.listed;
      resident = h.resident;
      same = h.same;
      table = h.table;
      ready = h.ready;
      clean =
          λ a d. let c = h.clean a d in record { whole = c.whole; page = c.page; bytes = c.bytes };
    }

    round_page : pg_round_down f.upage ≡ f.upage
    unfolding pg_round_down
    round_page = omega (arith, page_ofs f.upage h.page)

    frame_evict_page-loaded :
        frame_evict_page driver fs v vm ≡ evict_loaded driver fs v f.owner f.upage e rounded
    unfolding frame_evict_page
    frame_evict_page-loaded =
        let o : (f.owner == null) ≡ false = ground (arith, h.owned) in
        let u : (f.upage == null) ≡ false = ground (arith, h.used) in
        let k : (f.kpage == null) ≡ false = ground (arith, h.kernel) in
        let a : (pg_ofs f.kpage == 0) ≡ true = ground (arith, h.aligned) in
        let l : is_loaded e.state ≡ true = rw h.resident refl in
        let s : (e.kpage == f.kpage) ≡ true = ground (arith, h.same) in
        let p : vm.spts f.owner (pg_round_down f.upage) ≡ some e = rw round_page h.listed in
        rw (o, u, k, a, p, l, s, round_page) refl

    -- The eviction of a loaded user page from its frame fails no assertion. A dirty page of a mapped
    -- file is handed to `file_write_at` once, as it is in memory, and the files are as that leaves
    -- them; any other page leaves the files as they are. Then no bytes are lost: whether the
    -- eviction succeeds or not, the page and all other pages hold what they held. There must be swap
    -- slots on a device with room for them, and a page of a file that is not dirty must be as in
    -- the file.
    pub frame_evict_page-IsKept :
        Succeeds
          (λ x.
            IsKept driver fs vm f.owner f.upage f.kpage
              (is_dirty vm f.owner f.upage && is_mmap e.type)
              (Victim.files_after driver fs vm v f e block map h)
              x.1)
          (frame_evict_page driver fs v vm)
    frame_evict_page-IsKept = rw frame_evict_page-loaded (
        Succeeds-mono
          (λ x.
            IsKept driver fs rounded f.owner f.upage f.kpage
              (is_dirty vm f.owner f.upage && is_mmap e.type)
              (Victim.files_after driver fs vm v f e block map h) x.1)
          (λ x.
            IsKept driver fs vm f.owner f.upage f.kpage
              (is_dirty vm f.owner f.upage && is_mmap e.type)
              (Victim.files_after driver fs vm v f e block map h) x.1)
          _ (evict_loaded-IsKept rounded v f e block map rounded-IsVictim (ground arith))
          λ x k. record {
            same_memory = k.same_memory;
            same_files = k.same_files;
            this = k.this;
            others = λ t' u' c d n g. k.others t' u' c d n (
                Contents-same driver fs t' u' c
                  (record { same_memory = refl; same_files = refl; slots = λ e' c' s. s }) refl g);
          })
