-- ===== src/Vm/Frame/Victim.antt =====
-- Where the bytes of a page are once it has been evicted.
use gpintosy.Prelude.{
  ℕ, ◌-◌, ◌≡◌, ◌≢◌, ◌≤◌, ◌<◌, refl, sym, Bool, false, not, ◌&&◌, Option, some, ◌⊎◌, if◌then◌else◌,
  arith,
}
use mathlib.Core.Bool.{false≢true}
use gpintosy.Kernel.{Ptr, null}
use gpintosy.Vaddr.{phys_base, pg_ofs, pg_no}
use gpintosy.Bitmap.{Bitmap}
use gpintosy.Pagedir.{Pagedir}
use gpintosy.Swap.{Driver, Block, bytes_at}
use gpintosy.Swap.Slots.{swap_of, IsReady, IsHeld}
use gpintosy.Vm.{
  PageType, page_file, page_zero, page_swap, page_mmap, loaded, not_loaded, no_slot, evicting,
  is_mmap, is_anonymous, SptEntry, FrameEntry, Files, Vm, memory, set_entry,
}
use gpintosy.Vm.Frame.{is_dirty, write_back, forget_page}
use gpintosy.Vm.Frame.Pages.{IsInFile, IsBackedAs, Contents, Contents-same}

module _ {D F : Type 0} (driver : Driver D) (fs : Files F) where
  -- A frame that holds a loaded page, in a system with swap. A page of a file that is not dirty is
  -- as in the file.
  pub record IsVictim (vm : Vm D F) (f : FrameEntry) (e : SptEntry) (block : Block D) (map : Bitmap)
      : Type 0 where
    pub owned : f.owner ≢ null
    pub used : f.upage ≢ null
    pub aligned : pg_ofs f.kpage ≡ 0
    pub kernel : phys_base ≤ f.kpage
    pub ram : pg_no (f.kpage - phys_base) < vm.init_ram_pages
    pub page : pg_ofs f.upage ≡ 0
    pub user : f.upage < phys_base
    pub listed : vm.spts f.owner f.upage ≡ some e
    pub resident : e.state ≡ loaded
    pub same : e.kpage ≡ f.kpage
    pub table : vm.swap ≡ swap_of driver block map
    pub ready : IsReady driver block map
    pub clean :
        is_anonymous e.type ≡ false
        → is_dirty vm f.owner f.upage ≡ false
        → IsInFile driver fs vm e (bytes_at (memory vm) f.kpage)

  -- The files are as given, and unless a mapped file was written, no bytes are lost in the page `u` of
  -- the process `t`, nor in any other page.
  pub record IsKept (vm : Vm D F) (t u kpage : Ptr) (file_written : Bool) (files : F) (vm' : Vm D F)
      : Type 0 where
    pub same_memory : memory vm' ≡ memory vm
    pub same_files : vm'.files ≡ files
    pub this : file_written ≡ false → Contents driver fs vm' t u (bytes_at (memory vm) kpage)
    pub others :
        (t' u' : Ptr) (c : ℕ → ℕ)
        → (t' ≢ t) ⊎ (u' ≢ u)
        → file_written ≡ false
        → Contents driver fs vm t' u' c
        → Contents driver fs vm' t' u' c

  module _ (vm : Vm D F) (v : Ptr) (f : FrameEntry) (e : SptEntry) (block : Block D) (map : Bitmap)
      (h : IsVictim vm f e block map) where
    abbrev pub dirty : Bool
    dirty = is_dirty vm f.owner f.upage

    -- The bytes of the page.
    abbrev pub page : ℕ → ℕ
    page = bytes_at (memory vm) f.kpage

    -- The files, with the page written to its own if it is a dirty page of a mapping.
    abbrev pub files_after : F
    files_after =
        if dirty && is_mmap e.type
        then fs.write_at vm.files e.file page e.read_bytes e.ofs
        else vm.files

    abbrev pub Kept : Vm D F → Type 0
    Kept = IsKept vm f.owner f.upage f.kpage (dirty && is_mmap e.type) files_after

    -- Right after the mapping is gone.
    abbrev pub cleared : (Ptr → Option Pagedir) → Vm D F
    cleared pds = record (set_entry vm f.owner f.upage (some (record e { state = evicting }))) {
      pagedirs = pds;
    }

    abbrev pub swapped : ℕ → Block D → Bitmap → (Ptr → Option Pagedir) → Vm D F
    swapped slot block' map' pds =
        forget_page driver fs v f.owner f.upage (record e { type = page_swap; swap_slot = slot })
          (record (cleared pds) { swap = swap_of driver block' map' })

    others-set :
        (pds : Ptr → Option Pagedir) (o : Option SptEntry) (t' u' : Ptr)
        → (t' ≢ f.owner) ⊎ (u' ≢ f.upage)
        → (set_entry vm f.owner f.upage o).spts t' u' ≡ vm.spts t' u'
    others-set pds o t' u' d = ground (arith, d)

    pub swapped-IsKept :
        (slot : ℕ) (block' : Block D) (map' : Bitmap) (pds : Ptr → Option Pagedir)
        → (dirty && is_mmap e.type) ≡ false
        → IsReady driver block' map'
        → IsHeld driver block' map' slot page
        → ((w : ℕ) (c : ℕ → ℕ) → IsHeld driver block map w c → IsHeld driver block' map' w c)
        → Kept (swapped slot block' map' pds)
    unfolding forget_page
    swapped-IsKept slot block' map' pds w r held others = record {
      same_memory = refl;
      same_files = rw w refl;
      this = λ n. record {
        entry = record e { type = page_swap; swap_slot = slot; state = not_loaded; kpage = null };
        found = ground arith;
        holds = held;
      };
      others = λ t' u' c d n k.
          Contents-same driver fs t' u' c
            (record {
              same_memory = refl;
              same_files = refl;
              slots = λ e' c' s. others e'.swap_slot c' (rw h.table at s);
            })
            (ground (arith, d)) k;
    }

    file_backed :
        (p : PageType) (vm' : Vm D F) (e' : SptEntry) (c : ℕ → ℕ)
        → is_anonymous p ≡ false
        → IsInFile driver fs vm' e' c
        → IsBackedAs driver fs p vm' e' c
    file_backed page_file vm' e' c a i = i
    file_backed page_mmap vm' e' c a i = i
    file_backed page_zero vm' e' c a i = absurd (false≢true (sym a))
    file_backed page_swap vm' e' c a i = absurd (false≢true (sym a))

    abbrev pub dropped : (Ptr → Option Pagedir) → Vm D F
    dropped pds =
        forget_page driver fs v f.owner f.upage (record e { swap_slot = no_slot })
          (write_back driver fs dirty e f.kpage (cleared pds))

    abbrev dropped_entry : SptEntry
    dropped_entry = record e { swap_slot = no_slot; state = not_loaded; kpage = null }

    clean-IsInFile :
        (pds : Ptr → Option Pagedir)
        → dirty ≡ false
        → is_anonymous e.type ≡ false
        → IsInFile driver fs (dropped pds) dropped_entry page
    unfolding forget_page write_back
    clean-IsInFile pds d a =
        let c = h.clean a d in rw d (record { whole = c.whole; page = c.page; bytes = c.bytes })

    pub dropped-IsKept :
        (pds : Ptr → Option Pagedir)
        → is_anonymous e.type ≡ false
        → (dirty && not (is_mmap e.type)) ≡ false
        → Kept (dropped pds)
    unfolding forget_page write_back
    dropped-IsKept pds a m = record {
      same_memory = ground arith;
      same_files = ground arith;
      this = λ n.
          let d : dirty ≡ false = ground (arith, m, n) in
          record {
            entry = dropped_entry;
            found = ground arith;
            holds = file_backed e.type (dropped pds) dropped_entry page a (clean-IsInFile pds d a);
          };
      others = λ t' u' c d n k.
          Contents-same driver fs t' u' c
            (record {
              same_memory = ground arith;
              same_files = ground (arith, n);
              slots = λ e' c' s. rw n s;
            })
            (ground (arith, d)) k;
    }
