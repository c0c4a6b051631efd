-- ===== src/Vm/Frame/Pages.antt =====
-- What a user page holds, wherever it is: in a frame, in swap, in a file, or nowhere yet.
use gpintosy.Prelude.{ℕ, ◌+◌, ◌≡◌, ◌<◌, ◌∙◌, Option, none, some, ltb, if◌then◌else◌}
use gpintosy.Kernel.{Ptr}
use gpintosy.Bitmap.{Bitmap}
use gpintosy.Swap.{Driver, Block}
use gpintosy.Swap.Slots.{IsHeld}
use gpintosy.Vm.{
  PageType, page_file, page_zero, page_swap, page_mmap, PageState, loaded, not_loaded, loading,
  evicting, SptEntry, Files, Vm, memory,
}

module _ {D F : Type 0} (driver : Driver D) (fs : Files F) where
  -- The file has the bytes of the page, and the rest of the page is zeros.
  pub record IsInFile (vm : Vm D F) (e : SptEntry) (c : ℕ → ℕ) : Type 0 where
    pub whole : (fs.read_at vm.files e.file e.read_bytes e.ofs).0 ≡ e.read_bytes
    pub page : e.read_bytes + e.zero_bytes ≡ 4096
    pub bytes :
        (i : ℕ)
        → i < 4096
        → c i
          ≡ (if ltb i e.read_bytes then (fs.read_at vm.files e.file e.read_bytes e.ofs).1 i else 0)

  -- A slot holds the bytes, in a swap table that has a device and a map.
  abbrev pub HasSlot : Option (Block D) → Option Bitmap → ℕ → (ℕ → ℕ) → Type 0
  HasSlot none map slot c = ⊥
  HasSlot (some block) none slot c = ⊥
  HasSlot (some block) (some map) slot c = IsHeld driver block map slot c

  abbrev pub IsInSwap : Vm D F → SptEntry → (ℕ → ℕ) → Type 0
  IsInSwap vm e c = HasSlot vm.swap.device vm.swap.map e.swap_slot c

  -- Where a page that is not loaded has its bytes.
  abbrev pub IsBackedAs : PageType → Vm D F → SptEntry → (ℕ → ℕ) → Type 0
  IsBackedAs page_file vm e c = IsInFile vm e c
  IsBackedAs page_mmap vm e c = IsInFile vm e c
  IsBackedAs page_zero vm e c = (i : ℕ) → i < 4096 → c i ≡ 0
  IsBackedAs page_swap vm e c = IsInSwap vm e c

  abbrev pub IsBacked : Vm D F → SptEntry → (ℕ → ℕ) → Type 0
  IsBacked vm e c = IsBackedAs e.type vm e c

  abbrev pub IsResident : Vm D F → SptEntry → (ℕ → ℕ) → Type 0
  IsResident vm e c = (i : ℕ) → i < 4096 → memory vm (e.kpage + i) ≡ c i

  abbrev pub HoldsAs : PageState → Vm D F → SptEntry → (ℕ → ℕ) → Type 0
  HoldsAs loaded vm e c = IsResident vm e c
  HoldsAs not_loaded vm e c = IsBacked vm e c
  HoldsAs loading vm e c = ⊥
  HoldsAs evicting vm e c = ⊥

  -- The page `u` of the process `t` holds the bytes `c`.
  pub record Contents (vm : Vm D F) (t u : Ptr) (c : ℕ → ℕ) : Type 0 where
    pub entry : SptEntry
    pub found : vm.spts t u ≡ some entry
    pub holds : HoldsAs entry.state vm entry c

  -- Another state with the same memory and files, in which the swap table holds what it held.
  pub record IsNoLess (vm vm' : Vm D F) : Type 0 where
    pub same_memory : memory vm' ≡ memory vm
    pub same_files : vm'.files ≡ vm.files
    pub slots : (e : SptEntry) (c : ℕ → ℕ) → IsInSwap vm e c → IsInSwap vm' e c

  module _ {vm vm' : Vm D F} (n : IsNoLess vm vm') (e : SptEntry) (c : ℕ → ℕ) where
    IsInFile-same : IsInFile vm e c → IsInFile vm' e c
    IsInFile-same h = record {
      whole = rw n.same_files h.whole;
      page = h.page;
      bytes = λ i l. rw n.same_files (h.bytes i l);
    }

    IsBackedAs-same : (p : PageType) → IsBackedAs p vm e c → IsBackedAs p vm' e c
    IsBackedAs-same page_file h = IsInFile-same h
    IsBackedAs-same page_mmap h = IsInFile-same h
    IsBackedAs-same page_zero h = h
    IsBackedAs-same page_swap h = n.slots e c h

    pub HoldsAs-same : (s : PageState) → HoldsAs s vm e c → HoldsAs s vm' e c
    HoldsAs-same loaded h = λ i l. rw n.same_memory (h i l)
    HoldsAs-same not_loaded h = IsBackedAs-same e.type h
    HoldsAs-same loading h = h
    HoldsAs-same evicting h = h

  -- A page whose entry is the same holds what it held.
  pub Contents-same :
      {vm vm' : Vm D F} (t u : Ptr) (c : ℕ → ℕ)
      → IsNoLess vm vm'
      → vm'.spts t u ≡ vm.spts t u
      → Contents vm t u c
      → Contents vm' t u c
  Contents-same t u c n s h = record {
    entry = h.entry;
    found = s ∙ h.found;
    holds = HoldsAs-same n h.entry c h.entry.state h.holds;
  }
