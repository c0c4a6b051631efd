-- ===== src/Vm/Load/Install.antt =====
-- A page that was read into a frame is mapped there.
use gpintosy.Prelude.{
  ℕ, ◌+◌, ◌-◌, ◌≡◌, ◌≢◌, ◌≤◌, ◌<◌, refl, ap, ◌∙◌, Bool, true, false, ◌&&◌, ◌||◌, Option, some, ◌⊎◌,
  inl, inr, arith, ◌==◌, if◌then◌else◌, Option-cases,
}
use gpintosy.Kernel.{Ptr, null, update, Succeeds, Succeeds-bind, Succeeds-mono}
use gpintosy.Vaddr.{phys_base, pg_ofs, pg_no}
use gpintosy.Bitmap.{Bitmap}
use gpintosy.Pagedir.{Pagedir}
use gpintosy.Pagedir.Map.{entry, IsMapped, pagedir_set_page-IsMapped, pagedir_get_page-none}
use gpintosy.Swap.{Driver, Block}
use gpintosy.Swap.Slots.{swap_of, IsReady}
use gpintosy.Vm.{FrameEntry, loaded, loading, SptEntry, Files, Vm, memory, set_pagedir, set_entry}
use gpintosy.Vm.Frame.{find_frame, pin_first, frame_unpin}
use gpintosy.Vm.Frame.Pages.{IsBacked}
use gpintosy.Vm.Load.{Loading, answers, without_slot, map_page, install_loaded, load_into}
use gpintosy.Vm.Load.Fill.{IsFilled, fill_page-IsFilled}

module _ {D F : Type 0} (driver : Driver D) (fs : Files F) where
  -- A page of the running process and a frame of the user pool for it: the page is not mapped, and
  -- there is room for a page table.
  pub record IsReadyFor (vm : Vm D F) (u kpage : Ptr) (pd : Pagedir) : Type 0 where
    pub table : vm.pagedirs vm.cur ≡ some pd
    pub page : pg_ofs u ≡ 0
    pub user : u < phys_base
    pub unmapped : (entry pd u).present ≡ false
    pub aligned : pg_ofs kpage ≡ 0
    pub kernel : phys_base ≤ kpage
    pub ram : pg_no (kpage - phys_base) < vm.init_ram_pages
    pub room : vm.table_room ≡ true

  -- The page is mapped to the frame, and no other page is mapped differently than before.
  abbrev pub IsMappedIn : Vm D F → Ptr → Ptr → Bool → Pagedir → Bool × Vm D F → Type 0
  IsMappedIn vm u kpage writable pd r =
      (r.0 ≡ true)
      × (pd' : Pagedir) × (r.1 ≡ set_pagedir vm vm.cur pd')
      × IsMapped true pd u kpage writable (true, pd')

  map_result :
      (vm : Vm D F) (u kpage : Ptr) (writable : Bool) (pd : Pagedir)
      → vm.table_room ≡ true
      → (x : Bool × Pagedir) → IsMapped vm.table_room pd u kpage writable x
      → IsMappedIn vm u kpage writable pd (x.0, set_pagedir vm vm.cur x.1)
  map_result vm u kpage writable pd r (true, pd') m = (refl, pd', refl, m)
  map_result vm u kpage writable pd r (false, pd') m = absurd (ground (arith, r, m.1))

  map_page-mapped :
      (vm : Vm D F) (u kpage : Ptr) (writable : Bool) (pd : Pagedir)
      → IsReadyFor vm u kpage pd
      → Succeeds (IsMappedIn vm u kpage writable pd) (map_page driver fs u kpage writable vm)
  unfolding map_page
  map_page-mapped vm u kpage writable pd h =
      rw (map_page, h.table, pagedir_get_page-none pd u h.user h.unmapped)
        (Succeeds-bind (IsMapped vm.table_room pd u kpage writable)
          (IsMappedIn vm u kpage writable pd) _ _
          (pagedir_set_page-IsMapped vm.init_ram_pages vm.table_room pd u kpage writable h.page
            h.aligned h.user h.kernel h.ram h.unmapped)
          (map_result vm u kpage writable pd h.room))

  OnlyFrames : Vm D F → Vm D F → Type 0
  OnlyFrames vm vm' = vm' ≡ record vm { frames = vm'.frames }

  pin_first-OnlyFrames :
      (p : FrameEntry → Bool) (pinned : Bool) (vm : Vm D F)
      → OnlyFrames vm (pin_first p pinned vm).1
  unfolding OnlyFrames pin_first
  pin_first-OnlyFrames p pinned vm =
      elim (Option-cases (find_frame (λ e. p (vm.frames e)) vm.frame_table)) [
        | inl e ↦ rw (pin_first, e) refl
        | inr (f, e) ↦ rw (pin_first, e) refl
      ]

  frame_unpin-OnlyFrames :
      (kpage : Ptr) (vm : Vm D F)
      → pg_ofs kpage ≡ 0
      → Succeeds (OnlyFrames vm) (frame_unpin kpage vm)
  unfolding frame_unpin
  frame_unpin-OnlyFrames kpage vm a =
      let o : ((kpage == null) || (pg_ofs kpage == 0)) ≡ true = ground (arith, a) in
      rw o (pin_first-OnlyFrames (λ f. f.kpage == kpage) false vm)

  -- The page is loaded: it is mapped to the frame, which holds its bytes.
  pub record IsLoadedIn (vm : Vm D F) (u kpage : Ptr) (e : SptEntry) (pd : Pagedir) (c : ℕ → ℕ)
      (r : Loading × Vm D F) : Type 0 where
    pub done : r.0 ≡ answers true
    pub listed :
        (t v : Ptr)
        → r.1.spts t v ≡ (
            if (t == vm.cur) && (v == u)
            then some (record e { kpage = kpage; state = loaded })
            else vm.spts t v)
    pub table : Pagedir
    pub directories : r.1.pagedirs ≡ update vm.pagedirs vm.cur (some table)
    pub mapped : IsMapped true pd u kpage e.writable (true, table)
    pub holds : (i : ℕ) → i < 4096 → memory r.1 (kpage + i) ≡ c i
    pub rest : (a : Ptr) → (a < kpage) ⊎ (kpage + 4096 ≤ a) → memory r.1 a ≡ memory vm a

  set_entry-listed :
      (vm : Vm D F) (t u v : Ptr) (x : Option SptEntry)
      → (set_entry vm vm.cur u x).spts t v ≡ (if (t == vm.cur) && (v == u) then x else vm.spts t v)
  set_entry-listed vm t u v x = ground arith

  set_twice :
      (vm : Vm D F) (t u v : Ptr) (x y : Option SptEntry)
      → (if (t == vm.cur) && (v == u) then x else (set_entry vm vm.cur u y).spts t v)
        ≡ (if (t == vm.cur) && (v == u) then x else vm.spts t v)
  set_twice vm t u v x y = ground arith

  install_loaded-IsLoadedIn :
      (vm : Vm D F) (u kpage : Ptr) (e : SptEntry) (pd : Pagedir) (c : ℕ → ℕ)
      → IsReadyFor vm u kpage pd
      → ((i : ℕ) → i < 4096 → memory vm (kpage + i) ≡ c i)
      → Succeeds (IsLoadedIn vm u kpage e pd c) (install_loaded driver fs u e kpage vm)
  unfolding install_loaded OnlyFrames
  install_loaded-IsLoadedIn vm u kpage e pd c h g =
      Succeeds-bind (IsMappedIn vm u kpage e.writable pd) (IsLoadedIn vm u kpage e pd c) _ _
        (map_page-mapped vm u kpage e.writable pd h)
        λ r (d, pd', q, m). rw d (
          let vm2 = set_entry r.1 r.1.cur u (some (record e { kpage = kpage; state = loaded })) in
          Succeeds-bind (OnlyFrames vm2) (IsLoadedIn vm u kpage e pd c) _ _
            (frame_unpin-OnlyFrames kpage vm2 h.aligned)
            λ vm3 o. record {
              done = refl;
              listed = λ t w.
                  ap (λ v. v.spts t w) o
                  ∙ ap
                      (λ v.
                        (set_entry v v.cur u
                            (some (record e { kpage = kpage; state = loaded }))).spts
                          t w)
                      q
                  ∙ set_entry-listed vm t u w _;
              table = pd';
              directories = ap (λ v. v.pagedirs) o ∙ ap (λ v. v.pagedirs) q;
              mapped = m;
              holds = λ i l.
                  ap (λ v. memory v (kpage + i)) o ∙ ap (λ v. memory v (kpage + i)) q ∙ g i l;
              rest = λ a l. ap (λ v. memory v a) o ∙ ap (λ v. memory v a) q;
            })

  kernel-null : {p : Ptr} → phys_base ≤ p → p ≢ null
  kernel-null h = λ e. absurd (ground arith)

  -- A page in memory's state before the load, with its bytes in a file, in swap, or zeros.
  module _ (vm : Vm D F) (u f : Ptr) (e : SptEntry) (pd : Pagedir) (c : ℕ → ℕ) (block : Block D)
      (map : Bitmap) (h : IsReadyFor vm u (vm.frames f).kpage pd)
      (table : vm.swap ≡ swap_of driver block map) (ready : IsReady driver block map)
      (backed : IsBacked driver fs vm e c) where
    load_filled :
        (r : Bool × Vm D F)
        → IsFilled driver fs vm e c (vm.frames f).kpage r
        → Succeeds (IsLoadedIn vm u (vm.frames f).kpage (without_slot driver fs e) pd c) (
            install_loaded driver fs u (without_slot driver fs e) (vm.frames f).kpage (
              set_entry r.1 r.1.cur u
                (some (without_slot driver fs (record e { state = loading })))))
    load_filled r i =
        let kpage = (vm.frames f).kpage in
        let same : r.1.cur ≡ vm.cur = ap (λ v. v.cur) i.only in
        let vm1 =
          set_entry r.1 r.1.cur u (some (without_slot driver fs (record e { state = loading }))) in
        Succeeds-mono (IsLoadedIn vm1 u kpage (without_slot driver fs e) pd c)
          (IsLoadedIn vm u kpage (without_slot driver fs e) pd c) _
          (install_loaded-IsLoadedIn vm1 u kpage (without_slot driver fs e) pd c
            (record {
              table = ap (λ v. v.pagedirs v.cur) i.only ∙ h.table;
              page = h.page;
              user = h.user;
              unmapped = h.unmapped;
              aligned = h.aligned;
              kernel = h.kernel;
              ram = rw (ap (λ v. v.init_ram_pages) i.only) h.ram;
              room = ap (λ v. v.table_room) i.only ∙ h.room;
            })
            i.holds)
          λ x l. record {
            done = l.done;
            listed = λ t v.
                l.listed t v
                ∙ set_twice r.1 t u v _ _
                ∙ ap
                    (λ w.
                      if (t == w.cur) && (v == u)
                      then some
                          (record (without_slot driver fs e) { kpage = kpage; state = loaded })
                      else w.spts t v)
                    i.only;
            table = l.table;
            directories = l.directories ∙ ap (λ v. update v.pagedirs v.cur (some l.table)) i.only;
            mapped = l.mapped;
            holds = l.holds;
            rest = λ a n. l.rest a n ∙ i.rest a n;
          }

    -- If the page directory of the process does not map the page, `pagedir_set_page` has room for a
    -- page table, the frame is a page of the user pool in memory and the swap table is on a device
    -- with room for its slots, then a load of a user page whose bytes are in its file, in swap or
    -- all zeros fails no assertion and succeeds: the page is listed as loaded and mapped to the
    -- frame, with its own rights; the frame holds its bytes; and all else in memory is the same.
    pub load_into-IsLoadedIn :
        Succeeds
          (IsLoadedIn vm u (vm.frames f).kpage (without_slot driver fs e) pd c)
          (load_into driver fs u e (some f, vm))
    unfolding load_into
    load_into-IsLoadedIn =
        Succeeds-bind (IsFilled driver fs vm e c (vm.frames f).kpage)
          (IsLoadedIn vm u (vm.frames f).kpage (without_slot driver fs e) pd c) _ _
          (fill_page-IsFilled driver fs vm e c (vm.frames f).kpage block map table ready
            (kernel-null h.kernel) h.aligned e.type backed)
          λ r i. rw i.done (load_filled r i)
