-- ===== src/Syscall/Descriptors/Table.antt =====
-- The descriptors of a process as a map from numbers to files.
use gpintosy.Prelude.{
  ℕ, ◌+◌, ◌≡◌, ◌≤◌, ◌<◌, refl, sym, ap, ◌∙◌, Bool, true, false, Option, none, some, List, [], ◌∷◌,
  ◌++◌, arith, ◌==◌, if◌then◌else◌, Bool-cases, inl, inr,
}
use gpintosy.Kernel.{Ptr, null, Succeeds}
use gpintosy.Files.{FileSys, file_close}
use gpintosy.Syscall.{Descriptor, Sys, malloc, free, Ends, Ends-lift, Ends-next}
use gpintosy.Syscall.Descriptors.{
  find_fd, remove_fd, lookup_fd, lookup_file, fd_allocate, set_files, on_files, close_found,
  fd_close,
}

-- Each number from 2 to before another stands at most once, and no other does.
pub data Numbered : ℕ → List Descriptor → Type 0 where
  empty : {n : ℕ} → Numbered n []
  more :
      {n : ℕ} {d : Descriptor} {l : List Descriptor}
      → 2 ≤ d.fd
      → d.fd < n
      → find_fd d.fd l ≡ none
      → Numbered n l
      → Numbered n (d ∷ l)

find_fd-above : (fd n : ℕ) (l : List Descriptor) → Numbered n l → n ≤ fd → find_fd fd l ≡ none
unfolding find_fd
find_fd-above fd n [] h g = refl
find_fd-above fd n (d ∷ l) (more a b c h) g =
    let e : (d.fd == fd) ≡ false = ground (arith, b, g) in rw e (find_fd-above fd n l h g)

find_fd-append :
    (fd : ℕ) (d : Descriptor) (l : List Descriptor)
    → find_fd d.fd l ≡ none
    → find_fd fd (l ++ d ∷ []) ≡ (if d.fd == fd then some d else find_fd fd l)
unfolding find_fd
find_fd-append fd d [] h = refl
find_fd-append fd d (e ∷ l) h = elim (Bool-cases (e.fd == d.fd)) [
  | inl i ↦ ground (arith, i, h)
  | inr i ↦ let g = find_fd-append fd d l (ground (arith, i, h)) in ground (arith, g, i)
]

Numbered-append :
    (file : Ptr) (n : ℕ) (l : List Descriptor)
    → 2 ≤ n
    → Numbered n l
    → Numbered (n + 1) (l ++ record { fd = n; file = file } ∷ [])
unfolding find_fd
Numbered-append file n [] g h = more {l = []} g (omega arith) refl empty
Numbered-append file n (d ∷ l) g (more a b c h) =
    let away : find_fd d.fd (l ++ record { fd = n; file = file } ∷ []) ≡ none =
      find_fd-append d.fd (record { fd = n; file = file }) l (find_fd-above n n l h (omega arith))
      ∙ ground (arith, b, c) in
    more a (omega (arith, b)) away (Numbered-append file n l g h)

find_fd-remove_fd :
    (fd other n : ℕ) (l : List Descriptor)
    → Numbered n l
    → find_fd other (remove_fd fd l) ≡ (if fd == other then none else find_fd other l)
unfolding find_fd remove_fd
find_fd-remove_fd fd other n [] h = ground arith
find_fd-remove_fd fd other n (d ∷ l) (more a b c h) = elim (Bool-cases (d.fd == fd)) [
  | inl e ↦
      let g : (d.fd == other) ≡ true → find_fd other l ≡ none =
        λ o. ap (λ x. find_fd x l) (sym (ground (arith, o))) ∙ c in
      rw e (ground (arith, g, e))
  | inr e ↦ let g = find_fd-remove_fd fd other n l h in rw e (ground (arith, g, e))
]

Numbered-remove_fd : (fd n : ℕ) (l : List Descriptor) → Numbered n l → Numbered n (remove_fd fd l)
unfolding remove_fd
Numbered-remove_fd fd n [] h = empty
Numbered-remove_fd fd n (d ∷ l) (more a b c h) = elim (Bool-cases (d.fd == fd)) [
  | inl e ↦ rw e h
  | inr e ↦
      rw e (
        more a b (find_fd-remove_fd fd d.fd n l h ∙ ground (arith, c))
          (Numbered-remove_fd fd n l h))
]

abbrev file_in : Option Descriptor → Ptr
file_in none = null
file_in (some d) = d.file

file_in-some :
    (b : Bool) (d : Descriptor) (o : Option Descriptor)
    → file_in (if b then some d else o) ≡ (if b then d.file else file_in o)
file_in-some true d o = refl
file_in-some false d o = refl

file_in-none :
    (b : Bool) (o : Option Descriptor)
    → file_in (if b then none else o) ≡ (if b then null else file_in o)
file_in-none true o = refl
file_in-none false o = refl

module _ {D F : Type 0} where
  pub record IsTable (s : Sys D F) : Type 0 where
    pub low : 2 ≤ s.next_fd
    pub numbered : Numbered s.next_fd s.fd_list

  -- What `fd_allocate` comes to.
  abbrev pub IsAllocated : Ptr → Sys D F → Option ℕ → Sys D F → Type 0
  IsAllocated file s none s' = (s.heap ≡ 0) × (s' ≡ s)
  IsAllocated file s (some fd) s' =
      (2 ≤ fd)
      × (lookup_fd fd s ≡ none)
      × IsTable s'
      × ((other : ℕ) → lookup_file other s' ≡ (if fd == other then file else lookup_file other s))

  -- In a table whose numbers are from 2 to before the next one and stand once each, `fd_allocate`
  -- comes back. Without memory it changes nothing; else it gives a number of 2 or more that was
  -- not in use, after it the table is such a table again, and the file under that number is the
  -- given one and under every other what it was.
  pub fd_allocate-IsAllocated :
      (file : Ptr) (s : Sys D F) → IsTable s → Ends (IsAllocated file s) (fd_allocate file s)
  unfolding fd_allocate malloc lookup_fd lookup_file
  fd_allocate-IsAllocated file s t = elim (Bool-cases (s.heap == 0)) [
    | inl e ↦ rw e (ground (arith, e), refl)
    | inr e ↦ rw e (
      t.low,
      find_fd-above s.next_fd s.next_fd s.fd_list t.numbered (omega arith),
      record {
        low = omega (arith, t.low);
        numbered = Numbered-append file s.next_fd s.fd_list t.low t.numbered;
      },
      λ other.
          let g =
            find_fd-append other (record { fd = s.next_fd; file = file }) s.fd_list
              (find_fd-above s.next_fd s.next_fd s.fd_list t.numbered (omega arith)) in
          ap file_in g
          ∙ file_in-some (s.next_fd == other) (record { fd = s.next_fd; file = file })
              (find_fd other s.fd_list),
    )
  ]

module _ {D E : Type 0} where
  -- What `fd_close` comes to.
  pub record IsClosed (fd : ℕ) (s s' : Sys D (FileSys E)) : Type 0 where
    pub table : IsTable s'
    pub files :
        (other : ℕ) → lookup_file other s' ≡ (if fd == other then null else lookup_file other s)

  lookup_file-none :
      (fd : ℕ) (s : Sys D (FileSys E))
      → find_fd fd s.fd_list ≡ none
      → (other : ℕ) → lookup_file other s ≡ (if fd == other then null else lookup_file other s)
  unfolding lookup_file lookup_fd
  lookup_file-none fd s n other = elim (Bool-cases (fd == other)) [
    | inl e ↦
        let i : fd ≡ other = ground arith in
        rw e (ap file_in (ap (λ x. find_fd x s.fd_list) (sym i) ∙ n))
    | inr e ↦ rw e refl
  ]

  -- If the numbers of the table are from 2 to before the next one and stand once each, and the file
  -- under the number, if there is one, can be closed, then `fd_close` comes back with such a table,
  -- in which there is no file under the number, and under every other number the file that was there.
  pub fd_close-IsClosed :
      (fd : ℕ) (s : Sys D (FileSys E))
      → IsTable s
      → ((d : Descriptor)
          → lookup_fd fd s ≡ some d
          → Succeeds (λ _. Unit) (file_close d.file s.vm.files))
      → Ends (λ _. IsClosed fd s) (fd_close fd s)
  unfolding fd_close lookup_fd lookup_file free
  fd_close-IsClosed fd s t h = go (find_fd fd s.fd_list) refl
    where
      closed :
          (files : FileSys E)
          → IsClosed fd s (record s {
            fd_list = remove_fd fd s.fd_list;
            vm = record (s.vm) { files = files };
            heap = s.heap + 1;
          })
      closed files = record {
        table = record {
          low = t.low;
          numbered = Numbered-remove_fd fd s.next_fd s.fd_list t.numbered;
        };
        files = λ other.
            ap file_in (find_fd-remove_fd fd other s.next_fd s.fd_list t.numbered)
            ∙ file_in-none (fd == other) (find_fd other s.fd_list);
      }

      go :
          (o : Option Descriptor)
          → find_fd fd s.fd_list ≡ o
          → Ends (λ _. IsClosed fd s) (close_found fd o s)
      go none e = record { table = t; files = lookup_file-none fd s e }
      go (some d) e =
          Ends-next (λ _ s'. IsClosed fd s (record s' { heap = s'.heap + 1 })) (λ _. IsClosed fd s)
            (λ _. free)
            (on_files (file_close d.file) (record s { fd_list = remove_fd fd s.fd_list }))
            (Ends-lift (λ _. Unit) (file_close d.file s.vm.files)
              (λ _ s'. IsClosed fd s (record s' { heap = s'.heap + 1 })) set_files
              (record s { fd_list = remove_fd fd s.fd_list }) (h d e) (λ files _. closed files))
            (λ _ s' c. c)
