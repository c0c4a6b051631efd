-- ===== src/Files/Denied.antt =====
-- Who denies writes to an inode.
use gpintosy.Prelude.{
  ℕ, ◌+◌, ◌-◌, ◌≡◌, ◌≢◌, ◌≤◌, refl, ap, ◌∙◌, Bool, true, false, ◌&&◌, List, [], ◌∷◌, arith, ltb,
  leb, ◌==◌, if◌then◌else◌, Bool-cases, inl, inr,
}
use gpintosy.KernelList.Count.{count}
use gpintosy.Kernel.{Ptr, null, Result, ok, Succeeds, Succeeds-bind}
use gpintosy.Inode.{inode_deny_write, inode_allow_write}
use gpintosy.Files.{
  FileSys, set_inode, set_file, file_deny_write, file_allow_write, inode_close, file_close,
}

abbrev bit : Bool → ℕ
bit b = if b then 1 else 0

-- How many entries of a list pass a test.
abbrev pub tally : (Ptr → Bool) → List Ptr → ℕ
tally p [] = 0
tally p (a ∷ l) = bit (p a) + tally p l

module _ (p q : Ptr → Bool) (f : Ptr) (same : (x : Ptr) → x ≢ f → q x ≡ p x) where
  tally-without : (l : List Ptr) → count f l ≡ 0 → tally q l ≡ tally p l
  tally-without [] h = refl
  tally-without (a ∷ l) h = ground (arith, same a, tally-without l)

  -- The tests differ at one entry of the list.
  tally-change : (l : List Ptr) → count f l ≡ 1 → tally q l + bit (p f) ≡ tally p l + bit (q f)
  tally-change [] h = absurd (omega arith)
  tally-change (a ∷ l) h = elim (Bool-cases (a == f)) [
    | inl e ↦
        let i : a ≡ f = ground arith in
        omega
          (arith, h, tally-without l (ground arith), ap (λ x. bit (q x)) i, ap (λ x. bit (p x)) i)
    | inr e ↦ ground (arith, same a, tally-change l)
  ]

tally-le :
    (p q : Ptr → Bool)
    → ((x : Ptr) → p x ≡ true → q x ≡ true)
    → (l : List Ptr) → tally p l ≤ tally q l
tally-le p q h [] = omega arith
tally-le p q h (a ∷ l) = ground (arith, h a, tally-le p q h l)

module _ {D : Type 0} where
  abbrev is_opener : FileSys D → Ptr → Ptr → Bool
  is_opener fs i f = (fs.files f).inode == i

  abbrev is_denier : FileSys D → Ptr → Ptr → Bool
  is_denier fs i f = (fs.files f).deny_write && ((fs.files f).inode == i)

  -- Of the open files, those that deny writes are counted in their inodes, and each file is one of
  -- the openers of its inode.
  pub record IsCounted (l : List Ptr) (fs : FileSys D) : Type 0 where
    pub deniers : (i : Ptr) → (fs.inodes i).deny_write_cnt ≡ tally (is_denier fs i) l
    pub openers : (i : Ptr) → tally (is_opener fs i) l ≤ (fs.inodes i).open_cnt

  module _ (l : List Ptr) (fs : FileSys D) (f : Ptr) (c : IsCounted l fs)
      (once : count f l ≡ 1) where
    -- The file denies writes or not, and its inode counts so many.
    abbrev turned : Bool → ℕ → FileSys D
    turned b n =
        set_inode (set_file fs f (record (fs.files f) { deny_write = b })) (fs.files f).inode
          (record (fs.inodes (fs.files f).inode) { deny_write_cnt = n })

    turned-deniers :
        (b : Bool) (n : ℕ) (i : Ptr)
        → tally (is_denier (turned b n) i) l + bit (is_denier fs i f)
          ≡ tally (is_denier fs i) l + bit (is_denier (turned b n) i f)
    turned-deniers b n i =
        tally-change (is_denier fs i) (is_denier (turned b n) i) f (λ x h. ground arith) l once

    turned-openers :
        (b : Bool) (n : ℕ) (i : Ptr) → tally (is_opener (turned b n) i) l ≤ tally (is_opener fs i) l
    turned-openers b n i =
        tally-le (is_opener (turned b n) i) (is_opener fs i) (λ x h. ground arith) l

    turned-IsCounted :
        (b : Bool) (n : ℕ)
        → n + bit (fs.files f).deny_write ≡ (fs.inodes (fs.files f).inode).deny_write_cnt + bit b
        → IsCounted l (turned b n)
    turned-IsCounted b n h = record {
      deniers = λ i. elim (Bool-cases (i == (fs.files f).inode)) [
        | inl e ↦
            let q : i ≡ (fs.files f).inode = ground arith in
            ground (
              arith,
              q,
              turned-deniers b n i,
              c.deniers i,
              ap (λ x. (fs.inodes x).deny_write_cnt) q,
              h,
            )
        | inr e ↦ ground (arith, turned-deniers b n i, c.deniers i)
      ];
      openers = λ i. ground (arith, turned-openers b n i, c.openers i);
    }

    turned_cnt : (b : Bool) (n : ℕ) → ((turned b n).inodes (fs.files f).inode).deny_write_cnt ≡ n
    turned_cnt b n = ground arith

    -- The open files in `l` are counted as deniers in their inodes, and `f` is one of them. Then
    -- `file_deny_write` fails no assertion: the inode has an opener for each denier. The files are
    -- counted as before.
    pub file_deny_write-IsCounted : f ≢ null → Succeeds (IsCounted l) (file_deny_write f fs)
    unfolding file_deny_write inode_deny_write
    file_deny_write-IsCounted k =
        let z : (f == null) ≡ false = ground arith in
        elim (Bool-cases (fs.files f).deny_write) [
          | inl e ↦ rw (z, e) c
          | inr e ↦
              let j = (fs.files f).inode in
              let n = (fs.inodes j).deny_write_cnt + 1 in
              let t = turned-IsCounted true n (ground (arith, e)) in
              let le : tally (is_denier (turned true n) j) l
                  ≤ tally (is_opener (turned true n) j) l =
                tally-le (is_denier (turned true n) j) (is_opener (turned true n) j)
                  (λ x h. ground arith) l in
              let a : leb n (fs.inodes j).open_cnt ≡ true =
                ground (arith, t.deniers j, t.openers j, le) in
              rw (z, e, a) t
        ]

    -- What `file_allow_write` leaves.
    pub record IsAllowed (fs' : FileSys D) : Type 0 where
      pub counted : IsCounted l fs'
      pub allowed : (fs'.files f).deny_write ≡ false
      pub removed :
          (fs'.inodes (fs'.files f).inode).removed ≡ (fs.inodes (fs.files f).inode).removed

    file_allow_write-IsAllowed : f ≢ null → Succeeds IsAllowed (file_allow_write f fs)
    unfolding file_allow_write inode_allow_write
    file_allow_write-IsAllowed k =
        let z : (f == null) ≡ false = ground arith in
        elim (Bool-cases (fs.files f).deny_write) [
          | inr e ↦ rw (z, e) (record { counted = c; allowed = e; removed = refl })
          | inl e ↦
              let j = (fs.files f).inode in
              let n = (fs.inodes j).deny_write_cnt - 1 in
              let some_denier : ltb 0 (fs.inodes j).deny_write_cnt ≡ true =
                ground (arith, turned-deniers false n j, c.deniers j, e) in
              let t = turned-IsCounted false n (ground (arith, e, some_denier)) in
              let le : tally (is_denier fs j) l ≤ tally (is_opener fs j) l =
                tally-le (is_denier fs j) (is_opener fs j) (λ x h. ground arith) l in
              let a : leb (fs.inodes j).deny_write_cnt (fs.inodes j).open_cnt ≡ true =
                ground (arith, c.deniers j, c.openers j, le) in
              rw (z, e, some_denier, a)
                (record { counted = t; allowed = ground arith; removed = ground arith })
        ]

  module _ (l : List Ptr) (f : Ptr) where
    closed_IsCounted :
        (fs : FileSys D)
        → IsCounted (f ∷ l) fs
        → (fs.files f).deny_write ≡ false
        → IsCounted l (
            set_inode fs (fs.files f).inode (record (fs.inodes (fs.files f).inode) {
              open_cnt = (fs.inodes (fs.files f).inode).open_cnt - 1;
            }))
    closed_IsCounted fs c d = record {
      deniers = λ i. elim (Bool-cases (i == (fs.files f).inode)) [
        | inl e ↦
            let q : i ≡ (fs.files f).inode = ground arith in
            ground (arith, q, c.deniers i, d, ap (λ x. (fs.inodes x).deny_write_cnt) q)
        | inr e ↦ ground (arith, c.deniers i, d)
      ];
      openers = λ i. elim (Bool-cases (i == (fs.files f).inode)) [
        | inl e ↦
            let q : i ≡ (fs.files f).inode = ground arith in
            ground (arith, q, c.openers i, ap (λ x. (fs.inodes x).open_cnt) q)
        | inr e ↦ ground (arith, c.openers i)
      ];
    }

    not_removed :
        (b : Bool) (r : Result (FileSys D)) (fs : FileSys D)
        → b ≡ false
        → IsCounted l fs
        → Succeeds (IsCounted l) (if b then r else ok fs)
    not_removed true r fs h c = absurd (ground (arith, h))
    not_removed false r fs h c = c

    inode_close-IsCounted :
        (fs : FileSys D)
        → IsCounted (f ∷ l) fs
        → (fs.files f).deny_write ≡ false
        → (fs.inodes (fs.files f).inode).removed ≡ false
        → Succeeds (IsCounted l) (inode_close (fs.files f).inode fs)
    unfolding inode_close
    inode_close-IsCounted fs c d r =
        let j = (fs.files f).inode in
        let t = closed_IsCounted fs c d in
        elim (Bool-cases (j == null)) [
          | inl e ↦ rw e (record {
            deniers = λ i. ground (arith, c.deniers i, d);
            openers = λ i. ground (arith, c.openers i);
          })
          | inr e ↦ elim (Bool-cases ((fs.inodes j).open_cnt == 1)) [
            | inr n ↦ rw (e, n) t
            | inl n ↦
                rw (e, n)
                  (not_removed (fs.inodes j).removed _ _ r
                    (record { deniers = t.deniers; openers = t.openers }))
          ]
        ]

    -- The file `f` is open, once, and its inode is not removed. Then `file_close` fails no
    -- assertion, and the other open files are counted: the inode no longer counts `f` as a denier.
    pub file_close-IsCounted :
        (fs : FileSys D)
        → IsCounted (f ∷ l) fs
        → count f l ≡ 0
        → f ≢ null
        → (fs.inodes (fs.files f).inode).removed ≡ false
        → Succeeds (IsCounted l) (file_close f fs)
    unfolding file_close
    file_close-IsCounted fs c o k r =
        let z : (f == null) ≡ false = ground arith in
        rw z (
          Succeeds-bind (IsAllowed (f ∷ l) fs f c (ground (arith, o))) (IsCounted l) _ _
            (file_allow_write-IsAllowed (f ∷ l) fs f c (ground (arith, o)) k)
            λ fs' a. inode_close-IsCounted fs' a.counted a.allowed (a.removed ∙ r))
