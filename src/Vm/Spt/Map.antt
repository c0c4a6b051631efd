-- ===== src/Vm/Spt/Map.antt =====
-- The supplemental page table is a map from pages to entries.
use mathlib.Core.Path.{subst}
use Prim.Native.Nat.{bit_and}
use gpintosy.Prelude.{
  ℕ, ◌-◌, ◌≡◌, ◌≢◌, ◌≤◌, refl, sym, ap, ◌∙◌, Bool, false, ◌&&◌, Option, none, some, inl, inr, arith,
  ◌==◌, if◌then◌else◌, Bool-cases,
}
use gpintosy.KernelList.Count.{count}
use gpintosy.Kernel.{Ptr, null, Succeeds}
use gpintosy.Vaddr.{pg_ofs, pg_round_down}
use gpintosy.Hash.{Table, bucket_idx, hash_insert, hash_bytes, bytes_of_word}
use gpintosy.Hash.Find.{same, held, IsTable, IsCompatible, IsFound, hash_find-IsFound}
use gpintosy.Hash.Methods.{IsDone, inserted, hash_insert-IsDone}
use gpintosy.Vm.Spt.{spt_hash, spt_less, is_none, spt_insert, with_probe, spt_find}

module _ (room : ℕ → Bool) where
  same_page :
      (pages : Ptr → Ptr) (p q : Ptr)
      → same (spt_hash pages) (spt_less pages) room p q ≡ (pages p == pages q)
  unfolding spt_less
  same_page pages p q = ground arith

  spt_hash-IsCompatible : (pages : Ptr → Ptr) → IsCompatible (spt_hash pages) (spt_less pages) room
  unfolding spt_hash
  spt_hash-IsCompatible pages p q e =
      let s : pages p ≡ pages q = ground (arith, same_page pages p q, e) in
      ap (λ w. hash_bytes (bytes_of_word w)) s

  module _ (pages : Ptr → Ptr) where
    abbrev pub IsSpt : Table → Type 0
    IsSpt h = IsTable (spt_hash pages) (spt_less pages) room h

    -- How often the table holds an entry.
    abbrev pub listed : Table → Ptr → ℕ
    listed h p = held (spt_hash pages) (spt_less pages) room h p

    -- The entry of a page, if the table has one.
    abbrev Finds : Table → Ptr → Option Ptr → Type 0
    Finds h u none = (p : Ptr) → 1 ≤ listed h p → pages p ≢ u
    Finds h u (some p) = (1 ≤ listed h p) × (pages p ≡ u)

    Finds-unique :
        (h : Table) (u : Ptr) → IsSpt h → (r s : Option Ptr) → Finds h u r → Finds h u s → r ≡ s
    Finds-unique h u t none none a b = refl
    Finds-unique h u t none (some q) a b = absurd (a q b.0 b.1)
    Finds-unique h u t (some p) none a b = absurd (b p a.0 a.1)
    Finds-unique h u t (some p) (some q) a b =
        ap some (t.distinct p q a.0 b.0 (same_page pages p q ∙ ground (arith, a.1, b.1)))

    module _ (probe va : Ptr) (h : Table) (t : IsSpt h) (fresh : listed h probe ≡ 0) where
      abbrev pages' : Ptr → Ptr
      pages' = with_probe room pages probe va

      hash_other : (p : Ptr) → p ≢ probe → spt_hash pages' p ≡ spt_hash pages p
      unfolding spt_hash
      hash_other p n =
          let e : pages' p ≡ pages p = ground arith in ap (λ w. hash_bytes (bytes_of_word w)) e

      no_probe : (i : ℕ) → count probe (h.buckets i) ≡ 0
      no_probe i =
          let home = bucket_idx (spt_hash pages) (spt_less pages) room h.bucket_cnt probe in
          elim (Bool-cases (i == home)) [
            | inl e ↦
                let q : i ≡ home = ground arith in ap (λ j. count probe (h.buckets j)) q ∙ fresh
            | inr e ↦ t.home i probe (ground arith)
          ]

      listed_other :
          (p : Ptr) → p ≢ probe → held (spt_hash pages') (spt_less pages') room h p ≡ listed h p
      listed_other p n =
          ap (λ w. count p (h.buckets (bit_and w (h.bucket_cnt - 1)))) (hash_other p n)

      -- An entry that the table holds is not the one on the stack.
      not_probe : (p : Ptr) → 1 ≤ held (spt_hash pages') (spt_less pages') room h p → p ≢ probe
      not_probe p k = λ e.
          let i = bucket_idx (spt_hash pages') (spt_less pages') room h.bucket_cnt p in
          absurd (omega (arith, k, ap (λ q. count q (h.buckets i)) e, no_probe i))

      probed-IsTable : IsTable (spt_hash pages') (spt_less pages') room h
      probed-IsTable = record {
        some_buckets = t.some_buckets;
        home = λ i p n. elim (Bool-cases (p == probe)) [
          | inl e ↦
              let q : p ≡ probe = ground arith in ap (λ x. count x (h.buckets i)) q ∙ no_probe i
          | inr e ↦
              let d : p ≢ probe = ground arith in
              t.home i p
                (λ s. n (s ∙ ap (λ w. bit_and w (h.bucket_cnt - 1)) (sym (hash_other p d))))
        ];
        once = λ p. elim (Bool-cases (p == probe)) [
          | inl e ↦
              let q : p ≡ probe = ground arith in
              omega (
                arith,
                ap
                    (λ x. count x (
                      h.buckets
                        (bucket_idx (spt_hash pages') (spt_less pages') room h.bucket_cnt p)))
                    q,
                no_probe (bucket_idx (spt_hash pages') (spt_less pages') room h.bucket_cnt p),
              )
          | inr e ↦ let d : p ≢ probe = ground arith in omega (arith, listed_other p d, t.once p)
        ];
        distinct = λ p q k l e.
            let m = not_probe p k in
            let n = not_probe q l in
            t.distinct p q (omega (arith, listed_other p m)) (omega (arith, listed_other q n))
              (ground (arith, same_page pages p q, same_page pages' p q, e));
      }

      probed_Finds :
          (r : Option Ptr)
          → IsFound (spt_hash pages') (spt_less pages') room h probe r
          → Finds h (pg_round_down va) r
      probed_Finds none f = λ p k.
          let d : p ≢ probe = λ e. absurd (omega (arith, k, ap (λ q. listed h q) e, fresh)) in
          ground (arith, f p (omega (arith, listed_other p d)), same_page pages' p probe)
      probed_Finds (some p) f =
          let d = not_probe p f.0 in
          (omega (arith, listed_other p d, f.0), ground (arith, f.1, same_page pages' p probe))

      spt_find-Finds : Finds h (pg_round_down va) (spt_find room pages probe h va)
      unfolding spt_find
      spt_find-Finds = probed_Finds _ (
          hash_find-IsFound (spt_hash pages') (spt_less pages') room (spt_hash-IsCompatible pages')
            h probed-IsTable probe)

    module _ (h : Table) (e : Ptr) where
      -- What the search of a page finds after the insertion of `e`.
      Finds-inserted :
          (h' : Table) (r : Option Ptr) (u : Ptr)
          → ((p : Ptr) → listed h' p ≡ inserted (spt_hash pages) (spt_less pages) room h e r p)
          → (x : Option Ptr) → Finds h u x
          → Finds h' u (if is_none r && (u == pages e) then some e else x)
      Finds-inserted h' (some old) u k none f = λ p l. f p (omega (arith, l, k p))
      Finds-inserted h' (some old) u k (some p) f = (omega (arith, f.0, k p), f.1)
      Finds-inserted h' none u k x f = elim (Bool-cases (u == pages e)) [
        | inl q ↦ rw q (ground (arith, k e), ground arith)
        | inr q ↦ rw q (others q x f)
      ]
        where
          others : (u == pages e) ≡ false → (x : Option Ptr) → Finds h u x → Finds h' u x
          others q none f = λ p l. elim (Bool-cases (p == e)) [
            | inl s ↦
                let i : p ≡ e = ground arith in (λ z. absurd (ground (arith, ap pages i, z, q)))
            | inr s ↦ f p (ground (arith, k p))
          ]
          others q (some p) f = (ground (arith, k p, f.0), f.1)

    -- What `spt_insert` leaves: a table in which a search finds the new entry for the addresses of
    -- its page, if it was inserted, and for all other addresses what it found before. The new entry
    -- is inserted if there was none of its page.
    pub record IsInserted (h : Table) (e : Ptr) (r : Bool × Table) : Type 0 where
      pub table : IsSpt r.1
      pub finds :
          (probe va : Ptr)
          → probe ≢ e
          → listed h probe ≡ 0
          → spt_find room pages probe r.1 va ≡ (
              if r.0 && (pg_round_down va == pages e)
              then some e
              else spt_find room pages probe h va)
      pub answer :
          (probe : Ptr) → listed h probe ≡ 0 → r.0 ≡ is_none (spt_find room pages probe h (pages e))

    module _ (h : Table) (t : IsSpt h) (e : Ptr) where
      answer-Finds :
          (r : Option Ptr)
          → IsFound (spt_hash pages) (spt_less pages) room h e r
          → Finds h (pages e) r
      answer-Finds none f = λ p k. ground (arith, f p k, same_page pages p e)
      answer-Finds (some p) f = (f.0, ground (arith, f.1, same_page pages p e))

      fresh_after :
          (r : Option Ptr) (h' : Table) (probe : Ptr)
          → ((p : Ptr) → listed h' p ≡ inserted (spt_hash pages) (spt_less pages) room h e r p)
          → probe ≢ e
          → listed h probe ≡ 0
          → listed h' probe ≡ 0
      fresh_after none h' probe k n z = ground (arith, k probe)
      fresh_after (some p) h' probe k n z = k probe ∙ z

      round_page : pg_ofs (pages e) ≡ 0 → pg_round_down (pages e) ≡ pages e
      unfolding pg_ofs pg_round_down
      round_page a = omega (arith, a)

      done-IsInserted :
          (r : Option Ptr × Table)
          → pg_ofs (pages e) ≡ 0
          → IsDone
              (spt_hash pages)
              (spt_less pages)
              room
              h
              e
              (inserted (spt_hash pages) (spt_less pages) room h e)
              r
          → IsInserted h e (is_none r.0, r.1)
      done-IsInserted r a d = record {
        table = d.table;
        finds = λ probe va n z.
            Finds-unique r.1 (pg_round_down va) d.table _ _
              (spt_find-Finds probe va r.1 d.table (fresh_after r.0 r.1 probe d.holds n z))
              (Finds-inserted h e r.1 r.0 (pg_round_down va) d.holds _
                (spt_find-Finds probe va h t z));
        answer = λ probe z. ap is_none (
            Finds-unique h (pages e) t _ _ (answer-Finds r.0 d.answer) (
              subst (λ u. Finds h u (spt_find room pages probe h (pages e))) (round_page a)
                (spt_find-Finds probe (pages e) h t z)));
      }

      -- `spt_insert` of an entry that is not in the table, with a page other than NULL, fails no
      -- assertion. It answers whether `spt_find` finds no entry of that page. If so, `spt_find`
      -- then finds the entry for every address of its page; for all other addresses, and if not,
      -- it finds what it found before.
      pub spt_insert-IsInserted :
          listed h e ≡ 0
          → e ≢ null
          → pages e ≢ null
          → pg_ofs (pages e) ≡ 0
          → Succeeds (IsInserted h e) (spt_insert room pages h e)
      unfolding spt_insert
      spt_insert-IsInserted z n m a =
          let i : (e == null) ≡ false = ground arith in
          let j : (pages e == null) ≡ false = ground arith in
          rw (i, j, a)
            (done-IsInserted (hash_insert (spt_hash pages) (spt_less pages) room h e) a (
              hash_insert-IsDone (spt_hash pages) (spt_less pages) room
                (spt_hash-IsCompatible pages) h t e z))
