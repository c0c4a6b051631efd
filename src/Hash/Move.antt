-- ===== src/Hash/Move.antt =====
-- Insertion into and removal from a bucket, and the move of all elements to new buckets.
use gpintosy.Prelude.{
  ℕ, zero, suc, ◌+◌, ◌-◌, ◌≤◌, ◌<◌, ◌≡◌, ◌≢◌, refl, Bool, false, ◌&&◌, List, [], ◌∷◌, arith, ltb,
  leb, ◌==◌, if◌then◌else◌, Bool-cases, inl, inr, ap,
}
use gpintosy.KernelList.Count.{count, count-keep_ne}
use gpintosy.Kernel.{Ptr, update}
use gpintosy.Hash.{
  Table, bucket_idx, insert_elem, remove_elem, move_bucket, move_buckets, best_bucket_cnt, rehash,
}
use gpintosy.Hash.Words.{bit_and-le, best_bucket_cnt_lem}
use gpintosy.Hash.Find.{same, held, IsTable}

module _ (hash : Ptr → ℕ) (less : Ptr → Ptr → Bool) (room : ℕ → Bool) where
  -- A table with the same elements.
  pub record IsSameTable (h h' : Table) : Type 0 where
    pub table : IsTable hash less room h'
    pub same_held : (p : Ptr) → held hash less room h' p ≡ held hash less room h p
    pub same_cnt : h'.elem_cnt ≡ h.elem_cnt

  module _ (cnt : ℕ) where
    abbrev idx : Ptr → ℕ
    idx = bucket_idx hash less room cnt

    move_bucket-count :
        (l : List Ptr) (new : ℕ → List Ptr) (j : ℕ) (p : Ptr)
        → count p (move_bucket hash less room cnt l new j)
          ≡ (if idx p == j then count p l else 0) + count p (new j)
    unfolding move_bucket
    move_bucket-count [] new j p = ground arith
    move_bucket-count (e ∷ l) new j p =
        ground (arith, move_bucket-count l (update new (idx e) (e ∷ new (idx e))) j p)

    -- How often an element stands in `n` buckets from one on.
    abbrev sum : ℕ → ℕ → (ℕ → List Ptr) → Ptr → ℕ
    sum zero i old p = 0
    sum (suc n) i old p = count p (old i) + sum n (suc i) old p

    move_buckets-count :
        (n i : ℕ) (old new : ℕ → List Ptr) (j : ℕ) (p : Ptr)
        → count p (move_buckets hash less room cnt n i old new j)
          ≡ (if idx p == j then sum n i old p else 0) + count p (new j)
    unfolding move_buckets
    move_buckets-count zero i old new j p = ground arith
    move_buckets-count (suc n) i old new j p = ground (
      arith,
      move_buckets-count n (suc i) old (move_bucket hash less room cnt (old i) new) j p,
      move_bucket-count (old i) new j p,
    )

  -- An element that stands in one bucket only.
  sum-one :
      (n i k : ℕ) (old : ℕ → List Ptr) (p : Ptr)
      → ((j : ℕ) → j ≢ k → count p (old j) ≡ 0)
      → sum 0 n i old p ≡ (if leb i k && ltb k (i + n) then count p (old k) else 0)
  sum-one zero i k old p h = ground arith
  sum-one (suc n) i k old p h = elim (Bool-cases (i == k)) [
    | inl e ↦
        let e' : i ≡ k = ground arith in
        ground (arith, sum-one n (suc i) k old p h, ap (λ x. count p (old x)) e')
    | inr e ↦ ground (arith, sum-one n (suc i) k old p h, h i)
  ]

  module _ (h : Table) (t : IsTable hash less room h) where
    abbrev moved : ℕ → Table
    moved cnt = record h {
      bucket_cnt = cnt;
      buckets = move_buckets hash less room cnt h.bucket_cnt 0 h.buckets (λ i. []);
    }

    idx-lt : (p : Ptr) → idx h.bucket_cnt p < h.bucket_cnt
    idx-lt p = omega (arith, bit_and-le (hash p) (h.bucket_cnt - 1), t.some_buckets)

    moved-count :
        (cnt j : ℕ) (p : Ptr)
        → count p ((moved cnt).buckets j) ≡ (if idx cnt p == j then held hash less room h p else 0)
    moved-count cnt j p = ground (
      arith,
      move_buckets-count cnt h.bucket_cnt 0 h.buckets (λ i. []) j p,
      sum-one h.bucket_cnt 0 (idx h.bucket_cnt p) h.buckets p (λ i. t.home i p),
      idx-lt p,
    )

    moved-held : (cnt : ℕ) (p : Ptr) → held hash less room (moved cnt) p ≡ held hash less room h p
    moved-held cnt p = ground (arith, moved-count cnt (idx cnt p) p)

    moved-IsSameTable : (cnt : ℕ) → cnt ≢ 0 → IsSameTable h (moved cnt)
    moved-IsSameTable cnt ne = record {
      table = record {
        some_buckets = ne;
        home = λ i p k. ground (arith, moved-count cnt i p);
        once = λ p. omega (arith, moved-held cnt p, t.once p);
        distinct = λ p q i j.
            t.distinct p q (omega (arith, moved-held cnt p)) (omega (arith, moved-held cnt q));
      };
      same_held = moved-held cnt;
      same_cnt = refl;
    }

    stays-IsSameTable : IsSameTable h h
    stays-IsSameTable = record { table = t; same_held = λ p. refl; same_cnt = refl }

    -- Rehashing, if there is memory for it, keeps the elements.
    pub rehash-IsSameTable : IsSameTable h (rehash hash less room h)
    unfolding rehash
    rehash-IsSameTable = elim (Bool-cases (best_bucket_cnt h.elem_cnt == h.bucket_cnt)) [
      | inl e ↦ rw e stays-IsSameTable
      | inr e ↦ elim (Bool-cases (room (best_bucket_cnt h.elem_cnt))) [
        | inl r ↦
            rw (e, r)
              (moved-IsSameTable (best_bucket_cnt h.elem_cnt) (best_bucket_cnt_lem h.elem_cnt).1)
        | inr r ↦ rw (e, r) stays-IsSameTable
      ]
    ]

    pub insert_elem-held :
        (e p : Ptr)
        → held hash less room (insert_elem hash less room h e) p
          ≡ (if p == e then 1 else 0) + held hash less room h p
    unfolding insert_elem
    insert_elem-held e p = ground arith

    -- An element that the table does not hold, nor one equal to it, goes into its bucket.
    pub insert_elem-IsTable :
        (e : Ptr)
        → ((p : Ptr) → 1 ≤ held hash less room h p → same hash less room p e ≡ false)
        → held hash less room h e ≡ 0
        → IsTable hash less room (insert_elem hash less room h e)
    unfolding insert_elem
    insert_elem-IsTable e fresh none_yet = record {
      some_buckets = t.some_buckets;
      home = λ i p k. ground (arith, t.home i p k);
      once = λ p. ground (arith, insert_elem-held e p, t.once p);
      distinct = λ p q i j s.
          ground
            (arith, insert_elem-held e p, insert_elem-held e q, t.distinct p q, fresh p, fresh q);
    }

    pub remove_elem-held :
        (e p : Ptr)
        → held hash less room (remove_elem hash less room h e) p
          ≡ (if p == e then 0 else held hash less room h p)
    unfolding remove_elem
    remove_elem-held e p = count-keep_ne p e (h.buckets (idx h.bucket_cnt p))

    pub remove_elem-IsTable : (e : Ptr) → IsTable hash less room (remove_elem hash less room h e)
    unfolding remove_elem
    remove_elem-IsTable e = record {
      some_buckets = t.some_buckets;
      home = λ i p k. ground (arith, count-keep_ne p e (h.buckets i), t.home i p k);
      once = λ p. ground (arith, remove_elem-held e p, t.once p);
      distinct = λ p q i j s.
          t.distinct p q (ground (arith, remove_elem-held e p))
            (ground (arith, remove_elem-held e q)) s;
    }
