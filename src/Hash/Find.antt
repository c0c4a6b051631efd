-- ===== src/Hash/Find.antt =====
-- What a table holds, and the search in a bucket.
use Prim.Native.Nat.{bit_and}
use gpintosy.Prelude.{
  ℕ, ◌-◌, ◌≤◌, ◌≡◌, ◌≢◌, Bool, true, false, not, ◌&&◌, Option, none, some, List, [], ◌∷◌, arith,
  Bool-cases, inl, inr, sym, ap,
}
use gpintosy.KernelList.Count.{count}
use gpintosy.Kernel.{Ptr}
use gpintosy.Hash.{Table, bucket_idx, find_bucket, find_elem, hash_find}

module _ (hash : Ptr → ℕ) (less : Ptr → Ptr → Bool) (room : ℕ → Bool) where
  -- Neither of two elements is less than the other.
  abbrev pub same : Ptr → Ptr → Bool
  same p q = not (less p q) && not (less q p)

  -- Equal elements have the same hash.
  abbrev pub IsCompatible : Type 0
  IsCompatible = (p q : Ptr) → same p q ≡ true → hash p ≡ hash q

  -- How often a table holds an element.
  abbrev pub held : Table → Ptr → ℕ
  held h p = count p (h.buckets (bucket_idx hash less room h.bucket_cnt p))

  -- An element stands in the bucket of its hash only, and once; no two equal elements are held.
  pub record IsTable (h : Table) : Type 0 where
    pub some_buckets : h.bucket_cnt ≢ 0
    pub home :
        (i : ℕ) (p : Ptr) → i ≢ bucket_idx hash less room h.bucket_cnt p → count p (h.buckets i) ≡ 0
    pub once : (p : Ptr) → held h p ≤ 1
    pub distinct : (p q : Ptr) → 1 ≤ held h p → 1 ≤ held h q → same p q ≡ true → p ≡ q

  -- The answer of a search: a held element equal to `e`, or none is.
  abbrev pub IsFound : Table → Ptr → Option Ptr → Type 0
  IsFound h e none = (p : Ptr) → 1 ≤ held h p → same p e ≡ false
  IsFound h e (some p) = (1 ≤ held h p) × (same p e ≡ true)

  abbrev InBucket : List Ptr → Ptr → Option Ptr → Type 0
  InBucket l e none = (p : Ptr) → 1 ≤ count p l → same p e ≡ false
  InBucket l e (some p) = (1 ≤ count p l) × (same p e ≡ true)

  InBucket-cons :
      (a : Ptr) (l : List Ptr) (e : Ptr) (r : Option Ptr)
      → same a e ≡ false
      → InBucket l e r
      → InBucket (a ∷ l) e r
  InBucket-cons a l e none h f = λ p k. ground (arith, f p)
  InBucket-cons a l e (some p) h f = (omega (arith, f.0), f.1)

  find_elem-InBucket : (l : List Ptr) (e : Ptr) → InBucket l e (find_elem hash less room l e)
  unfolding find_elem
  find_elem-InBucket [] e = λ p h. absurd (omega arith)
  find_elem-InBucket (a ∷ l) e = elim (Bool-cases (same a e)) [
    | inl h ↦ rw h (ground arith, h)
    | inr h ↦ rw h (InBucket-cons a l e _ h (find_elem-InBucket l e))
  ]

  module _ (compatible : IsCompatible) (h : Table) (t : IsTable h) (e : Ptr) where
    same-bucket :
        (p : Ptr)
        → same p e ≡ true
        → find_bucket hash less room h e ≡ find_bucket hash less room h p
    unfolding find_bucket
    same-bucket p s = ap (λ x. h.buckets (bit_and x (h.bucket_cnt - 1))) (sym (compatible p e s))

    found : (r : Option Ptr) → InBucket (find_bucket hash less room h e) e r → IsFound h e r
    unfolding find_bucket
    found none f =
        λ p k. elim (Bool-cases (same p e)) [ inl s ↦ f p (rw (same-bucket p s) k) | inr s ↦ s ]
    found (some p) (k, s) = (rw (← same-bucket p s) k, s)

    -- In a table whose elements stand in the buckets of their hashes, with a hash that is the same
    -- for equal elements, `hash_find` returns a held element that is equal, if there is one.
    pub hash_find-IsFound : IsFound h e (hash_find hash less room h e)
    unfolding hash_find
    hash_find-IsFound = found _ (find_elem-InBucket (find_bucket hash less room h e) e)
