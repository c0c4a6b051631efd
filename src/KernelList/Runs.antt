-- ===== src/KernelList/Runs.antt =====
-- Runs, and the merge of two sorted ranges.
use mathlib.Core.List.{Perm, perm_middle, append-nil}
use mathlib.Core.List.Perm
use gpintosy.Prelude.{
  ℕ, suc, ◌+◌, ◌≤◌, ◌≡◌, refl, Bool, true, false, inl, inr, List, [], ◌∷◌, ◌++◌, arith, length,
  keep, Bool-cases, if◌then◌else◌,
}
use gpintosy.KernelList.{is_sorted, find_end_of_run, inplace_merge}
use gpintosy.KernelList.Order.{IsStrictOrder, Below, IsSorted, Below-trans}

module _ {ℓ} {A : Type ℓ} (less : A → A → Bool) where
  -- Maximal runs: one more than the places where a neighbour is less.
  unfoldable pub runs : List A → ℕ
  runs [] = 0
  runs (a ∷ []) = 1
  runs (a ∷ b ∷ l) = (if less b a then 1 else 0) + runs (b ∷ l)

  runs-pos : (a : A) (l : List A) → 1 ≤ runs (a ∷ l)
  unfolding runs
  runs-pos a [] = omega arith
  runs-pos a (b ∷ l) = omega (arith, runs-pos b l)

  pub runs-le-length : (l : List A) → runs l ≤ length l
  unfolding runs
  runs-le-length [] = omega arith
  runs-le-length (a ∷ []) = omega arith
  runs-le-length (a ∷ b ∷ l) = ground (arith, runs-le-length (b ∷ l))

  pub runs-append : (k l : List A) → runs (k ++ l) ≤ runs k + runs l
  unfolding runs
  runs-append [] l = omega arith
  runs-append (a ∷ []) [] = omega arith
  runs-append (a ∷ []) (b ∷ l) = ground arith
  runs-append (a ∷ b ∷ k) l = omega (arith, runs-append (b ∷ k) l)

  pub is_sorted_of_runs : (l : List A) → runs l ≤ 1 → is_sorted less l ≡ true
  unfolding runs is_sorted
  is_sorted_of_runs [] h = refl
  is_sorted_of_runs (a ∷ []) h = refl
  is_sorted_of_runs (a ∷ b ∷ l) h = ground (arith, runs-pos b l, is_sorted_of_runs (b ∷ l))

  pub runs_of_is_sorted : (l : List A) → is_sorted less l ≡ true → runs l ≤ 1
  unfolding runs is_sorted
  runs_of_is_sorted [] h = omega arith
  runs_of_is_sorted (a ∷ []) h = omega arith
  runs_of_is_sorted (a ∷ b ∷ l) h = ground (arith, runs_of_is_sorted (b ∷ l))

  pub is_sorted_of_IsSorted : (l : List A) → IsSorted less l → is_sorted less l ≡ true
  unfolding is_sorted
  is_sorted_of_IsSorted [] h = refl
  is_sorted_of_IsSorted (a ∷ []) h = refl
  is_sorted_of_IsSorted (a ∷ b ∷ l) h = ground (arith, is_sorted_of_IsSorted (b ∷ l) h.1)

  -- What `find_end_of_run` splits off is one sorted run, and the rest has one run fewer.
  pub record IsRun (a : A) (l : List A) (out : List A × List A) : Type ℓ where
    pub starts : (t : List A) × (out.0 ≡ a ∷ t)
    pub whole : out.0 ++ out.1 ≡ a ∷ l
    pub sorted : is_sorted less out.0 ≡ true
    pub fewer : runs (a ∷ l) ≡ suc (runs out.1)
    pub shorter : length out.1 ≤ length l

  pub find_end_of_run-IsRun : (a : A) (l : List A) → IsRun a l (find_end_of_run less a l)
  unfolding find_end_of_run is_sorted runs
  find_end_of_run-IsRun a [] = record {
    starts = ([], refl);
    whole = refl;
    sorted = refl;
    fewer = refl;
    shorter = omega arith;
  }
  find_end_of_run-IsRun a (b ∷ l) = longer (find_end_of_run-IsRun b l)
    where
      longer :
          IsRun b l (find_end_of_run less b l) → IsRun a (b ∷ l) (find_end_of_run less a (b ∷ l))
      longer r = elim (Bool-cases (less b a)) [
        | inl h ↦
            rw (h, find_end_of_run)
              (record {
                starts = ([], refl);
                whole = refl;
                sorted = refl;
                fewer = rw h (omega arith);
                shorter = omega arith;
              })
        | inr h ↦
            rw (h, find_end_of_run)
              (record {
                starts = (_, refl);
                whole = rw r.whole;
                sorted = rw r.starts.1 (rw h (rw r.starts.1 at r.sorted));
                fewer = rw h (omega (arith, r.fewer));
                shorter = omega (arith, r.shorter);
              })
      ]

  Below-inplace_merge :
      (a : A) (k l : List A)
      → Below less a k
      → Below less a l
      → Below less a (inplace_merge less k l)
  unfolding inplace_merge
  Below-inplace_merge a [] l h i = i
  Below-inplace_merge a (x ∷ k) [] h i = h
  Below-inplace_merge a (x ∷ k) (y ∷ l) h i =
      ground (arith, Below-inplace_merge a (x ∷ k) l h i.1, Below-inplace_merge a k (y ∷ l) h.1 i)

  pub inplace_merge-perm : (k l : List A) → Perm (inplace_merge less k l) (k ++ l)
  unfolding inplace_merge
  inplace_merge-perm [] l = Perm.refl l
  inplace_merge-perm (x ∷ k) [] = rw append-nil (Perm.refl _)
  inplace_merge-perm (x ∷ k) (y ∷ l) = elim (Bool-cases (less y x)) [
    | inl h ↦
        rw (h, inplace_merge)
          (Perm.trans (Perm.cons y (inplace_merge-perm (x ∷ k) l))
            (Perm.symm (perm_middle (x ∷ k) l)))
    | inr h ↦ rw (h, inplace_merge) (Perm.cons x (inplace_merge-perm k (y ∷ l)))
  ]

module _ {ℓ} {A : Type ℓ} (less : A → A → Bool) (order : IsStrictOrder less) where
  pub inplace_merge-IsSorted :
      (k l : List A) → IsSorted less k → IsSorted less l → IsSorted less (inplace_merge less k l)
  unfolding inplace_merge
  inplace_merge-IsSorted [] l h i = i
  inplace_merge-IsSorted (x ∷ k) [] h i = h
  inplace_merge-IsSorted (x ∷ k) (y ∷ l) h i = ground (
    arith,
    inplace_merge-IsSorted (x ∷ k) l h i.1,
    inplace_merge-IsSorted k (y ∷ l) h.1 i,
    order.asym y x,
    Below-inplace_merge less y (x ∷ k) l,
    Below-inplace_merge less x k (y ∷ l),
    Below-trans less order y x k,
    Below-trans less order x y l,
  )

  -- The entries that `p` picks out are equals of one another.
  abbrev pub IsClass : (A → Bool) → Type ℓ
  IsClass p = (x y : A) → p x ≡ true → p y ≡ true → less x y ≡ false

  module _ (p : A → Bool) (class : IsClass p) where
    -- An entry of the class that is less than a sorted list's head has no equal in that list.
    keep-above :
        (y x : A) (k : List A) → less y x ≡ true → p y ≡ true → Below less x k → keep p k ≡ []
    keep-above y x [] h e b = refl
    keep-above y x (z ∷ k) h e b =
        ground (arith, class y z e, order.trans x z y b.0, keep-above y x k h e b.1)

    pub keep-inplace_merge :
        (k l : List A) → IsSorted less k → keep p (inplace_merge less k l) ≡ keep p k ++ keep p l
    unfolding inplace_merge
    keep-inplace_merge [] l h = refl
    keep-inplace_merge (x ∷ k) [] h = rw append-nil
    keep-inplace_merge (x ∷ k) (y ∷ l) h = ground (
      arith,
      keep-inplace_merge (x ∷ k) l h,
      keep-inplace_merge k (y ∷ l) h.1,
      class y x,
      keep-above y x k,
    )
