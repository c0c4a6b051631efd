-- ===== src/KernelList/Count.antt =====
-- How often a pointer stands in a list, and what the list operations do to that number.
use gpintosy.Prelude.{
  ℕ, ◌+◌, ◌≤◌, ◌≡◌, refl, ◌∙◌, sym, ap, Bool, false, List, [], ◌∷◌, ◌++◌, arith, ◌==◌, ==_iff, not,
  length, keep, if◌then◌else◌,
}
use gpintosy.KernelList.{insert_ordered, list_sort}
use gpintosy.KernelList.Order.{IsStrictOrder, Below}
use gpintosy.KernelList.Sort.{list_sort-IsSorting}

abbrev pub count : ℕ → List ℕ → ℕ
count t [] = 0
count t (x ∷ l) = (if x == t then 1 else 0) + count t l

pub count-append : (t : ℕ) (k l : List ℕ) → count t (k ++ l) ≡ count t k + count t l
count-append t [] l = omega arith
count-append t (x ∷ k) l = omega (arith, count-append t k l)

pub count-keep_ne :
    (t c : ℕ) (l : List ℕ)
    → count t (keep (λ x. not (x == c)) l) ≡ (if t == c then 0 else count t l)
count-keep_ne t c [] = ground arith
count-keep_ne t c (x ∷ l) = ground (arith, count-keep_ne t c l)

module _ (less : ℕ → ℕ → Bool) where
  pub count-insert_ordered :
      (t x : ℕ) (l : List ℕ)
      → count t (insert_ordered less l x) ≡ (if x == t then 1 else 0) + count t l
  unfolding insert_ordered
  count-insert_ordered t x [] = refl
  count-insert_ordered t x (e ∷ l) = ground (arith, count-insert_ordered t x l)

  length-keep : (t : ℕ) (l : List ℕ) → length (keep (λ x. x == t) l) ≡ count t l
  length-keep t [] = refl
  length-keep t (x ∷ l) = ground (arith, length-keep t l)

  pub count-list_sort :
      (order : IsStrictOrder less) (t : ℕ) (l : List ℕ) → count t (list_sort less l) ≡ count t l
  count-list_sort order t l =
      sym (length-keep t (list_sort less l))
      ∙ ap length (
          (list_sort-IsSorting less order l).2 (λ x. x == t)
            λ x y h k. ground (arith, order.asym x y, ==_iff x t, ==_iff y t))
      ∙ length-keep t l

  -- Nothing that stands in the list is less than an entry below which there is nothing.
  pub Below-count : (a d : ℕ) (l : List ℕ) → Below less a l → 1 ≤ count d l → less d a ≡ false
  Below-count a d [] h i = absurd (omega arith)
  Below-count a d (x ∷ l) h i = ground (arith, Below-count a d l h.1)
