-- ===== src/Examples/Lists.antt =====
-- The theorems on lists at a list of four entries.
use mathlib.Core.List.{Perm}
use gpintosy.Prelude.{ℕ, zero, suc, ◌≡◌, Bool, List, [], ◌∷◌, keep}
use gpintosy.KernelList.{list_sort}
use gpintosy.KernelList.Order.{descending, descending-IsStrictOrder, IsSorted, front, back}
use gpintosy.KernelList.Sort.{list_sort-IsSorting}
use gpintosy.KernelList.Runs.{IsClass}

-- The entries are numbers of which only the half counts.
abbrev half : ℕ → ℕ
half zero = zero
half (suc zero) = zero
half (suc (suc n)) = suc (half n)

abbrev entries : List ℕ
entries = 3 ∷ 8 ∷ 2 ∷ 5 ∷ []

list_sort-IsSorting_example :
    Perm (list_sort (descending half) entries) entries
    × IsSorted (descending half) (list_sort (descending half) entries)
    × ((p : ℕ → Bool)
        → IsClass (descending half) (descending-IsStrictOrder half) p
        → keep p (list_sort (descending half) entries) ≡ keep p entries)
list_sort-IsSorting_example =
    list_sort-IsSorting (descending half) (descending-IsStrictOrder half) entries

abbrev queue : List ℕ
queue = 9 ∷ 6 ∷ 3 ∷ []

abbrev ahead : List ℕ
ahead = front (descending half) (descending-IsStrictOrder half) queue 7

abbrev behind : List ℕ
behind = back (descending half) (descending-IsStrictOrder half) queue 7
