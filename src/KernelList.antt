-- ===== src/KernelList.antt =====
-- src/lib/kernel/list.c: ordered insertion and the natural merge sort that the scheduler's queues
-- use. A doubly linked list is the list of its elements in order; an inner pointer is the rest of
-- the list from it on. `less` is the comparison function that the caller passes.
pub mod Count
pub mod Order
pub mod Runs
pub mod Sort
use gpintosy.Prelude.{
  ℕ, zero, suc, ◌+◌, Bool, true, false, List, [], ◌∷◌, ◌++◌, ltb, length, if◌then◌else◌,
}

module _ {ℓ} {A : Type ℓ} (less : A → A → Bool) where
  -- The loop stops at the first entry above `x`; `list_insert` puts `x` before it.
  unfoldable pub insert_ordered : List A → A → List A
  insert_ordered [] x = x ∷ []
  insert_ordered (e ∷ l) x = if less x e then x ∷ e ∷ l else e ∷ insert_ordered l x

  unfoldable pub is_sorted : List A → Bool
  is_sorted [] = true
  is_sorted (a ∷ []) = true
  is_sorted (a ∷ b ∷ l) = if less b a then false else is_sorted (b ∷ l)

  -- The run that starts at `a`, and what stands behind its end.
  unfoldable pub find_end_of_run : A → List A → List A × List A
  find_end_of_run a [] = (a ∷ [], [])
  find_end_of_run a (b ∷ l) =
      let (run, rest) = find_end_of_run b l in if less b a then (a ∷ [], b ∷ l) else (a ∷ run, rest)

  -- An entry of the second range moves before the first one only if it is strictly less.
  unfoldable pub inplace_merge : List A → List A → List A
  inplace_merge [] r = r
  inplace_merge (a ∷ l) [] = a ∷ l
  inplace_merge (a ∷ l) (b ∷ r) = elim (less b a) [
    | true ↦ b ∷ inplace_merge (a ∷ l) r
    | false ↦ a ∷ inplace_merge l (b ∷ r)
  ]

  -- One round of a pass, from the end of its first run on: the number of runs that it and the
  -- rounds after it put out, and the list. `next` is the rest of the pass.
  unfoldable pub second_run : (List A → ℕ × List A) → List A × List A → ℕ × List A
  unfolding find_end_of_run inplace_merge
  second_run next (run, []) = (1, run)
  second_run next (run, b ∷ l) =
      let (run', rest) = find_end_of_run b l in
      let (count, out) = next rest in (suc count, inplace_merge run run' ++ out)

  -- The `for` over the list. A round takes at least one entry, so the length is enough fuel.
  unfoldable pub sort_pass : ℕ → List A → ℕ × List A
  unfolding second_run
  sort_pass zero l = (0, l)
  sort_pass (suc n) [] = (0, [])
  sort_pass (suc n) (a ∷ l) = second_run (sort_pass n) (find_end_of_run a l)

  -- The `do … while (output_run_cnt > 1)`.
  unfoldable pub sort_passes : ℕ → List A → List A
  unfolding sort_pass
  sort_passes zero l = l
  sort_passes (suc n) l =
      let (count, out) = sort_pass (length l) l in
      let again = sort_passes n out in if ltb 1 count then again else out

  -- A pass leaves fewer runs than it found, so one pass for each entry is enough.
  unfoldable pub list_sort : List A → List A
  unfolding sort_passes
  list_sort l = sort_passes (length l + 1) l
