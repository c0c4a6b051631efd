-- ===== src/KernelList/Sort.antt =====
-- `list_sort` ends, and returns a stable ordering of the same entries.
use mathlib.Core.List.{Perm, append_assoc, append-nil}
use mathlib.Core.List.Perm
use gpintosy.Prelude.{
  ℕ, zero, suc, ◌+◌, ◌≤◌, ◌≡◌, refl, sym, ap, ◌∙◌, Bool, true, inl, inr, List, [], ◌∷◌, ◌++◌, arith,
  length, keep, keep-append, Bool-cases, ltb,
}
use gpintosy.KernelList.{
  is_sorted, find_end_of_run, inplace_merge, second_run, sort_pass, sort_passes, list_sort,
}
use gpintosy.KernelList.Order.{IsStrictOrder, IsSorted, IsSorted-of_is_sorted}
use gpintosy.KernelList.Runs.{
  runs, runs-le-length, runs-append, is_sorted_of_runs, runs_of_is_sorted, is_sorted_of_IsSorted,
  IsRun, find_end_of_run-IsRun, inplace_merge-perm, inplace_merge-IsSorted, IsClass,
  keep-inplace_merge,
}

module _ {ℓ} {A : Type ℓ} (less : A → A → Bool) (order : IsStrictOrder less) where
  -- What a pass over `l` puts out.
  record IsPass (l : List A) (out : ℕ × List A) : Type ℓ where
    perm : Perm out.1 l
    halved : out.0 + out.0 ≤ runs less l + 1
    few : runs less out.1 ≤ out.0
    stable : (p : A → Bool) → IsClass less order p → keep p out.1 ≡ keep p l

  record IsMerge (k l : List A) (out : List A) : Type ℓ where
    perm : Perm out (k ++ l)
    sorted : runs less out ≤ 1
    stable : (p : A → Bool) → IsClass less order p → keep p out ≡ keep p k ++ keep p l

  inplace_merge-IsMerge :
      (k l : List A)
      → is_sorted less k ≡ true
      → is_sorted less l ≡ true
      → IsMerge k l (inplace_merge less k l)
  inplace_merge-IsMerge k l h i =
      let hk = IsSorted-of_is_sorted less order k h in
      let hl = IsSorted-of_is_sorted less order l i in
      record {
        perm = inplace_merge-perm less k l;
        sorted =
            runs_of_is_sorted less _
              (is_sorted_of_IsSorted less _ (inplace_merge-IsSorted less order k l hk hl));
        stable = λ p class. keep-inplace_merge less order p class k l hk;
      }

  nil-IsPass : IsPass [] (0, [])
  unfolding runs
  nil-IsPass = record {
    perm = Perm.refl [];
    halved = omega arith;
    few = omega arith;
    stable = λ p class. refl;
  }

  -- A round and a pass over what is behind it make a pass over the whole.
  second_run-IsPass :
      (next : List A → ℕ × List A) (a : A) (l run rest : List A)
      → IsRun less a l (run, rest)
      → ((r : List A) → length r ≤ length l → IsPass r (next r))
      → IsPass (a ∷ l) (second_run less next (run, rest))
  unfolding second_run
  second_run-IsPass next a l run [] r pass = record {
    perm = rw (← r.whole, append-nil) (Perm.refl run);
    halved = omega (arith, r.fewer);
    few = runs_of_is_sorted less run r.sorted;
    stable = λ p class. ap (keep p) (sym (append-nil run) ∙ r.whole);
  }
  second_run-IsPass next a l run (b ∷ l') r pass =
      let pair = find_end_of_run less b l' in
      let r' = find_end_of_run-IsRun less b l' in
      let more = pass pair.1 (omega (arith, r'.shorter, r.shorter)) in
      let m = inplace_merge-IsMerge run pair.0 r.sorted r'.sorted in
      record {
        perm = rw (← r.whole, ← r'.whole, ← append_assoc) (Perm.append m.perm more.perm);
        halved = omega (arith, more.halved, r.fewer, r'.fewer);
        few = omega (
          arith,
          runs-append less (inplace_merge less run pair.0) (next pair.1).1,
          m.sorted,
          more.few,
        );
        stable = λ p class. cc (
          keep-append p (inplace_merge less run pair.0) (next pair.1).1,
          m.stable p class,
          more.stable p class,
          keep-append p run (b ∷ l'),
          keep-append p pair.0 pair.1,
          append_assoc (keep p run) (keep p pair.0) (keep p pair.1),
          ap (keep p) r.whole,
          ap (keep p) r'.whole,
        );
      }

  sort_pass-IsPass : (n : ℕ) (l : List A) → length l ≤ n → IsPass l (sort_pass less n l)
  unfolding sort_pass
  sort_pass-IsPass zero [] h = nil-IsPass
  sort_pass-IsPass zero (a ∷ l) h = absurd (omega arith)
  sort_pass-IsPass (suc n) [] h = nil-IsPass
  sort_pass-IsPass (suc n) (a ∷ l) h =
      second_run-IsPass (sort_pass less n) a l _ _ (find_end_of_run-IsRun less a l)
        λ r k. sort_pass-IsPass n r (omega arith)

  record IsSorting (l out : List A) : Type ℓ where
    pub perm : Perm out l
    pub sorted : IsSorted less out
    pub stable : (p : A → Bool) → IsClass less order p → keep p out ≡ keep p l

  sort_passes-IsSorting :
      (n : ℕ) (l : List A) → runs less l ≤ n → IsSorting l (sort_passes less n l)
  unfolding sort_passes
  sort_passes-IsSorting zero l h = record {
    perm = Perm.refl l;
    sorted = IsSorted-of_is_sorted less order l (is_sorted_of_runs less l (omega arith));
    stable = λ p class. refl;
  }
  sort_passes-IsSorting (suc n) l h =
      let pass = sort_pass-IsPass (length l) l (omega arith) in
      let out : List A = (sort_pass less (length l) l).1 in
      elim (Bool-cases (ltb 1 (sort_pass less (length l) l).0)) [
        | inl e ↦
            let rest = sort_passes-IsSorting n out (ground (arith, pass.few, pass.halved)) in
            rw (e, sort_passes)
              (record {
                perm = Perm.trans rest.perm pass.perm;
                sorted = rest.sorted;
                stable = λ p class. rest.stable p class ∙ pass.stable p class;
              })
        | inr e ↦
            let few : runs less out ≤ 1 = ground (arith, pass.few) in
            rw (e, sort_passes)
              (record {
                perm = pass.perm;
                sorted = IsSorted-of_is_sorted less order _ (is_sorted_of_runs less _ few);
                stable = pass.stable;
              })
      ]

  -- For a strict order, `list_sort` returns a permutation of the list in which no entry is less
  -- than one before it, and it keeps the relative order of entries that are equals.
  pub list_sort-IsSorting :
      (l : List A)
      → Perm (list_sort less l) l
        × IsSorted less (list_sort less l)
        × ((p : A → Bool) → IsClass less order p → keep p (list_sort less l) ≡ keep p l)
  unfolding list_sort
  list_sort-IsSorting l =
      let s = sort_passes-IsSorting (length l + 1) l (omega (arith, runs-le-length less l)) in
      (s.perm, s.sorted, s.stable)
