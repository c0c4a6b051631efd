-- ===== src/Donation/Restore.antt =====
-- `thread_recall_donation` and `thread_set_priority`: the priority that is left to a thread.
use mathlib.Core.Path.{subst}
use gpintosy.Prelude.{
  ◌≤◌, ◌≡◌, ◌≢◌, refl, sym, ap, ◌∙◌, not, ◌⊎◌, inl, inr, List, [], ◌∷◌, arith, ◌==◌, keep,
  Bool-cases, if◌then◌else◌,
}
use gpintosy.Prelude.Int.{ℤ, ltb_ℤ, ◌≤ℤ◌}
use gpintosy.KernelList.{list_sort}
use gpintosy.KernelList.Order.{IsSorted}
use gpintosy.KernelList.Count.{count, count-list_sort, Below-count}
use gpintosy.KernelList.Sort.{list_sort-IsSorting}
use gpintosy.Kernel.{Ptr, running, Kernel, set_thread, set_priority, thread_current}
use gpintosy.Priorities.{donor_priority_compare-IsStrictOrder}
use gpintosy.Kernel.{Succeeds}
use gpintosy.Donation.{donor_priority_compare, restore_priority, thread_recall_donation}
use gpintosy.Donation.Chain.{priority}

-- `p` is the greater of a base priority and the priorities of the threads in a list.
pub record IsGreatest (k : Kernel) (base : ℤ) (donors : List Ptr) (p : ℤ) : Type 0 where
  pub base_le : base ≤ℤ p
  pub donor_le : (d : Ptr) → 1 ≤ count d donors → priority k d ≤ℤ p
  pub reached : (p ≡ base) ⊎ ((d : Ptr) × (1 ≤ count d donors) × (p ≡ priority k d))

-- What `restore_priority` leaves: the thread's priority is the greatest of its base and its donors'
-- priorities, its donors are the same, and the other threads are as they were.
pub record IsRestored (cur : Ptr) (k k' : Kernel) : Type 0 where
  pub greatest :
      IsGreatest k (k.threads cur).base_priority (k.threads cur).donors_list (priority k' cur)
  pub donors :
      (d : Ptr) → count d (k'.threads cur).donors_list ≡ count d (k.threads cur).donors_list
  pub others : (u : Ptr) → u ≢ cur → k'.threads u ≡ k.threads u

abbrev based : Ptr → Kernel → Kernel
based cur k = set_priority k cur (k.threads cur).base_priority

module _ (cur : Ptr) (k : Kernel) (own : count cur (k.threads cur).donors_list ≡ 0) where
  abbrev sorted_donors : List Ptr
  sorted_donors = list_sort (donor_priority_compare (based cur k)) (k.threads cur).donors_list

  sorted_donors-count : (u : Ptr) → count u sorted_donors ≡ count u (k.threads cur).donors_list
  sorted_donors-count u =
      count-list_sort _ (donor_priority_compare-IsStrictOrder (based cur k)) u
        (k.threads cur).donors_list

  -- The first of the sorted donors has the highest priority.
  first_greatest :
      (d : Ptr) (l : List Ptr)
      → sorted_donors ≡ d ∷ l
      → (u : Ptr) → 1 ≤ count u (k.threads cur).donors_list
      → priority k u ≤ℤ priority k d
  unfolding donor_priority_compare
  first_greatest d l e u h =
      let sorted =
        (list_sort-IsSorting _ (donor_priority_compare-IsStrictOrder (based cur k))
          (k.threads cur).donors_list).1 in
      let sorted' : IsSorted (donor_priority_compare (based cur k)) (d ∷ l) =
        subst (IsSorted (donor_priority_compare (based cur k))) e sorted in
      let same : (w : Ptr) → count w (d ∷ l) ≡ count w (k.threads cur).donors_list =
        λ w. ap (count w) (sym e) ∙ sorted_donors-count w in
      ground (
        arith,
        own,
        same u,
        same d,
        Below-count (donor_priority_compare (based cur k)) d u l sorted'.0,
      )

  no_donors : sorted_donors ≡ [] → IsRestored cur k (restore_priority cur k)
  unfolding restore_priority
  no_donors e =
      let same : (w : Ptr) → 0 ≡ count w (k.threads cur).donors_list =
        λ w. ap (count w) (sym e) ∙ sorted_donors-count w in
      rw (e, restore_priority)
        (record {
          greatest = record {
            base_le = ground arith;
            donor_le = λ d h. absurd (omega (arith, same d));
            reached = inl (ground arith);
          };
          donors = λ d. ground arith;
          others = λ u ne. ground arith;
        })

  reach :
      (d : Ptr) (l : List Ptr)
      → sorted_donors ≡ d ∷ l
      → let p = priority (restore_priority cur k) cur in
        (p ≡ (k.threads cur).base_priority)
        ⊎ ((u : Ptr) × (1 ≤ count u (k.threads cur).donors_list) × (p ≡ priority k u))
  unfolding restore_priority
  reach d l e =
      let same : count d (d ∷ l) ≡ count d (k.threads cur).donors_list =
        ap (count d) (sym e) ∙ sorted_donors-count d in
      elim (Bool-cases (ltb_ℤ (k.threads cur).base_priority (priority k d))) [
        | inl h ↦
            inr (d, ground (arith, same), rw (e, restore_priority) (ground (arith, same, own)))
        | inr h ↦ inl (rw (e, restore_priority) (ground (arith, same, own)))
      ]

  some_donors :
      (d : Ptr) (l : List Ptr) → sorted_donors ≡ d ∷ l → IsRestored cur k (restore_priority cur k)
  unfolding restore_priority
  some_donors d l e =
      let same : (w : Ptr) → count w (d ∷ l) ≡ count w (k.threads cur).donors_list =
        λ w. ap (count w) (sym e) ∙ sorted_donors-count w in
      rw (e, restore_priority)
        (record {
          greatest = record {
            base_le = ground (arith, same d, own);
            donor_le = λ u h. ground (arith, first_greatest d l e u h, same d, own);
            reached = rw (e, restore_priority) at (reach d l e);
          };
          donors = λ u. ground (arith, same u);
          others = λ u ne. ground arith;
        })

  pub restore_priority-IsRestored : IsRestored cur k (restore_priority cur k)
  restore_priority-IsRestored = pick sorted_donors refl
    where
      pick : (l : List Ptr) → sorted_donors ≡ l → IsRestored cur k (restore_priority cur k)
      pick [] e = no_donors e
      pick (d ∷ l) e = some_donors d l e

-- The donors of the current thread that do not wait for `lock`.
abbrev IsOther : Kernel → Ptr → Ptr → Type 0
IsOther k lock d =
    (1 ≤ count d (k.threads k.current).donors_list) × ((k.threads d).waiting_on_lock ≢ lock)

-- The current thread after the donations for `lock` are recalled.
pub record IsRecalled (lock : Ptr) (k k' : Kernel) : Type 0 where
  pub base_le : (k.threads k.current).base_priority ≤ℤ priority k' k.current
  pub donor_le : (d : Ptr) → IsOther k lock d → priority k d ≤ℤ priority k' k.current
  pub reached :
      (priority k' k.current ≡ (k.threads k.current).base_priority)
      ⊎ ((d : Ptr) × IsOther k lock d × (priority k' k.current ≡ priority k d))
  pub donors :
      (d : Ptr)
      → count d (k'.threads k.current).donors_list ≡ (
          if (k.threads d).waiting_on_lock == lock
          then 0
          else count d (k.threads k.current).donors_list)
  pub others : (u : Ptr) → u ≢ k.current → k'.threads u ≡ k.threads u

count-keep_other :
    (k : Kernel) (lock d : Ptr) (l : List Ptr)
    → count d (keep (λ t. not ((k.threads t).waiting_on_lock == lock)) l)
      ≡ (if (k.threads d).waiting_on_lock == lock then 0 else count d l)
count-keep_other k lock d [] = ground arith
count-keep_other k lock d (t ∷ l) = ground (arith, count-keep_other k lock d l)

module _ (k : Kernel) (lock : Ptr) where
  abbrev recalled : Kernel
  recalled =
      let t = k.threads k.current in
      set_thread k k.current (record t {
        donors_list = keep (λ d. not ((k.threads d).waiting_on_lock == lock)) t.donors_list;
      })

  module _ (own : count k.current (k.threads k.current).donors_list ≡ 0) where
    abbrev kept :
        (d : Ptr)
        → count d (
            keep
              (λ t. not ((k.threads t).waiting_on_lock == lock))
              (k.threads k.current).donors_list)
          ≡ (if (k.threads d).waiting_on_lock == lock
              then 0
              else count d (k.threads k.current).donors_list)
    kept d = count-keep_other k lock d (k.threads k.current).donors_list

    recalled-own : count k.current (recalled.threads k.current).donors_list ≡ 0
    recalled-own = ground (arith, own, kept k.current)

    recall_IsRecalled : {k' : Kernel} → IsRestored k.current recalled k' → IsRecalled lock k k'
    recall_IsRecalled {k'} r = record {
      base_le = ground (arith, r.greatest.base_le);
      donor_le = λ d h. ground (arith, r.greatest.donor_le d, kept d, own);
      reached = elim (r.greatest.reached) [
        | inl e ↦ inl (ground (arith, e))
        | inr (d, c, e) ↦ inr (d, ground (arith, kept d, c, own), ground (arith, e, own, c, kept d))
      ];
      donors = λ d. ground (arith, r.donors d, kept d);
      others = λ u ne. ground (arith, r.others u ne);
    }

    -- Once a lock's donations are recalled the thread's priority is the greatest of its base
    -- priority and the priorities of the donors that wait for other locks; those stay its donors,
    -- and no other thread changes.
    pub thread_recall_donation-IsRecalled :
        (k.threads k.current).status ≡ running
        → Succeeds (IsRecalled lock k) (thread_recall_donation lock k)
    unfolding thread_recall_donation thread_current
    thread_recall_donation-IsRecalled h =
        rw h (recall_IsRecalled (restore_priority-IsRestored k.current recalled recalled-own))
