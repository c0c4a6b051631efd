-- ===== src/Donation/Chain.antt =====
-- `thread_nested_donation`: priorities go up a chain of lock holders.
use gpintosy.Prelude.{
  ℕ, zero, suc, ◌≡◌, ◌≢◌, refl, ◌∙◌, true, ◌⊎◌, inl, inr, [], ◌∷◌, arith, ◌==◌, if◌then◌else◌,
}
use native.Mathlib.Decide.{ℕ_discrete}
use gpintosy.Prelude.Int.{ℤ, ltb_ℤ, ◌≤ℤ◌}
use gpintosy.Kernel.{Ptr, null, Kernel, set_priority}
use gpintosy.Scheduler.{next_thread_to_run}
use gpintosy.Donation.{donate}

abbrev pub priority : Kernel → Ptr → ℤ
priority k t = (k.threads t).priority

-- The holder of the lock that a thread waits for; NULL if there is none.
unfoldable pub blocker : Kernel → Ptr → Ptr
blocker k t =
    if (k.threads t).waiting_on_lock == null then null else k.holders (k.threads t).waiting_on_lock

-- A thread that waits for a held lock has no higher priority than the holder.
abbrev pub NoInversion : Kernel → Ptr → Type 0
NoInversion k t = blocker k t ≢ null → priority k t ≤ℤ priority k (blocker k t)

-- The chain of holders from a thread on ends within so many steps.
abbrev pub Ends : Kernel → ℕ → Ptr → Type 0
Ends k zero t = blocker k t ≡ null
Ends k (suc n) t = (blocker k t ≢ null) → Ends k n (blocker k t)

-- Where the loop of the donation goes on, with the holder's priority raised.
abbrev raised : Kernel → Ptr → Kernel
raised k t = set_priority k (blocker k t) (priority k t)

donate-cases :
    (n : ℕ) (t : Ptr) (k : Kernel)
    → ((donate (suc n) t k ≡ k) × NoInversion k t)
      ⊎ ((blocker k t ≢ null)
          × (ltb_ℤ (priority k (blocker k t)) (priority k t) ≡ true)
          × (donate (suc n) t k ≡ donate n (blocker k t) (raised k t)))
unfolding donate blocker
donate-cases n t k = ground arith

-- Raising the holder's priority leaves who waits for whom as it is.
blocker-raised : (k : Kernel) (t u : Ptr) → blocker (raised k t) u ≡ blocker k u
unfolding blocker
blocker-raised k t u = ground arith

Ends-raised : (k : Kernel) (t u : Ptr) (n : ℕ) → Ends k n u → Ends (raised k t) n u
Ends-raised k t u zero h = blocker-raised k t u ∙ h
Ends-raised k t u (suc n) h = λ b.
    rw (blocker-raised k t u) (Ends-raised k t (blocker k u) n (h (rw (← blocker-raised k t u) b)))

-- The holder may now have a higher priority than its own blocker; everyone else is as before.
NoInversion-raised :
    (k : Kernel) (t : Ptr)
    → blocker k t ≢ null
    → ltb_ℤ (priority k (blocker k t)) (priority k t) ≡ true
    → ((u : Ptr) → u ≢ t → NoInversion k u)
    → (u : Ptr) → u ≢ blocker k t
    → NoInversion (raised k t) u
NoInversion-raised k t b lower others u ne nb =
    let e : blocker (raised k t) u ≡ blocker k u = blocker-raised k t u in
    rw e (ground (arith, others u))

-- The donor is in order too.
with_donor :
    (k : Kernel) (t : Ptr)
    → NoInversion k t
    → ((u : Ptr) → u ≢ t → NoInversion k u)
    → (u : Ptr) → NoInversion k u
with_donor k t h others u = elim (ℕ_discrete u t) [ yes e ↦ rw e h | no ne ↦ others u ne ]

-- If only the donor may be out of order with its blocker, and its chain of holders is no longer
-- than the depth, then after the donation nobody is.
pub donate-NoInversion :
    (n : ℕ) (t : Ptr) (k : Kernel)
    → Ends k n t
    → ((u : Ptr) → u ≢ t → NoInversion k u)
    → (u : Ptr) → NoInversion (donate n t k) u
unfolding donate
donate-NoInversion zero t k h others u = with_donor k t (λ b. absurd (b h)) others u
donate-NoInversion (suc n) t k h others u = elim (donate-cases n t k) [
  | inl (e, ni) ↦ rw e (with_donor k t ni others u)
  | inr (b, lower, e) ↦ rw e (
      donate-NoInversion n (blocker k t) (raised k t) (Ends-raised k t (blocker k t) n (h b))
        (NoInversion-raised k t b lower others) u)
]

-- Donation lowers no priority, and changes nothing of a thread but its priority.
pub donate-raises :
    (n : ℕ) (t : Ptr) (k : Kernel) (u : Ptr)
    → (priority k u ≤ℤ priority (donate n t k) u)
      × ((donate n t k).threads u ≡ record (k.threads u) { priority = priority (donate n t k) u })
unfolding donate
donate-raises zero t k u = (omega arith, refl)
donate-raises (suc n) t k u = elim (donate-cases n t k) [
  | inl (e, ni) ↦ rw e (omega arith, refl)
  | inr (b, lower, e) ↦ rw e (ground (arith, donate-raises n (blocker k t) (raised k t) u))
]

donate-stops : (n : ℕ) (t : Ptr) (k : Kernel) → blocker k t ≡ null → donate n t k ≡ k
unfolding donate blocker
donate-stops zero t k h = refl
donate-stops (suc n) t k h = ground arith

-- The chain is one step long.
donate-once :
    (k : Kernel) (n : ℕ) (t : Ptr)
    → blocker k t ≢ null
    → ltb_ℤ (priority k (blocker k t)) (priority k t) ≡ true
    → blocker k (blocker k t) ≡ null
    → donate (suc n) t k ≡ raised k t
donate-once k n t b lower free = elim (donate-cases n t k) [
  | inl (e, ni) ↦ absurd (ground (arith, ni b))
  | inr (_, _, e) ↦
      e ∙ donate-stops n (blocker k t) (raised k t) (blocker-raised k t (blocker k t) ∙ free)
]

-- A donation to a ready thread leaves the run queue as it is. The holder `l` of the lock that `t`
-- waits for stands behind `m` there; though it now has the priority of `t`, above that of `m`, the
-- next thread to run is `m`.
pub donate-queue_order :
    (k : Kernel) (n : ℕ) (t m l : Ptr)
    → blocker k t ≡ l
    → l ≢ null
    → blocker k l ≡ null
    → m ≢ l
    → k.ready_list ≡ m ∷ l ∷ []
    → ltb_ℤ (priority k l) (priority k m) ≡ true
    → ltb_ℤ (priority k m) (priority k t) ≡ true
    → let k' = donate (suc n) t k in
      (priority k' l ≡ priority k t)
      × (ltb_ℤ (priority k' m) (priority k' l) ≡ true)
      × ((next_thread_to_run k').0 ≡ m)
unfolding next_thread_to_run
donate-queue_order k n t m l b ne free mn r lm mt =
    rw (donate-once k n t (ground arith) (ground (arith, b)) (rw b free))
      (ground (arith, b), ground (arith, b), ground arith)
