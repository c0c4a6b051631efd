-- ===== src/Vm/Frame/Clock/Round.antt =====
-- The hand goes round the frame table.
use mathlib.Core.List.{append_assoc}
use gpintosy.Prelude.{◌≡◌, ◌≤◌, refl, sym, ap, ◌∙◌, Option, some, List, [], ◌∷◌, ◌++◌, arith}
use gpintosy.KernelList.Count.{count, count-append}
use gpintosy.Kernel.{Ptr}
use gpintosy.Vm.Frame.{next_or_first, first_of, or_else}

-- The first of a list, or of another if it is empty.
abbrev first_or : List Ptr → List Ptr → Option Ptr
first_or table [] = first_of table
first_or table (a ∷ l) = some a

next_or_first-at :
    (table p : List Ptr) (b : Ptr) (r : List Ptr)
    → count b p ≡ 0
    → next_or_first table (p ++ b ∷ r) b ≡ first_or table r
unfolding next_or_first
next_or_first-at [] [] b [] h = refl
next_or_first-at (t ∷ l) [] b [] h = refl
next_or_first-at table [] b (c ∷ r) h = ground arith
next_or_first-at table (x ∷ []) b r h = ground (arith, next_or_first-at table [] b r)
next_or_first-at table (x ∷ y ∷ p) b r h = ground (arith, next_or_first-at table (y ∷ p) b r)

-- The hand goes from one frame through those of a list to another one.
abbrev pub Walk : List Ptr → List Ptr → Ptr → Ptr → Type 0
Walk table [] h h' = h ≡ h'
Walk table (a ∷ l) h h' = (h ≡ a) × Walk table l (or_else (next_or_first table table a) a) h'

Walk-append :
    (table k l : List Ptr) (h g h' : Ptr)
    → Walk table k h g
    → Walk table l g h'
    → Walk table (k ++ l) h h'
Walk-append table [] l h g h' w w' = rw w w'
Walk-append table (a ∷ k) l h g h' (e, w) w' = (e, Walk-append table k l _ g h' w w')

module _ (table : List Ptr) (once : (x : Ptr) → count x table ≤ 1) where
  next_in :
      (p : List Ptr) (a : Ptr) (s : List Ptr)
      → table ≡ p ++ a ∷ s
      → next_or_first table table a ≡ first_or table s
  next_in p a s e =
      ap (λ t. next_or_first table t a) e
      ∙ next_or_first-at table p a s
          (omega (arith, once a, ap (count a) e, count-append a p (a ∷ s), count_self a s))
    where
      count_self : (a : Ptr) (s : List Ptr) → 1 ≤ count a (a ∷ s)
      count_self a s = ground arith

  -- From an entry to the end of the table, and on to its first one.
  Walk-to_end :
      (g : Ptr) (p : List Ptr) (a : Ptr) (s : List Ptr)
      → first_of table ≡ some g
      → table ≡ p ++ a ∷ s
      → Walk table (a ∷ s) a g
  Walk-to_end g p a [] f e = (refl, ap (λ o. or_else o a) (next_in p a [] e ∙ f))
  Walk-to_end g p a (b ∷ s) f e =
      let n : or_else (next_or_first table table a) a ≡ b =
        ap (λ o. or_else o a) (next_in p a (b ∷ s) e) in
      (refl, rw n (Walk-to_end g (p ++ a ∷ []) b s f (e ∙ sym (append_assoc p (a ∷ []) (b ∷ s)))))

  -- From an entry to a later one.
  Walk-between :
      (p : List Ptr) (b : Ptr) (q : List Ptr) (a : Ptr) (s : List Ptr)
      → table ≡ p ++ ((b ∷ q) ++ a ∷ s)
      → Walk table (b ∷ q) b a
  Walk-between p b [] a s e = (refl, ap (λ o. or_else o b) (next_in p b (a ∷ s) e))
  Walk-between p b (d ∷ q) a s e =
      let n : or_else (next_or_first table table b) b ≡ d =
        ap (λ o. or_else o b) (next_in p b ((d ∷ q) ++ a ∷ s) e) in
      (
        refl,
        rw n (
            Walk-between (p ++ b ∷ []) d q a s
              (e ∙ sym (append_assoc p (b ∷ []) ((d ∷ q) ++ a ∷ s)))),
      )

  -- Once round the table.
  pub Walk-round :
      (p : List Ptr) (a : Ptr) (s : List Ptr) → table ≡ p ++ a ∷ s → Walk table ((a ∷ s) ++ p) a a
  Walk-round [] a s e =
      Walk-append table (a ∷ s) [] a a a (Walk-to_end a [] a s (ap first_of e) e) refl
  Walk-round (b ∷ p) a s e =
      Walk-append table (a ∷ s) (b ∷ p) a b a (Walk-to_end b (b ∷ p) a s (ap first_of e) e)
        (Walk-between [] b p a s e)
