-- ===== src/KernelList/Order.antt =====
-- What the callers' comparison functions satisfy, and what it means for a list to be in order.
use gpintosy.Prelude.{
  ℕ, ◌≡◌, refl, Bool, true, false, List, [], ◌∷◌, ◌++◌, arith, ltb, All, All-map, if◌then◌else◌,
}
use gpintosy.KernelList.{insert_ordered, is_sorted}

-- `less` is the strict part of a total preorder.
pub record IsStrictOrder {ℓ} {A : Type ℓ} (less : A → A → Bool) : Type ℓ where
  pub asym : (a b : A) → less a b ≡ true → less b a ≡ false
  pub trans : (a b c : A) → less b a ≡ false → less c b ≡ false → less c a ≡ false

-- Greater keys first: the order of `priority_compare`.
abbrev pub descending {ℓ} : {A : Type ℓ} → (A → ℕ) → A → A → Bool
descending key a b = ltb (key b) (key a)

pub descending-IsStrictOrder {ℓ} : {A : Type ℓ} (key : A → ℕ) → IsStrictOrder (descending key)
descending-IsStrictOrder key = record {
  asym = λ a b h. ground arith;
  trans = λ a b c h k. ground arith;
}

module _ {ℓ} {A : Type ℓ} (less : A → A → Bool) where
  -- No entry is less than `a`.
  abbrev pub Below : A → List A → Type 0
  Below a l = All (λ y. less y a ≡ false) l

  -- No entry is less than one before it.
  abbrev pub IsSorted : List A → Type 0
  IsSorted [] = Unit
  IsSorted (a ∷ l) = Below a l × IsSorted l

module _ {ℓ} {A : Type ℓ} (less : A → A → Bool) (order : IsStrictOrder less) where
  pub Below-trans : (a b : A) (l : List A) → less b a ≡ false → Below less b l → Below less a l
  Below-trans a b l h = All-map _ _ l (λ y. order.trans a b y h)

  Below-insert_ordered :
      (a x : A) (l : List A)
      → less x a ≡ false
      → Below less a l
      → Below less a (insert_ordered less l x)
  unfolding insert_ordered
  Below-insert_ordered a x [] h k = (h, tt)
  Below-insert_ordered a x (e ∷ l) h k = ground (arith, Below-insert_ordered a x l h k.1)

  pub insert_ordered-IsSorted :
      (l : List A) (x : A) → IsSorted less l → IsSorted less (insert_ordered less l x)
  unfolding insert_ordered
  insert_ordered-IsSorted [] x h = (tt, tt)
  insert_ordered-IsSorted (e ∷ l) x h = ground (
    arith,
    order.asym x e,
    Below-trans x e l,
    Below-insert_ordered e x l,
    insert_ordered-IsSorted l x h.1,
  )

  -- The check of neighbours that the code asserts decides the order of the whole list.
  pub IsSorted-of_is_sorted : (l : List A) → is_sorted less l ≡ true → IsSorted less l
  unfolding is_sorted
  IsSorted-of_is_sorted [] h = tt
  IsSorted-of_is_sorted (a ∷ []) h = (tt, tt)
  IsSorted-of_is_sorted (a ∷ b ∷ l) h =
      let rest : IsSorted less (b ∷ l) = IsSorted-of_is_sorted (b ∷ l) (ground arith) in
      let first : less b a ≡ false = ground arith in ((first, Below-trans a b l first rest.0), rest)

  Below-above :
      (x e : A) (l : List A) → less x e ≡ true → Below less e l → All (λ y. less x y ≡ true) l
  Below-above x e [] h k = tt
  Below-above x e (y ∷ l) h k = (ground (arith, order.trans e y x k.0), Below-above x e l h k.1)

  -- The entries that a new entry goes behind, and those that it goes before.
  unfoldable pub front : List A → A → List A
  front [] x = []
  front (e ∷ l) x = if less x e then [] else e ∷ front l x

  unfoldable pub back : List A → A → List A
  back [] x = []
  back (e ∷ l) x = if less x e then e ∷ l else back l x

  -- A new entry goes behind all that it is not less than, its equals among them, and before all
  -- that it is less than; the others keep their order.
  pub insert_ordered-split :
      (l : List A) (x : A)
      → IsSorted less l
      → (l ≡ front l x ++ back l x)
        × (insert_ordered less l x ≡ front l x ++ (x ∷ back l x))
        × All (λ y. less x y ≡ false) (front l x)
        × All (λ y. less x y ≡ true) (back l x)
  unfolding insert_ordered front back
  insert_ordered-split [] x h = (refl, refl, tt, tt)
  insert_ordered-split (e ∷ l) x h = ground (arith, Below-above x e l, insert_ordered-split l x h.1)
