-- ===== src/Text/Strings/Found.antt =====
-- What `strstr` finds.
use gpintosy.Prelude.{
  ℕ, zero, suc, ◌+◌, ◌-◌, ◌≡◌, ◌<◌, refl, sym, false, Option, none, some, List, [], ◌∷◌, arith, ltb,
  if◌then◌else◌, Bool-cases, inl, inr,
}
use gpintosy.Text.{strlen}
use gpintosy.Text.Strings.{starts_with, search_from, strstr}

-- The first rest of a text that starts with another one, if there is one.
abbrev pub first_start : List ℕ → List ℕ → Option (List ℕ)
first_start [] needle = if starts_with [] needle then some [] else none
first_start (c ∷ s) needle =
    if starts_with (c ∷ s) needle then some (c ∷ s) else first_start s needle

starts_with-short : (s needle : List ℕ) → strlen s < strlen needle → starts_with s needle ≡ false
unfolding starts_with strlen
starts_with-short s [] l = absurd (omega (arith, l))
starts_with-short [] (d ∷ needle) l = refl
starts_with-short (c ∷ s) (d ∷ needle) l =
    let g = starts_with-short s needle (omega (arith, l)) in ground (arith, g)

first_start-short : (s needle : List ℕ) → strlen s < strlen needle → first_start s needle ≡ none
unfolding strlen
first_start-short [] needle l = let e = starts_with-short [] needle l in rw e refl
first_start-short (c ∷ s) needle l =
    let e = starts_with-short (c ∷ s) needle l in
    rw e (first_start-short s needle (omega (arith, l)))

search_from-first_start :
    (n : ℕ) (s needle : List ℕ)
    → strlen needle + n ≡ strlen s + 1
    → search_from n s needle ≡ first_start s needle
unfolding search_from strlen
search_from-first_start zero s needle e = sym (first_start-short s needle (omega (arith, e)))
search_from-first_start (suc n) [] needle e = refl
search_from-first_start (suc n) (c ∷ s) needle e = elim (Bool-cases (starts_with (c ∷ s) needle)) [
  | inl h ↦ rw h refl
  | inr h ↦ rw h (search_from-first_start n s needle (omega (arith, e)))
]

-- `strstr` finds the first rest of the text that starts with the other one, although it stops
-- where too few bytes are left.
pub strstr-first_start :
    (haystack needle : List ℕ) → strstr haystack needle ≡ first_start haystack needle
unfolding strstr
strstr-first_start haystack needle = elim (Bool-cases (ltb (strlen haystack) (strlen needle))) [
  | inl e ↦ rw e (sym (first_start-short haystack needle (ground (arith, e))))
  | inr e ↦ rw e (
      search_from-first_start (strlen haystack - strlen needle + 1) haystack needle
        (ground (arith, e)))
]
