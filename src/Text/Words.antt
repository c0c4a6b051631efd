-- ===== src/Text/Words.antt =====
-- The words of a text, which `strtok_r` takes from it one by one.
use gpintosy.Prelude.{
  ℕ, ◌≡◌, refl, sym, ap, ◌∙◌, false, Option, none, some, List, [], ◌∷◌, ◌++◌, if◌then◌else◌,
  Bool-cases, inl, inr,
}
use mathlib.Core.List.{append-nil, append_assoc}
use gpintosy.Text.{is_in, skip, token_of, strtok_r}

-- A word that has come to its end, if it has a byte.
abbrev pub close : List ℕ → List (List ℕ)
close [] = []
close (c ∷ s) = (c ∷ s) ∷ []

-- The words of a text, with the bytes of a word already read.
unfoldable pub words_from : List ℕ → List ℕ → List ℕ → List (List ℕ)
words_from delimiters word [] = close word
words_from delimiters word (c ∷ s) =
    if is_in delimiters c
    then close word ++ words_from delimiters [] s
    else words_from delimiters (word ++ c ∷ []) s

module _ (delimiters : List ℕ) where
  words_from-skip :
      (s : List ℕ) → words_from delimiters [] s ≡ words_from delimiters [] (skip delimiters s)
  unfolding words_from skip
  words_from-skip [] = refl
  words_from-skip (c ∷ s) = elim (Bool-cases (is_in delimiters c)) [
    | inl e ↦ rw e (words_from-skip s)
    | inr e ↦ rw (e, e) refl
  ]

  words_from-token_of :
      (c : ℕ) (word s : List ℕ)
      → words_from delimiters (c ∷ word) s
        ≡ (c ∷ word ++ (token_of delimiters s).0)
          ∷ words_from delimiters [] (token_of delimiters s).1
  unfolding words_from token_of
  words_from-token_of c word [] = ap (λ w. (c ∷ w) ∷ []) (sym (append-nil word))
  words_from-token_of c word (d ∷ s) = elim (Bool-cases (is_in delimiters d)) [
    | inl e ↦ rw (e, append-nil word) refl
    | inr e ↦ rw e (
        words_from-token_of c (word ++ d ∷ []) s
        ∙ ap (λ w. (c ∷ w) ∷ words_from delimiters [] (token_of delimiters s).1)
            (append_assoc word (d ∷ []) (token_of delimiters s).0))
  ]

  -- A text that starts with no delimiter.
  abbrev Starts : List ℕ → Type 0
  Starts [] = Unit
  Starts (c ∷ s) = is_in delimiters c ≡ false

  skip-Starts : (s : List ℕ) → Starts (skip delimiters s)
  unfolding skip
  skip-Starts [] = tt
  skip-Starts (c ∷ s) = elim (Bool-cases (is_in delimiters c)) [
    | inl e ↦ rw e (skip-Starts s)
    | inr e ↦ rw e e
  ]

  abbrev pub first_word : Option (List ℕ × List ℕ) → List (List ℕ)
  first_word none = []
  first_word (some r) = r.0 ∷ words_from delimiters [] r.1

  words_from-Starts :
      (s : List ℕ)
      → Starts s
      → words_from delimiters [] s
        ≡ first_word (elim s [ [] ↦ none | c ∷ rest ↦ some (token_of delimiters (c ∷ rest)) ])
  unfolding words_from token_of
  words_from-Starts [] h = refl
  words_from-Starts (c ∷ s) h = rw h (words_from-token_of c [] s)

  -- The words are the token that `strtok_r` finds and the words of what it saves; there are none if
  -- it finds none.
  pub words_from-strtok_r :
      (s : List ℕ) → words_from delimiters [] s ≡ first_word (strtok_r delimiters s)
  unfolding strtok_r
  words_from-strtok_r s = words_from-skip s ∙ words_from-Starts (skip delimiters s) (skip-Starts s)
