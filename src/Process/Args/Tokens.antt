-- ===== src/Process/Args/Tokens.antt =====
-- The arguments that are taken from a command line.
use gpintosy.Prelude.{
  ℕ, zero, suc, ◌+◌, ◌≡◌, refl, sym, ap, ◌∙◌, true, false, Option, none, some, List, [], ◌∷◌, arith,
  leb, if◌then◌else◌, Bool-cases, inl, inr,
}
use gpintosy.Text.{strtok_r}
use gpintosy.Text.Words.{words_from, first_word, words_from-strtok_r}
use gpintosy.Process.Args.{space, collect_args, argc_of, ◌>>=◌}

-- The words of a text between spaces.
abbrev pub words : List ℕ → List (List ℕ)
words text = words_from space [] text

abbrev at_most : ℕ → List (List ℕ) → Option (List (List ℕ))
at_most n argv = if leb (argc_of argv) n then some argv else none

at_most-zero :
    (o : Option (List ℕ × List ℕ))
    → elim o [ none ↦ some [] | some t ↦ none ] ≡ at_most 0 (first_word space o)
at_most-zero none = refl
at_most-zero (some (token, save)) =
    let b : leb (argc_of (words save) + 1) 0 ≡ false = ground arith in rw b refl

at_most-suc :
    (n : ℕ) (token save : List ℕ)
    → (do argv ← at_most n (words save); some (token ∷ argv)) ≡ at_most (suc n) (token ∷ words save)
at_most-suc n token save = elim (Bool-cases (leb (argc_of (words save)) n)) [
  | inl e ↦
      let f : leb (argc_of (words save) + 1) (suc n) ≡ true = ground (arith, e) in rw (e, f) refl
  | inr e ↦
      let f : leb (argc_of (words save) + 1) (suc n) ≡ false = ground (arith, e) in rw (e, f) refl
]

next_token :
    (n : ℕ)
    → ((save : List ℕ) → collect_args n save ≡ at_most n (words save))
    → (o : Option (List ℕ × List ℕ))
    → elim o [
      | none ↦ some []
      | some (token, save) ↦ do argv ← collect_args n save; some (token ∷ argv)
    ]
      ≡ at_most (suc n) (first_word space o)
next_token n h none = let b : leb 0 (suc n) ≡ true = ground arith in rw b refl
next_token n h (some (token, save)) = let e = h save in rw e (at_most-suc n token save)

-- The loop over the tokens finds the words of the text between its spaces, in their order; it fails
-- if there are more than there is room for.
pub collect_args-words :
    (n : ℕ) (text : List ℕ)
    → collect_args n text ≡ (if leb (argc_of (words text)) n then some (words text) else none)
unfolding collect_args
collect_args-words zero text =
    at_most-zero (strtok_r space text) ∙ ap (at_most 0) (sym (words_from-strtok_r space text))
collect_args-words (suc n) text =
    next_token n (λ save. collect_args-words n save) (strtok_r space text)
    ∙ ap (at_most (suc n)) (sym (words_from-strtok_r space text))
