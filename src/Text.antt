-- ===== src/Text.antt =====
-- src/lib/string.c: the functions that take a command line apart.
--
-- A string is the list of its bytes before the null byte, and what a pointer into a string points to
-- is the rest of that list.
pub mod Words
pub mod Blocks
pub mod Strings
use gpintosy.Prelude.{
  ℕ, zero, suc, ◌+◌, ◌-◌, Bool, true, false, not, Option, none, some, List, [], ◌∷◌, ◌==◌,
  if◌then◌else◌,
}

-- `strchr (delimiters, c) != NULL` for a byte of a string
unfoldable pub is_in : List ℕ → ℕ → Bool
is_in [] c = false
is_in (d ∷ delimiters) c = if d == c then true else is_in delimiters c

-- The first loop of `strtok_r`
unfoldable pub skip : List ℕ → List ℕ → List ℕ
skip delimiters [] = []
skip delimiters (c ∷ s) = if is_in delimiters c then skip delimiters s else c ∷ s

-- The second loop of `strtok_r`: the token, and what is saved behind the delimiter.
unfoldable pub token_of : List ℕ → List ℕ → List ℕ × List ℕ
token_of delimiters [] = ([], [])
token_of delimiters (c ∷ s) =
    let (token, save) = token_of delimiters s in
    if is_in delimiters c then ([], s) else (c ∷ token, save)

unfoldable pub strtok_r : List ℕ → List ℕ → Option (List ℕ × List ℕ)
strtok_r delimiters s = elim (skip delimiters s) [
  | [] ↦ none
  | c ∷ rest ↦ some (token_of delimiters (c ∷ rest))
]

-- `strlcpy`: what the destination of so many bytes, if any, holds.
unfoldable pub strlcpy : List ℕ → ℕ → List ℕ
strlcpy [] n = []
strlcpy (c ∷ s) zero = []
strlcpy (c ∷ s) (suc n) = if n == 0 then [] else c ∷ strlcpy s n

unfoldable pub strlen : List ℕ → ℕ
strlen [] = 0
strlen (c ∷ s) = strlen s + 1
