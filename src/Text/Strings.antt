-- ===== src/Text/Strings.antt =====
-- src/lib/string.c: the functions on strings.
pub mod Found
use gpintosy.Prelude.{
  ℕ, zero, suc, ◌+◌, ◌-◌, Bool, true, false, not, ◌&&◌, Option, none, some, List, [], ◌∷◌, ◌++◌,
  ltb, ◌==◌, if◌then◌else◌,
}
use gpintosy.Prelude.Int.{ℤ, pos, negsuc}
use gpintosy.Text.{is_in, strlen}

unfoldable pub strcmp : List ℕ → List ℕ → ℤ
strcmp [] [] = pos 0
strcmp [] (d ∷ b) = negsuc 0
strcmp (c ∷ a) [] = pos 1
strcmp (c ∷ a) (d ∷ b) = if c == d then strcmp a b else if ltb c d then negsuc 0 else pos 1

-- `none` is NULL, and `some` what the pointer points to.
unfoldable pub strchr : List ℕ → ℕ → Option (List ℕ)
strchr [] c = if c == 0 then some [] else none
strchr (d ∷ s) c = if d == c then some (d ∷ s) else strchr s c

unfoldable pub strcspn : List ℕ → List ℕ → ℕ
strcspn [] stop = 0
strcspn (c ∷ s) stop = if is_in stop c then 0 else strcspn s stop + 1

unfoldable pub strpbrk : List ℕ → List ℕ → Option (List ℕ)
strpbrk [] stop = none
strpbrk (c ∷ s) stop = if is_in stop c then some (c ∷ s) else strpbrk s stop

-- The loop of `strrchr`, with the last occurrence so far.
unfoldable pub last_from : List ℕ → ℕ → Option (List ℕ) → Option (List ℕ)
last_from [] c p = p
last_from (d ∷ s) c p = last_from s c (if d == c then some (d ∷ s) else p)

unfoldable pub strrchr : List ℕ → ℕ → Option (List ℕ)
strrchr s c = last_from s c none

unfoldable pub strspn : List ℕ → List ℕ → ℕ
strspn [] skip = 0
strspn (c ∷ s) skip = if is_in skip c then strspn s skip + 1 else 0

-- Whether `memcmp` of a text with the bytes of another one answers 0.
unfoldable pub starts_with : List ℕ → List ℕ → Bool
starts_with s [] = true
starts_with [] (d ∷ needle) = false
starts_with (c ∷ s) (d ∷ needle) = (c == d) && starts_with s needle

-- The loop of `strstr`, with the rounds left.
unfoldable pub search_from : ℕ → List ℕ → List ℕ → Option (List ℕ)
search_from zero s needle = none
search_from (suc n) [] needle = if starts_with [] needle then some [] else none
search_from (suc n) (c ∷ s) needle =
    if starts_with (c ∷ s) needle then some (c ∷ s) else search_from n s needle

unfoldable pub strstr : List ℕ → List ℕ → Option (List ℕ)
strstr haystack needle =
    if ltb (strlen haystack) (strlen needle)
    then none
    else search_from (strlen haystack - strlen needle + 1) haystack needle

unfoldable pub strnlen : List ℕ → ℕ → ℕ
strnlen [] maxlen = 0
strnlen (c ∷ s) zero = 0
strnlen (c ∷ s) (suc maxlen) = strnlen s maxlen + 1

-- The first bytes of a text.
abbrev pub bytes_of : ℕ → List ℕ → List ℕ
bytes_of zero s = []
bytes_of (suc n) [] = []
bytes_of (suc n) (c ∷ s) = c ∷ bytes_of n s

-- The answer, and what the destination holds.
unfoldable pub strlcat : List ℕ → List ℕ → ℕ → ℕ × List ℕ
strlcat dst src size = (
  strlen src + strlen dst,
  if ltb (strlen dst) size then dst ++ bytes_of (size - strlen dst - 1) src else dst,
)
