-- ===== src/Process/Args.antt =====
-- src/userprog/process.c: the part of `setup_stack` that passes the arguments.
--
-- The stack page is mapped when the arguments are pushed, so that the memory is read and written
-- under its user addresses.
pub mod Tokens
pub mod Pushed
use gpintosy.Prelude.{
  ℕ, zero, suc, ◌+◌, ◌-◌, ◌*◌, ◌/◌, ◌^◌, ◌%◌, Bool, true, false, not, Option, none, some, List, [],
  ◌∷◌, ◌++◌, ltb, ◌==◌, if◌then◌else◌,
}
use gpintosy.Kernel.{Ptr, null, update}
use gpintosy.Vaddr.{Memory, pgsize, phys_base}
use gpintosy.Text.{strtok_r, strlcpy, strlen}

abbrev pub max_args : ℕ
max_args = 128

-- " "
abbrev pub space : List ℕ
space = 32 ∷ []

infixl 5 ◌>>=◌
abbrev pub ◌>>=◌ : {A B : Type 0} → Option A → (A → Option B) → Option B
none >>= f = none
some a >>= f = f a

-- The loop over the tokens, with the room left in `argv`.
unfoldable pub collect_args : ℕ → List ℕ → Option (List (List ℕ))
collect_args zero text = elim (strtok_r space text) [ none ↦ some [] | some t ↦ none ]
collect_args (suc n) text = elim (strtok_r space text) [
  | none ↦ some []
  | some (token, save) ↦ do argv ← collect_args n save; some (token ∷ argv)
]

abbrev pub stack_page : Ptr
stack_page = phys_base - pgsize

-- `memcpy (sp, s, len)`
unfoldable pub write_bytes : Memory → Ptr → List ℕ → Memory
write_bytes mem p [] = mem
write_bytes mem p (b ∷ s) = update (write_bytes mem (p + 1) s) p b

-- The four bytes of a word, the lowest first.
abbrev pub word_bytes : ℕ → List ℕ
word_bytes n = n % 256 ∷ n / 256 % 256 ∷ n / 256 / 256 % 256 ∷ n / 256 / 256 / 256 % 256 ∷ []

-- The stack pointer is moved down, and bytes are put where it points to.
unfoldable pub push : List ℕ → Ptr × Memory → Option (Ptr × Memory)
push s (sp, mem) =
    let sp = sp - strlen s in if ltb sp stack_page then none else some (sp, write_bytes mem sp s)

abbrev pub push_word : ℕ → Ptr × Memory → Option (Ptr × Memory)
push_word n st = push (word_bytes n) st

-- The loop over the arguments from the last to the first; what `argv` then points to comes out.
unfoldable pub push_strings : List (List ℕ) → Ptr × Memory → Option (List Ptr × Ptr × Memory)
push_strings [] (sp, mem) = some ([], sp, mem)
push_strings (arg ∷ argv) st = do
  (ptrs, sp, mem) ← push_strings argv st
  (sp, mem) ← push (arg ++ 0 ∷ []) (sp, mem)
  some (sp ∷ ptrs, sp, mem)

-- The loop that aligns the stack pointer, with the rounds left.
unfoldable pub align : ℕ → Ptr × Memory → Ptr × Memory
align zero st = st
align (suc n) (sp, mem) = if sp % 4 == 0 then (sp, mem) else align n (sp - 1, update mem (sp - 1) 0)

unfoldable pub push_words : List ℕ → Ptr × Memory → Option (Ptr × Memory)
push_words [] st = some st
push_words (n ∷ words) st = do st ← push_words words st; push_word n st

abbrev pub argc_of : List (List ℕ) → ℕ
argc_of [] = 0
argc_of (arg ∷ argv) = argc_of argv + 1

-- The end of `setup_stack`, from `*esp = PHYS_BASE` and the arguments.
unfoldable pub push_args : List (List ℕ) → Memory → Option (Ptr × Memory)
push_args argv mem = do
  (ptrs, sp, mem) ← push_strings argv (phys_base, mem)
  st ← push_word 0 (align 3 (sp, mem))
  (sp, mem) ← push_words ptrs st
  st ← push_word sp (sp, mem)
  st ← push_word (argc_of argv) st
  push_word 0 st

unfoldable pub setup_args : List ℕ → Memory → Option (Ptr × Memory)
setup_args cmdline mem = do
  argv ← collect_args max_args (strlcpy cmdline pgsize)
  push_args argv mem
