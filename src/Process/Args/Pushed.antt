-- ===== src/Process/Args/Pushed.antt =====
-- What the arguments look like to the program.
use gpintosy.Prelude.{
  ℕ, zero, suc, ◌+◌, ◌-◌, ◌*◌, ◌/◌, ◌%◌, ◌^◌, ◌≡◌, ◌≤◌, ◌<◌, refl, sym, ap, ◌∙◌, false, Option,
  none, some, List, [], ◌∷◌, ◌++◌, arith, ltb, ◌==◌, Bool-cases, inl, inr, ◌⊎◌,
}
use mathlib.Core.Path.{subst}
use gpintosy.Kernel.{Ptr, update}
use gpintosy.Vaddr.{Memory, pgsize, phys_base}
use gpintosy.Text.{strlen}
use gpintosy.Process.Args.{
  stack_page, write_bytes, word_bytes, push, push_word, push_strings, align, push_words, argc_of,
  push_args, ◌>>=◌,
}

-- The four bytes at an address, as a number.
abbrev pub word_at : Memory → Ptr → ℕ
word_at mem p = mem p + 256 * (mem (p + 1) + 256 * (mem (p + 2) + 256 * mem (p + 3)))

-- The bytes of a list stand at an address.
abbrev pub BytesAt : Memory → Ptr → List ℕ → Type 0
BytesAt mem p [] = Unit
BytesAt mem p (b ∷ s) = (mem p ≡ b) × BytesAt mem (p + 1) s

-- Two memories agree from one address to before another.
abbrev Agree : Ptr → Memory → Memory → Type 0
Agree lo mem mem' = (a : Ptr) → lo ≤ a → mem' a ≡ mem a

write_bytes-below :
    (mem : Memory) (p : Ptr) (s : List ℕ) (a : Ptr) → a < p → write_bytes mem p s a ≡ mem a
unfolding write_bytes
write_bytes-below mem p [] a l = refl
write_bytes-below mem p (b ∷ s) a l =
    let n : (a == p) ≡ false = ground (arith, l) in
    rw n (write_bytes-below mem (p + 1) s a (omega (arith, l)))

write_bytes-above :
    (mem : Memory) (p : Ptr) (s : List ℕ) (a : Ptr)
    → p + strlen s ≤ a
    → write_bytes mem p s a ≡ mem a
unfolding write_bytes strlen
write_bytes-above mem p [] a l = refl
write_bytes-above mem p (b ∷ s) a l =
    let n : (a == p) ≡ false = ground (arith, l) in
    rw n (write_bytes-above mem (p + 1) s a (omega (arith, l)))

BytesAt-Agree :
    (lo : Ptr) (mem mem' : Memory) (p : Ptr) (s : List ℕ)
    → Agree lo mem mem'
    → lo ≤ p
    → BytesAt mem p s
    → BytesAt mem' p s
BytesAt-Agree lo mem mem' p [] a l h = tt
BytesAt-Agree lo mem mem' p (b ∷ s) a l h =
    (a p l ∙ h.0, BytesAt-Agree lo mem mem' (p + 1) s a (omega (arith, l)) h.1)

write_bytes-BytesAt : (mem : Memory) (p : Ptr) (s : List ℕ) → BytesAt (write_bytes mem p s) p s
unfolding write_bytes
write_bytes-BytesAt mem p [] = tt
write_bytes-BytesAt mem p (b ∷ s) = (
  ground arith,
  BytesAt-Agree (p + 1) (write_bytes mem (p + 1) s) _ (p + 1) s (λ a l. ground (arith, l))
      (omega arith) (write_bytes-BytesAt mem (p + 1) s),
)

-- Two memories agree but from one address to before another.
abbrev Kept : Ptr → Ptr → Memory → Memory → Type 0
Kept lo hi mem mem' = (a : Ptr) → (a < lo) ⊎ (hi ≤ a) → mem' a ≡ mem a

Kept-trans :
    (lo mid hi : Ptr) (m1 m2 m3 : Memory)
    → lo ≤ mid
    → mid ≤ hi
    → Kept mid hi m1 m2
    → Kept lo mid m2 m3
    → Kept lo hi m1 m3
Kept-trans lo mid hi m1 m2 m3 l h f g a (inl o) = g a (inl o) ∙ f a (inl (omega (arith, o, l)))
Kept-trans lo mid hi m1 m2 m3 l h f g a (inr o) = g a (inr (omega (arith, o, h))) ∙ f a (inr o)

Kept-Agree : (lo hi : Ptr) (m1 m2 : Memory) → Kept lo hi m1 m2 → Agree hi m1 m2
Kept-Agree lo hi m1 m2 k a l = k a (inr l)

strlen-append : (s : List ℕ) (b : ℕ) → strlen (s ++ b ∷ []) ≡ strlen s + 1
unfolding strlen
strlen-append [] b = refl
strlen-append (c ∷ s) b = rw (strlen-append s b) refl

-- A push for which there is room.
push-some :
    (s : List ℕ) (sp : Ptr) (mem : Memory) (n : ℕ)
    → strlen s ≡ n
    → stack_page + n ≤ sp
    → push s (sp, mem) ≡ some (sp - n, write_bytes mem (sp - n) s)
unfolding push
push-some s sp mem n e l =
    let b : ltb (sp - n) stack_page ≡ false = ground (arith, l) in rw (e, b) refl

push-Kept :
    (s : List ℕ) (sp : Ptr) (mem : Memory) (n : ℕ)
    → strlen s ≡ n
    → n ≤ sp
    → Kept (sp - n) sp mem (write_bytes mem (sp - n) s)
push-Kept s sp mem n e l a (inl o) = write_bytes-below mem (sp - n) s a o
push-Kept s sp mem n e l a (inr o) = write_bytes-above mem (sp - n) s a (rw e (omega (arith, o, l)))

word_bytes-word :
    (n : ℕ) (mem : Memory) (p : Ptr) → n < 2 ^ 32 → BytesAt mem p (word_bytes n) → word_at mem p ≡ n
word_bytes-word n mem p l h =
    let third : mem (p + 2) ≡ n / 256 / 256 % 256 = ap mem (omega arith) ∙ h.1.1.0 in
    let fourth : mem (p + 3) ≡ n / 256 / 256 / 256 % 256 = ap mem (omega arith) ∙ h.1.1.1.0 in
    omega (arith, l, h.0, h.1.0, third, fourth)

-- A call with a result, which satisfies `P`.
abbrev pub Gives : {A : Type 0} → (A → Type 0) → Option A → Type 0
Gives P none = ⊥
Gives P (some a) = P a

Gives-bind :
    {A B : Type 0} (P : A → Type 0) (Q : B → Type 0) (r : Option A) (f : A → Option B)
    → Gives P r
    → ((a : A) → P a → Gives Q (f a))
    → Gives Q (r >>= f)
Gives-bind P Q none f h g = absurd h
Gives-bind P Q (some a) f h g = g a h

Gives-mono :
    {A : Type 0} (P Q : A → Type 0) (r : Option A) → Gives P r → ((a : A) → P a → Q a) → Gives Q r
Gives-mono P Q none h g = h
Gives-mono P Q (some a) h g = g a h

-- The strings stand at the pointers, from an address on.
abbrev StringsAt : Ptr → Memory → List Ptr → List (List ℕ) → Type 0
StringsAt lo mem [] [] = Unit
StringsAt lo mem [] (s ∷ strings) = ⊥
StringsAt lo mem (p ∷ ptrs) [] = ⊥
StringsAt lo mem (p ∷ ptrs) (s ∷ strings) =
    (lo ≤ p) × (p < phys_base) × BytesAt mem p (s ++ 0 ∷ []) × StringsAt lo mem ptrs strings

StringsAt-Agree :
    (lo lo' : Ptr) (mem mem' : Memory) (ptrs : List Ptr) (strings : List (List ℕ))
    → Agree lo mem mem'
    → lo' ≤ lo
    → StringsAt lo mem ptrs strings
    → StringsAt lo' mem' ptrs strings
StringsAt-Agree lo lo' mem mem' [] [] a l h = tt
StringsAt-Agree lo lo' mem mem' [] (s ∷ strings) a l h = h
StringsAt-Agree lo lo' mem mem' (p ∷ ptrs) [] a l h = h
StringsAt-Agree lo lo' mem mem' (p ∷ ptrs) (s ∷ strings) a l (low, high, b, h) = (
  omega (arith, low, l),
  high,
  BytesAt-Agree lo mem mem' p (s ++ 0 ∷ []) a low b,
  StringsAt-Agree lo lo' mem mem' ptrs strings a l h,
)

-- The bytes that the strings take.
abbrev pub text_size : List (List ℕ) → ℕ
text_size [] = 0
text_size (arg ∷ argv) = text_size argv + (strlen arg + 1)

record IsStrings (argv : List (List ℕ)) (hi : Ptr) (mem : Memory) (r : List Ptr × Ptr × Memory)
    : Type 0 where
  sp : r.1 ≡ hi - text_size argv
  strings : StringsAt r.1 r.2 r.0 argv
  kept : Kept r.1 hi mem r.2

push_strings-IsStrings :
    (argv : List (List ℕ)) (hi : Ptr) (mem : Memory)
    → stack_page + text_size argv ≤ hi
    → hi ≤ phys_base
    → Gives (IsStrings argv hi mem) (push_strings argv (hi, mem))
unfolding push_strings
push_strings-IsStrings [] hi mem l h = record { sp = omega arith; strings = tt; kept = λ a o. refl }
push_strings-IsStrings (arg ∷ argv) hi mem l h =
    Gives-bind (IsStrings argv hi mem) (IsStrings (arg ∷ argv) hi mem) (push_strings argv (hi, mem))
      _ (push_strings-IsStrings argv hi mem (omega (arith, l)) h)
      λ (ptrs, sp, mem') t.
        let n = strlen arg + 1 in
        let e : strlen (arg ++ 0 ∷ []) ≡ n = strlen-append arg 0 in
        let room : stack_page + n ≤ sp = omega (arith, l, t.sp) in
        rw (push-some (arg ++ 0 ∷ []) sp mem' n e room) (record {
          sp = omega (arith, t.sp);
          strings = (
            omega arith,
            omega (arith, t.sp, h, room),
            write_bytes-BytesAt mem' (sp - n) (arg ++ 0 ∷ []),
            StringsAt-Agree sp (sp - n) mem' (write_bytes mem' (sp - n) (arg ++ 0 ∷ [])) ptrs argv
                (Kept-Agree (sp - n) sp mem' _
                  (push-Kept (arg ++ 0 ∷ []) sp mem' n e (omega (arith, room))))
                (omega arith) t.strings,
          );
          kept =
              Kept-trans (sp - n) sp hi mem mem' _ (omega arith) (omega (arith, t.sp)) t.kept
                (push-Kept (arg ++ 0 ∷ []) sp mem' n e (omega (arith, room)));
        })

-- The words of a list stand at an address.
abbrev WordsAt : Memory → Ptr → List ℕ → Type 0
WordsAt mem p [] = Unit
WordsAt mem p (n ∷ words) = (word_at mem p ≡ n) × WordsAt mem (p + 4) words

word_at-Agree :
    (lo : Ptr) (mem mem' : Memory) (p : Ptr)
    → Agree lo mem mem'
    → lo ≤ p
    → word_at mem' p ≡ word_at mem p
word_at-Agree lo mem mem' p a l =
    let a0 = a p l in
    let a1 = a (p + 1) (omega (arith, l)) in
    let a2 = a (p + 2) (omega (arith, l)) in
    let a3 = a (p + 3) (omega (arith, l)) in rw (a0, a1, a2, a3) refl

WordsAt-Agree :
    (lo : Ptr) (mem mem' : Memory) (p : Ptr) (words : List ℕ)
    → Agree lo mem mem'
    → lo ≤ p
    → WordsAt mem p words
    → WordsAt mem' p words
WordsAt-Agree lo mem mem' p [] a l h = tt
WordsAt-Agree lo mem mem' p (n ∷ words) a l (e, h) = (
  word_at-Agree lo mem mem' p a l ∙ e,
  WordsAt-Agree lo mem mem' (p + 4) words a (omega (arith, l)) h,
)

-- A pushed word, and all else as before.
record IsWord (n hi : ℕ) (mem : Memory) (r : Ptr × Memory) : Type 0 where
  sp : r.0 ≡ hi - 4
  word : word_at r.1 r.0 ≡ n
  kept : Kept r.0 hi mem r.1

push_word-IsWord :
    (n : ℕ) (hi : Ptr) (mem : Memory)
    → n < 2 ^ 32
    → stack_page + 4 ≤ hi
    → Gives (IsWord n hi mem) (push_word n (hi, mem))
unfolding strlen
push_word-IsWord n hi mem b l = rw (push-some (word_bytes n) hi mem 4 refl l) (record {
  sp = refl;
  word =
      word_bytes-word n (write_bytes mem (hi - 4) (word_bytes n)) (hi - 4) b
        (write_bytes-BytesAt mem (hi - 4) (word_bytes n));
  kept = push-Kept (word_bytes n) hi mem 4 refl (omega (arith, l));
})

abbrev count : List ℕ → ℕ
count [] = 0
count (n ∷ words) = count words + 1

abbrev AllWords : List ℕ → Type 0
AllWords [] = Unit
AllWords (n ∷ words) = (n < 2 ^ 32) × AllWords words

record IsWords (ns : List ℕ) (hi : Ptr) (mem : Memory) (r : Ptr × Memory) : Type 0 where
  sp : r.0 ≡ hi - 4 * count ns
  words : WordsAt r.1 r.0 ns
  kept : Kept r.0 hi mem r.1

push_words-IsWords :
    (words : List ℕ) (hi : Ptr) (mem : Memory)
    → AllWords words
    → stack_page + 4 * count words ≤ hi
    → Gives (IsWords words hi mem) (push_words words (hi, mem))
unfolding push_words
push_words-IsWords [] hi mem b l = record { sp = omega arith; words = tt; kept = λ a o. refl }
push_words-IsWords (n ∷ words) hi mem (b, bs) l =
    Gives-bind (IsWords words hi mem) (IsWords (n ∷ words) hi mem) (push_words words (hi, mem)) _
      (push_words-IsWords words hi mem bs (omega (arith, l)))
      λ (sp, mem') t.
        Gives-mono (IsWord n sp mem') (IsWords (n ∷ words) hi mem) (push_word n (sp, mem'))
          (push_word-IsWord n sp mem' b (omega (arith, l, t.sp)))
          λ (sp', mem'') w. record {
            sp = omega (arith, w.sp, t.sp);
            words = (
              w.word,
              subst (λ p. WordsAt mem'' p words) (omega (arith, w.sp, l, t.sp))
                  (WordsAt-Agree sp mem' mem'' sp words (Kept-Agree sp' sp mem' mem'' w.kept)
                    (omega arith) t.words),
            );
            kept =
                Kept-trans sp' sp hi mem mem' mem'' (omega (arith, w.sp)) (omega (arith, t.sp))
                  t.kept w.kept;
          }

-- The loop of alignment is at its end after three rounds.
record IsAligned (hi : Ptr) (mem : Memory) (r : Ptr × Memory) : Type 0 where
  sp : r.0 ≡ hi - hi % 4
  kept : Kept r.0 hi mem r.1

align-IsAligned :
    (n : ℕ) (hi : Ptr) (mem : Memory)
    → hi % 4 ≤ n
    → n < hi
    → n < 4
    → IsAligned hi mem (align n (hi, mem))
unfolding align
align-IsAligned zero hi mem l h k = record { sp = omega (arith, l); kept = λ a o. refl }
align-IsAligned (suc n) hi mem l h k = elim (Bool-cases (hi % 4 == 0)) [
  | inl e ↦ rw e (record { sp = ground (arith, e); kept = λ a o. refl })
  | inr e ↦
      let t =
        align-IsAligned n (hi - 1) (update mem (hi - 1) 0) (ground (arith, e, l, h))
          (omega (arith, h)) (omega (arith, k)) in
      rw e (record {
        sp = ground (arith, t.sp, e, h);
        kept =
            Kept-trans _ (hi - 1) hi mem (update mem (hi - 1) 0) _ (omega (arith, t.sp))
              (omega arith) (λ a o. ground (arith, o, h)) t.kept;
      })
]

-- The arguments as the program reads them: the strings that the words at an address point to, up
-- to the word 0.
abbrev pub ArgsAt : Memory → Ptr → List (List ℕ) → Type 0
ArgsAt mem p [] = word_at mem p ≡ 0
ArgsAt mem p (s ∷ argv) = BytesAt mem (word_at mem p) (s ++ 0 ∷ []) × ArgsAt mem (p + 4) argv

WordsAt-ArgsAt :
    (lo : Ptr) (mem : Memory) (p : Ptr) (ptrs : List Ptr) (argv : List (List ℕ))
    → StringsAt lo mem ptrs argv
    → WordsAt mem p ptrs
    → word_at mem (p + 4 * argc_of argv) ≡ 0
    → ArgsAt mem p argv
WordsAt-ArgsAt lo mem p [] [] h w z = ap (word_at mem) (omega arith) ∙ z
WordsAt-ArgsAt lo mem p [] (s ∷ argv) h w z = absurd h
WordsAt-ArgsAt lo mem p (q ∷ ptrs) [] h w z = absurd h
WordsAt-ArgsAt lo mem p (q ∷ ptrs) (s ∷ argv) (low, high, b, h) (e, w) z = (
  subst (λ x. BytesAt mem x (s ++ 0 ∷ [])) (sym e) b,
  WordsAt-ArgsAt lo mem (p + 4) ptrs argv h w (ap (word_at mem) (omega arith) ∙ z),
)

StringsAt-count :
    (lo : Ptr) (mem : Memory) (ptrs : List Ptr) (argv : List (List ℕ))
    → StringsAt lo mem ptrs argv
    → count ptrs ≡ argc_of argv
StringsAt-count lo mem [] [] h = refl
StringsAt-count lo mem [] (s ∷ argv) h = absurd h
StringsAt-count lo mem (q ∷ ptrs) [] h = absurd h
StringsAt-count lo mem (q ∷ ptrs) (s ∷ argv) (low, high, b, h) =
    ap (λ x. x + 1) (StringsAt-count lo mem ptrs argv h)

StringsAt-AllWords :
    (lo : Ptr) (mem : Memory) (ptrs : List Ptr) (argv : List (List ℕ))
    → StringsAt lo mem ptrs argv
    → AllWords ptrs
StringsAt-AllWords lo mem [] [] h = tt
StringsAt-AllWords lo mem [] (s ∷ argv) h = absurd h
StringsAt-AllWords lo mem (q ∷ ptrs) [] h = absurd h
StringsAt-AllWords lo mem (q ∷ ptrs) (s ∷ argv) (low, high, b, h) =
    (omega (arith, high), StringsAt-AllWords lo mem ptrs argv h)

-- The three words that `main` is called with: a return address, `argc` and `argv`.
record IsCalled (argc : ℕ) (hi : Ptr) (mem : Memory) (r : Ptr × Memory) : Type 0 where
  sp : r.0 ≡ hi - 12
  return_address : word_at r.1 r.0 ≡ 0
  argc_word : word_at r.1 (r.0 + 4) ≡ argc
  argv_word : word_at r.1 (r.0 + 8) ≡ hi
  kept : Kept r.0 hi mem r.1

push_call-IsCalled :
    (argc hi : ℕ) (mem : Memory)
    → argc < 2 ^ 32
    → hi < 2 ^ 32
    → stack_page + 12 ≤ hi
    → Gives
        (IsCalled argc hi mem)
        (push_word hi (hi, mem) >>= λ st. push_word argc st >>= λ st. push_word 0 st)
push_call-IsCalled argc hi mem a h l =
    Gives-bind (IsWord hi hi mem) (IsCalled argc hi mem) (push_word hi (hi, mem)) _
      (push_word-IsWord hi hi mem h (omega (arith, l)))
      λ (p1, m1) w1.
        Gives-bind (IsWord argc p1 m1) (IsCalled argc hi mem) (push_word argc (p1, m1)) _
          (push_word-IsWord argc p1 m1 a (omega (arith, l, w1.sp)))
          λ (p2, m2) w2.
            Gives-mono (IsWord 0 p2 m2) (IsCalled argc hi mem) (push_word 0 (p2, m2))
              (push_word-IsWord 0 p2 m2 (omega arith) (omega (arith, l, w1.sp, w2.sp)))
              λ (p3, m3) w3.
                let at2 : p3 + 4 ≡ p2 = omega (arith, w3.sp, w2.sp, w1.sp, l) in
                let at1 : p3 + 8 ≡ p1 = omega (arith, w3.sp, w2.sp, w1.sp, l) in
                let k =
                  Kept-trans p3 p2 p1 m1 m2 m3 (omega (arith, w3.sp)) (omega (arith, w2.sp)) w2.kept
                    w3.kept in
                record {
                  sp = omega (arith, w3.sp, w2.sp, w1.sp);
                  return_address = w3.word;
                  argc_word =
                      ap (word_at m3) at2
                      ∙ word_at-Agree p2 m2 m3 p2 (Kept-Agree p3 p2 m2 m3 w3.kept) (omega arith)
                      ∙ w2.word;
                  argv_word =
                      ap (word_at m3) at1
                      ∙ word_at-Agree p1 m1 m3 p1 (Kept-Agree p3 p1 m1 m3 k) (omega arith)
                      ∙ w1.word;
                  kept =
                      Kept-trans p3 p1 hi mem m1 m3 (omega (arith, at1)) (omega (arith, w1.sp))
                        w1.kept k;
                }

-- How far down the arguments reach.
abbrev pub args_size : List (List ℕ) → ℕ
args_size argv = (text_size argv + 3) / 4 * 4 + 4 * (argc_of argv + 4)

-- What `main` finds at its stack pointer.
pub record IsStarted (argv : List (List ℕ)) (mem : Memory) (r : Ptr × Memory) : Type 0 where
  pub sp : r.0 ≡ phys_base - args_size argv
  pub return_address : word_at r.1 r.0 ≡ 0
  pub argc : word_at r.1 (r.0 + 4) ≡ argc_of argv
  pub argv_start : word_at r.1 (r.0 + 8) ≡ r.0 + 12
  pub args : ArgsAt r.1 (r.0 + 12) argv
  pub kept : (a : Ptr) → (a < r.0) ⊎ (phys_base ≤ a) → r.1 a ≡ mem a

started :
    (argv : List (List ℕ)) (mem : Memory) (ptrs : List Ptr) (p0 p2 p3 p4 : Ptr)
    (m0 m2 m3 m4 : Memory)
    → args_size argv ≤ pgsize
    → p4 ≡ phys_base - args_size argv
    → p2 ≡ p3 + 4 * argc_of argv
    → IsStrings argv phys_base mem (ptrs, p0, m0)
    → word_at m2 p2 ≡ 0
    → WordsAt m3 p3 ptrs
    → IsCalled (argc_of argv) p3 m3 (p4, m4)
    → Kept p4 p2 m2 m4
    → Kept p4 p0 m0 m4
    → IsStarted argv mem (p4, m4)
started argv mem ptrs p0 p2 p3 p4 m0 m2 m3 m4 l top end t z w h k3 k1 =
    let at3 : p4 + 12 ≡ p3 = omega (arith, h.sp, top, l) in
    record {
      sp = top;
      return_address = h.return_address;
      argc = h.argc_word;
      argv_start = h.argv_word ∙ sym at3;
      args =
          subst (λ p. ArgsAt m4 p argv) (sym at3)
            (WordsAt-ArgsAt p0 m4 p3 ptrs argv
              (StringsAt-Agree p0 p0 m0 m4 ptrs argv (Kept-Agree p4 p0 m0 m4 k1) (omega arith)
                t.strings)
              (WordsAt-Agree p3 m3 m4 p3 ptrs (Kept-Agree p4 p3 m3 m4 h.kept) (omega arith) w)
              (ap (word_at m4) (sym end)
                ∙ word_at-Agree p2 m2 m4 p2 (Kept-Agree p4 p2 m2 m4 k3) (omega arith)
                ∙ z));
      kept =
          Kept-trans p4 p0 phys_base mem m0 m4 (omega (arith, top, t.sp)) (omega (arith, t.sp))
            t.kept k1;
    }

-- If the strings with their null bytes, aligned, and the words for the pointers, the null pointer
-- and the three words of the call fit into the page, then the pushing of the arguments succeeds:
-- the stack pointer is moved down by just that, at it are a return address of 0, the number of arguments
-- and the address of the array behind them, each pointer of the array points to its string with
-- its null byte, a null pointer ends the array, and no byte below the stack pointer is touched.
pub push_args-IsStarted :
    (argv : List (List ℕ)) (mem : Memory)
    → args_size argv ≤ pgsize
    → Gives (IsStarted argv mem) (push_args argv mem)
unfolding push_args
push_args-IsStarted argv mem l =
    Gives-bind (IsStrings argv phys_base mem) (IsStarted argv mem)
      (push_strings argv (phys_base, mem)) _
      (push_strings-IsStrings argv phys_base mem (omega (arith, l)) (omega arith))
      λ (ptrs, p0, m0) t.
        let c = align-IsAligned 3 p0 m0 (omega arith) (omega (arith, t.sp, l)) (omega arith) in
        let p1 = (align 3 (p0, m0)).0 in
        let m1 = (align 3 (p0, m0)).1 in
        Gives-bind (IsWord 0 p1 m1) (IsStarted argv mem) (push_word 0 (p1, m1)) _
          (push_word-IsWord 0 p1 m1 (omega arith) (omega (arith, l, t.sp, c.sp)))
          λ (p2, m2) z.
            let n = StringsAt-count p0 m0 ptrs argv t.strings in
            Gives-bind (IsWords ptrs p2 m2) (IsStarted argv mem) (push_words ptrs (p2, m2)) _
              (push_words-IsWords ptrs p2 m2 (StringsAt-AllWords p0 m0 ptrs argv t.strings)
                (omega (arith, l, t.sp, c.sp, z.sp, n)))
              λ (p3, m3) w.
                Gives-mono (IsCalled (argc_of argv) p3 m3) (IsStarted argv mem) _
                  (push_call-IsCalled (argc_of argv) p3 m3 (omega (arith, l))
                    (omega (arith, w.sp, z.sp, c.sp, t.sp))
                    (omega (arith, l, w.sp, z.sp, c.sp, t.sp, n)))
                  λ (p4, m4) h.
                    let k3 =
                      Kept-trans p4 p3 p2 m2 m3 m4 (omega (arith, h.sp)) (omega (arith, w.sp))
                        w.kept h.kept in
                    let k2 =
                      Kept-trans p4 p2 p1 m1 m2 m4 (omega (arith, h.sp, w.sp)) (omega (arith, z.sp))
                        z.kept k3 in
                    let k1 =
                      Kept-trans p4 p1 p0 m0 m1 m4 (omega (arith, h.sp, w.sp, z.sp))
                        (omega (arith, c.sp)) c.kept k2 in
                    started argv mem ptrs p0 p2 p3 p4 m0 m2 m3 m4 l
                      (omega (arith, h.sp, w.sp, z.sp, c.sp, t.sp, n, l))
                      (omega (arith, w.sp, z.sp, c.sp, t.sp, n, l)) t z.word w.words h k3 k1
