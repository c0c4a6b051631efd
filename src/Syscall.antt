-- ===== src/Syscall.antt =====
-- src/userprog/syscall.c: what a system call works on, and what it comes to.
--
-- A system call runs to its end without another process in between, so that the lock of the file
-- system is left out. It ends early if the process exits, or has to wait for another thread.
-- `heap` is how many blocks `malloc` still finds.
pub mod Memory
pub mod Descriptors
pub mod Calls
pub mod Mmap
use gpintosy.Prelude.{
  ℕ, ◌+◌, ◌-◌, Bool, true, false, Option, none, some, List, [], ◌∷◌, ◌==◌, if◌then◌else◌,
}
use gpintosy.Prelude.Int.{ℤ, negsuc}
use gpintosy.Kernel.{Ptr, Result, ok, panic, undefined, Succeeds}
use gpintosy.Vm.{Vm}

-- `struct file_descriptor`
pub record Descriptor : Type 0 where
  pub fd : ℕ
  pub file : Ptr

-- `struct mmap_mapping`
pub record Mapping : Type 0 where
  pub md : ℕ
  pub addr : Ptr
  pub length : ℕ
  pub file : Ptr

-- The running process and the devices: `output` is what `putbuf` has written, the last call first,
-- and `input` what `input_getc` returns next.
pub record Sys (D F : Type 0) : Type 0 where
  pub vm : Vm D F
  pub fd_list : List Descriptor
  pub next_fd : ℕ
  pub mmap_list : List Mapping
  pub next_md : ℕ
  pub user_esp : Ptr
  pub heap : ℕ
  pub input : List ℕ
  pub output : List (List ℕ)

pub data Answer (A : Type 0) : Type 0 where
  returns : A → Answer A
  exits : ℤ → Answer A
  waits : Answer A

-- A part of a system call.
abbrev pub Call : Type 0 → Type 0 → Type 0 → Type 0
Call D F A = Sys D F → Result (Answer A × Sys D F)

module _ {D F : Type 0} where
  abbrev pub next :
      {A B : Type 0} → (A → Call D F B) → Result (Answer A × Sys D F) → Result (Answer B × Sys D F)
  next f (ok (returns a, s)) = f a s
  next f (ok (exits n, s)) = ok (exits n, s)
  next f (ok (waits, s)) = ok (waits, s)
  next f panic = panic
  next f undefined = undefined

  infixl 5 ◌>>=◌ ◌>>◌
  abbrev pub ◌>>=◌ : {A B : Type 0} → Call D F A → (A → Call D F B) → Call D F B
  ◌>>=◌ m f s = next f (m s)

  abbrev pub ◌>>◌ : {B : Type 0} → Call D F (Unit {0}) → Call D F B → Call D F B
  m >> k = m >>= λ _. k

  abbrev pub pure : {A : Type 0} → A → Call D F A
  pure a s = ok (returns a, s)

  abbrev pub get : Call D F (Sys D F)
  get s = ok (returns s, s)

  abbrev pub put : Sys D F → Call D F (Unit {0})
  put s' s = ok (returns tt, s')

  abbrev pub set_vm : Vm D F → Call D F (Unit {0})
  set_vm vm s = ok (returns tt, record s { vm = vm })

  -- A call that cannot fail but by an assertion.
  abbrev pub lift : {A : Type 0} → Result A → Call D F A
  lift (ok a) s = ok (returns a, s)
  lift panic s = panic
  lift undefined s = undefined

  unfoldable pub sys_exit : {A : Type 0} → ℤ → Call D F A
  sys_exit status s = ok (exits status, s)

  -- `malloc`: whether there was memory.
  unfoldable pub malloc : Call D F Bool
  malloc s =
      if s.heap == 0
      then ok (returns false, s)
      else ok (returns true, record s { heap = s.heap - 1 })

  unfoldable pub free : Call D F (Unit {0})
  free s = ok (returns tt, record s { heap = s.heap + 1 })

  -- A call that comes back, with a result and a state that satisfy `P`.
  abbrev pub Ends : {A : Type 0} → (A → Sys D F → Type 0) → Result (Answer A × Sys D F) → Type 0
  Ends P (ok (returns a, s)) = P a s
  Ends P (ok (exits n, s)) = ⊥
  Ends P (ok (waits, s)) = ⊥
  Ends P panic = ⊥
  Ends P undefined = ⊥

  pub Ends-next :
      {A B : Type 0} (P : A → Sys D F → Type 0) (Q : B → Sys D F → Type 0) (f : A → Call D F B)
      (r : Result (Answer A × Sys D F))
      → Ends P r
      → ((a : A) (s : Sys D F) → P a s → Ends Q (f a s))
      → Ends Q (next f r)
  Ends-next P Q f (ok (returns a, s)) h g = g a s h
  Ends-next P Q f (ok (exits n, s)) h g = absurd h
  Ends-next P Q f (ok (waits, s)) h g = absurd h
  Ends-next P Q f panic h g = absurd h
  Ends-next P Q f undefined h g = absurd h

  pub Ends-mono :
      {A : Type 0} (P Q : A → Sys D F → Type 0) (r : Result (Answer A × Sys D F))
      → Ends P r
      → ((a : A) (s : Sys D F) → P a s → Q a s)
      → Ends Q r
  Ends-mono P Q (ok (returns a, s)) h g = g a s h
  Ends-mono P Q (ok (exits n, s)) h g = h
  Ends-mono P Q (ok (waits, s)) h g = h
  Ends-mono P Q panic h g = h
  Ends-mono P Q undefined h g = h

  pub Ends-lift :
      {A B : Type 0} (P : A → Type 0) (r : Result A) (Q : B → Sys D F → Type 0) (f : A → Call D F B)
      (s : Sys D F)
      → Succeeds P r
      → ((a : A) → P a → Ends Q (f a s))
      → Ends Q ((lift r >>= f) s)
  Ends-lift P (ok a) Q f s h g = g a h
  Ends-lift P panic Q f s h g = absurd h
  Ends-lift P undefined Q f s h g = absurd h

  -- A call whose results, if it comes back, satisfy `P`.
  abbrev pub Allows : {A : Type 0} → (A → Sys D F → Type 0) → Result (Answer A × Sys D F) → Type 0
  Allows P (ok (returns a, s)) = P a s
  Allows P (ok (exits n, s)) = Unit
  Allows P (ok (waits, s)) = Unit
  Allows P panic = Unit
  Allows P undefined = Unit

  pub Allows-next :
      {A B : Type 0} (P : A → Sys D F → Type 0) (Q : B → Sys D F → Type 0) (f : A → Call D F B)
      (r : Result (Answer A × Sys D F))
      → Allows P r
      → ((a : A) (s : Sys D F) → P a s → Allows Q (f a s))
      → Allows Q (next f r)
  Allows-next P Q f (ok (returns a, s)) h g = g a s h
  Allows-next P Q f (ok (exits n, s)) h g = tt
  Allows-next P Q f (ok (waits, s)) h g = tt
  Allows-next P Q f panic h g = tt
  Allows-next P Q f undefined h g = tt
