-- ===== src/Vm/Load/Access.antt =====
-- Which page faults may load a page.
use gpintosy.Prelude.{
  ◌+◌, ◌^◌, ◌≡◌, ◌≤◌, ◌<◌, refl, Bool, true, false, not, ◌&&◌, none, some, ◌⊎◌, inl, inr, arith,
  if◌then◌else◌, Option-cases, Bool-cases,
}
use gpintosy.Kernel.{Ptr, ok}
use gpintosy.Vaddr.{pg_round_down, is_user_vaddr}
use gpintosy.Pagedir.{Pagedir}
use gpintosy.Swap.{Driver}
use gpintosy.Vm.{SptEntry, Files, Vm}
use gpintosy.Vm.Load.{Fault, kills, fails_probe, seems_like_stack_access, page_fault}

-- An access in the last 8 MB of user memory, above the stack pointer or at most 32 bytes below it.
abbrev pub IsStackAccess : Ptr → Ptr → Type 0
IsStackAccess fault_addr esp =
    (fault_addr < 3221225472)
    × (3221225472 ≤ fault_addr + 8388608)
    × (32 ≤ esp)
    × (esp ≤ fault_addr + 32)

-- The test computes this for every stack pointer of 32 bits, although it subtracts 32 from words.
pub seems_like_stack_access-true :
    (fault_addr esp : Ptr)
    → esp < 2 ^ 32
    → seems_like_stack_access fault_addr esp ≡ true
    → IsStackAccess fault_addr esp
unfolding seems_like_stack_access is_user_vaddr
seems_like_stack_access-true f esp h e = ground arith

pub seems_like_stack_access-Is :
    (fault_addr esp : Ptr)
    → esp < 2 ^ 32
    → IsStackAccess fault_addr esp
    → seems_like_stack_access fault_addr esp ≡ true
unfolding seems_like_stack_access is_user_vaddr
seems_like_stack_access-Is f esp h e = ground arith

-- What a fault comes to that is not answered.
abbrev pub refused : Bool → Fault
refused user = if user then kills else fails_probe

module _ {D F : Type 0} where
  -- The process has an entry for the page, with the right to do what was tried.
  abbrev pub IsListed : Bool → Ptr → Vm D F → Type 0
  IsListed write fault_addr vm =
      (e : SptEntry) × (vm.spts vm.cur (pg_round_down fault_addr) ≡ some e)
      × ((write ≡ true) → e.writable ≡ true)

  -- A fault that may be answered by loading a page.
  abbrev pub MayLoad : Bool → Bool → Ptr → Ptr → Vm D F → Type 0
  MayLoad not_present write fault_addr esp vm =
      (not_present ≡ true)
      × (fault_addr < 3221225472)
      × (IsListed write fault_addr vm
          ⊎ ((vm.spts vm.cur (pg_round_down fault_addr) ≡ none) × IsStackAccess fault_addr esp))

  module _ (driver : Driver D) (fs : Files F) (not_present write user room : Bool)
      (fault_addr esp : Ptr) (vm : Vm D F) (pd : Pagedir) where
    user_page :
        (not_present && is_user_vaddr fault_addr) ≡ true
        → (not_present ≡ true) × (fault_addr < 3221225472)
    unfolding is_user_vaddr
    user_page e = ground arith

    no_stack :
        esp < 2 ^ 32
        → ¬ MayLoad not_present write fault_addr esp vm
        → (not_present && is_user_vaddr fault_addr) ≡ true
        → vm.spts vm.cur (pg_round_down fault_addr) ≡ none
        → seems_like_stack_access fault_addr esp ≡ false
    no_stack w n e s = elim (Bool-cases (seems_like_stack_access fault_addr esp)) [
      | inr f ↦ f
      | inl f ↦
          let (p, u) = user_page e in
          absurd (n (p, u, inr (s, seems_like_stack_access-true fault_addr esp w f)))
    ]

    no_right :
        ¬ MayLoad not_present write fault_addr esp vm
        → (not_present && is_user_vaddr fault_addr) ≡ true
        → (x : SptEntry) → vm.spts vm.cur (pg_round_down fault_addr) ≡ some x
        → (write && not x.writable) ≡ true
    no_right n e x s = elim (Bool-cases (write && not x.writable)) [
      | inl f ↦ f
      | inr f ↦ let (p, u) = user_page e in absurd (n (p, u, inl (x, s, λ r. ground arith)))
    ]

    -- In a process with a page directory, a fault on a page that is present, on a kernel address,
    -- on a page without the right to write, or on an unknown page that is no access of the stack,
    -- changes nothing: it kills the process, or fails the probe of the kernel.
    pub page_fault-refused :
        vm.pagedirs vm.cur ≡ some pd
        → esp < 2 ^ 32
        → ¬ MayLoad not_present write fault_addr esp vm
        → page_fault driver fs not_present write user room fault_addr esp vm ≡ ok (refused user, vm)
    unfolding page_fault
    page_fault-refused t w n = elim (Bool-cases (not_present && is_user_vaddr fault_addr)) [
      | inr e ↦ rw e refl
      | inl e ↦ elim (Option-cases (vm.spts vm.cur (pg_round_down fault_addr))) [
        | inl s ↦
            let f : seems_like_stack_access fault_addr esp ≡ false = no_stack w n e s in
            rw (e, t, s, f) refl
        | inr (x, s) ↦
            let f : (write && not x.writable) ≡ true = no_right n e x s in rw (e, t, s, f) refl
      ]
    ]
