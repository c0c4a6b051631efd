-- ===== src/Syscall/Memory/Checked.antt =====
-- What the check of a user buffer guarantees.
use gpintosy.Prelude.{
  ℕ, zero, suc, ◌+◌, ◌-◌, ◌*◌, ◌/◌, ◌^◌, ◌%◌, ◌≡◌, ◌≢◌, ◌≤◌, ◌<◌, refl, true, false, not, ◌||◌,
  some, arith, ltb, ◌==◌, if◌then◌else◌, Bool-cases, inl, inr,
}
use mathlib.Core.Path.{subst}
use gpintosy.Kernel.{Ptr, null, Result, ok, panic, undefined}
use gpintosy.Vaddr.{pgsize, phys_base, pg_ofs, pg_no, pg_round_down, is_user_vaddr}
use gpintosy.Pagedir.{Pagedir, is_present, lookup_page, pagedir_get_page}
use gpintosy.Swap.{Driver}
use gpintosy.Vm.{SptEntry, Files}
use gpintosy.Syscall.{Sys, Answer, returns, exits, waits, sys_exit, Allows, Allows-next}
use gpintosy.Syscall.Memory.{get_page, check_user_vaddr, check_pages, check_user_buffer}

-- What is known of a buffer that the check lets pass.
pub record IsUserBuffer (buffer size : ℕ) : Type 0 where
  pub there : buffer ≢ null
  pub below : buffer + size ≤ phys_base

module _ {D F : Type 0} (driver : Driver D) (fs : Files F) where
  Allows-any : {A : Type 0} (P : Type 0) (r : Result (Answer A × Sys D F)) → P → Allows (λ _ _. P) r
  Allows-any P (ok (returns a, s)) p = p
  Allows-any P (ok (exits n, s)) p = tt
  Allows-any P (ok (waits, s)) p = tt
  Allows-any P panic p = tt
  Allows-any P undefined p = tt

  check_user_vaddr-Allows :
      (uaddr : Ptr) (s : Sys D F)
      → Allows (λ _ _. (uaddr ≢ null) × (uaddr < phys_base)) (check_user_vaddr driver fs uaddr s)
  unfolding check_user_vaddr sys_exit is_user_vaddr
  check_user_vaddr-Allows uaddr s =
      elim (Bool-cases ((uaddr == null) || not (ltb uaddr phys_base))) [
        | inl e ↦ rw e tt
        | inr e ↦
            let user : uaddr < phys_base = ground (arith, e) in
            let there : uaddr ≢ null = ground (arith, e) in
            Allows-any ((uaddr ≢ null) × (uaddr < phys_base)) (check_user_vaddr driver fs uaddr s)
              (there, user)
      ]

  get_page-some :
      (uaddr : Ptr) (pd : Pagedir) (s : Sys D F)
      → s.vm.pagedirs s.vm.cur ≡ some pd
      → ltb uaddr phys_base ≡ true
      → get_page driver fs uaddr s
        ≡ ok (
          returns (
              if is_present (lookup_page pd uaddr)
              then (pd.ptes (pg_no uaddr)).page + pg_ofs uaddr
              else null),
          s,
        )
  unfolding get_page pagedir_get_page is_user_vaddr
  get_page-some uaddr pd s p c = rw (get_page, p, c) refl

  -- An address of a page of which there is an entry passes the check, which changes nothing then.
  check_user_vaddr-entry :
      (uaddr : Ptr) (pd : Pagedir) (e : SptEntry) (s : Sys D F)
      → s.vm.pagedirs s.vm.cur ≡ some pd
      → uaddr ≢ null
      → uaddr < phys_base
      → s.vm.spts s.vm.cur (pg_round_down uaddr) ≡ some e
      → check_user_vaddr driver fs uaddr s ≡ ok (returns tt, s)
  unfolding check_user_vaddr is_user_vaddr
  check_user_vaddr-entry uaddr pd e s p n l h =
      let b : ((uaddr == null) || not (ltb uaddr phys_base)) ≡ false = ground (arith, n, l) in
      rw (b, get_page-some uaddr pd s p (ground (arith, l)), h) refl

  check_pages-entries :
      (n : ℕ) (uaddr : Ptr) (pd : Pagedir) (entries : Ptr → SptEntry) (s : Sys D F)
      → s.vm.pagedirs s.vm.cur ≡ some pd
      → uaddr ≢ null
      → ((i : ℕ) → i < n → uaddr + 4096 * i < phys_base)
      → ((i : ℕ)
          → i < n
          → s.vm.spts s.vm.cur (pg_round_down (uaddr + 4096 * i))
            ≡ some (entries (pg_round_down (uaddr + 4096 * i))))
      → check_pages driver fs n uaddr s ≡ ok (returns tt, s)
  unfolding check_pages
  check_pages-entries zero uaddr pd entries s p n l f = refl
  check_pages-entries (suc k) uaddr pd entries s p n l f =
      let at0 : uaddr + 4096 * 0 ≡ uaddr = omega arith in
      let e =
        subst (λ v. s.vm.spts s.vm.cur (pg_round_down v) ≡ some (entries (pg_round_down v))) at0
          (f 0 (omega arith)) in
      let m : uaddr + 4096 ≢ null = λ q. absurd (n (omega (arith, q))) in
      rw
        (check_user_vaddr-entry uaddr pd (entries (pg_round_down uaddr)) s p n
          (omega (arith, l 0 (omega arith))) e)
        (check_pages-entries k (uaddr + 4096) pd entries s p m
          (λ i h. omega (arith, l (suc i) (omega (arith, h))))
          (λ i h.
            let next_page : uaddr + 4096 * suc i ≡ uaddr + 4096 + 4096 * i = omega arith in
            subst (λ v. s.vm.spts s.vm.cur (pg_round_down v) ≡ some (entries (pg_round_down v)))
              next_page (f (suc i) (omega (arith, h)))))

  -- For a buffer of one byte or more, with 32-bit words for its address and its size: if
  -- `check_user_buffer` comes back, then the buffer is not null and ends in user memory, however the sum
  -- of the two wraps around.
  pub check_user_buffer-IsUserBuffer :
      (buffer size : ℕ) (s : Sys D F)
      → buffer < 2 ^ 32
      → size < 2 ^ 32
      → 0 < size
      → Allows (λ _ _. IsUserBuffer buffer size) (check_user_buffer driver fs buffer size s)
  unfolding check_user_buffer sys_exit
  check_user_buffer-IsUserBuffer buffer size s b z h =
      let last = (buffer + size - 1) % 2 ^ 32 in
      let c : (size == 0) ≡ false = ground (arith, h) in
      elim (Bool-cases (ltb last buffer)) [
        | inl e ↦ rw (c, e) tt
        | inr e ↦
            rw (c, e)
              (Allows-next (λ _ _. (buffer ≢ null) × (buffer < phys_base))
                (λ _ _. IsUserBuffer buffer size) _ (check_user_vaddr driver fs buffer s)
                (check_user_vaddr-Allows buffer s)
                (λ _ s' u.
                  Allows-next (λ _ _. (last ≢ null) × (last < phys_base))
                    (λ _ _. IsUserBuffer buffer size) _ (check_user_vaddr driver fs last s')
                    (check_user_vaddr-Allows last s')
                    (λ _ s'' v.
                      Allows-any (IsUserBuffer buffer size) _
                        (record { there = u.0; below = ground (arith, e, v.1, b, z) }))))
      ]

  -- If a buffer of one byte or more is not null and ends in user memory, each of its bytes is in a page
  -- with an entry and the process has a page directory, then `check_user_buffer` comes back and
  -- changes nothing.
  pub check_user_buffer-returns :
      (buffer size : ℕ) (pd : Pagedir) (entries : Ptr → SptEntry) (s : Sys D F)
      → s.vm.pagedirs s.vm.cur ≡ some pd
      → IsUserBuffer buffer size
      → 0 < size
      → ((v : Ptr)
          → buffer ≤ v
          → v < buffer + size
          → s.vm.spts s.vm.cur (pg_round_down v) ≡ some (entries (pg_round_down v)))
      → check_user_buffer driver fs buffer size s ≡ ok (returns tt, s)
  unfolding check_user_buffer
  check_user_buffer-returns buffer size pd entries s p u h f =
      let c : (size == 0) ≡ false = ground (arith, h) in
      let w : (buffer + size - 1) % 2 ^ 32 ≡ buffer + size - 1 = omega (arith, u.below) in
      let e : ltb (buffer + size - 1) buffer ≡ false = ground (arith, h) in
      let m : buffer + size - 1 ≢ null = λ q. absurd (u.there (omega (arith, q, h))) in
      let first =
        check_user_vaddr-entry buffer pd (entries (pg_round_down buffer)) s p u.there
          (omega (arith, u.below, h)) (f buffer (omega arith) (omega (arith, h))) in
      let last =
        check_user_vaddr-entry (buffer + size - 1) pd (entries (pg_round_down (buffer + size - 1)))
          s p m (omega (arith, u.below, h))
          (f (buffer + size - 1) (omega (arith, h)) (omega (arith, h))) in
      rw (c, w, e, first, last)
        (check_pages-entries ((size + pgsize - 1) / pgsize) buffer pd entries s p u.there
          (λ i l. omega (arith, l, u.below, h))
          (λ i l. f (buffer + 4096 * i) (omega arith) (omega (arith, l, h))))
