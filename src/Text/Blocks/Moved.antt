-- ===== src/Text/Blocks/Moved.antt =====
-- What `memmove` leaves, also of blocks that overlap.
use gpintosy.Prelude.{
  ℕ, zero, suc, ◌+◌, ◌-◌, ◌≡◌, ◌≢◌, ◌≤◌, refl, ap, ◌∙◌, true, ◌&&◌, arith, ltb, leb, ◌==◌,
  if◌then◌else◌, Bool-cases, inl, inr,
}
use gpintosy.Kernel.{Ptr, null, update, Succeeds}
use gpintosy.Vaddr.{Memory, put_bytes}
use gpintosy.Text.Blocks.{copy_up, copy_down, is_block, memmove}

copy_up-put_bytes :
    (size : ℕ) (dst src : Ptr) (m : Memory) (a : Ptr)
    → dst ≤ src
    → copy_up dst src size m a ≡ put_bytes m dst size (λ i. m (src + i)) a
unfolding copy_up
copy_up-put_bytes zero dst src m a l = ground arith
copy_up-put_bytes (suc n) dst src m a l =
    copy_up-put_bytes n (dst + 1) (src + 1) (update m dst (m src)) a (omega (arith, l))
    ∙ (elim (Bool-cases (ltb dst a)) [
      | inl e ↦
          let same : m (src + 1 + (a - (dst + 1))) ≡ m (src + (a - dst)) =
            ap m (ground (arith, e)) in
          ground (arith, e, same, l)
      | inr e ↦ elim (Bool-cases (a == dst)) [
        | inl q ↦
            let start : m (src + (a - dst)) ≡ m src = ap m (ground (arith, q)) in
            ground (arith, q, start)
        | inr q ↦ ground (arith, e, q)
      ]
    ])

copy_down-put_bytes :
    (size : ℕ) (dst src : Ptr) (m : Memory) (a : Ptr)
    → src ≤ dst
    → copy_down dst src size m a ≡ put_bytes m dst size (λ i. m (src + i)) a
unfolding copy_down
copy_down-put_bytes zero dst src m a l = ground arith
copy_down-put_bytes (suc n) dst src m a l =
    copy_down-put_bytes n dst src (update m (dst + n) (m (src + n))) a l
    ∙ (elim (Bool-cases (a == dst + n)) [
      | inl q ↦
          let end : m (src + (a - dst)) ≡ m (src + n) = ap m (ground (arith, q)) in
          ground (arith, q, end)
      | inr q ↦ ground (arith, q, l)
    ])

-- What `memmove` comes to.
pub record IsMoved (dst src size : ℕ) (m : Memory) (r : Ptr × Memory) : Type 0 where
  pub bytes :
      (a : Ptr) → r.1 a ≡ (if leb dst a && ltb a (dst + size) then m (src + (a - dst)) else m a)
  pub pointer : r.0 ≡ (if ltb dst src then dst + size else dst)

-- For blocks that are not null, `memmove` fails no assertion and leaves in the destination the bytes
-- that the source held before, wherever the two overlap, and changes no other byte; but it returns
-- the end of the destination if that is before the source, and its start if not.
pub memmove-IsMoved :
    (dst src size : ℕ) (m : Memory)
    → dst ≢ null
    → src ≢ null
    → Succeeds (IsMoved dst src size m) (memmove dst src size m)
unfolding memmove
memmove-IsMoved dst src size m d s =
    let db : is_block dst size ≡ true = ground (arith, d) in
    let sb : is_block src size ≡ true = ground (arith, s) in
    elim (Bool-cases (ltb dst src)) [
      | inl e ↦
          rw (db, sb, e)
            (record {
              bytes = λ a. copy_up-put_bytes size dst src m a (ground (arith, e));
              pointer = rw e refl;
            })
      | inr e ↦
          rw (db, sb, e)
            (record {
              bytes = λ a. copy_down-put_bytes size dst src m a (ground (arith, e));
              pointer = rw e refl;
            })
    ]
