-- ===== src/Inode/Bytes.antt =====
-- An inode as a sequence of bytes, and the part of a sector that a round takes.
use gpintosy.Prelude.{
  ℕ, ◌+◌, ◌-◌, ◌/◌, ◌%◌, ◌≡◌, ◌≤◌, ◌<◌, sym, ap, ◌∙◌, false, Option, none, some, arith, ltb, ◌==◌,
  if◌then◌else◌,
}
use gpintosy.Kernel.{Result, ok, panic, undefined, ◌>>=◌, Succeeds}
use gpintosy.Swap.{Driver, Block}
use gpintosy.Inode.{Inode, inode_length, byte_to_sector, chunk_size}

-- There is a result, of which `P` holds.
abbrev pub OnSome : {A : Type 0} → (A → Type 0) → Option A → Type 0
OnSome P none = ⊥
OnSome P (some a) = P a

pub Succeeds-some :
    {A B : Type 0} (P : A → Type 0) (Q : B → Type 0) (r : Result (Option A)) (z : Result B)
    (f : A → Result B)
    → Succeeds (OnSome P) r
    → ((a : A) → P a → Succeeds Q (f a))
    → Succeeds Q (r >>= λ x. elim x as (λ y. Result B) [ none ↦ z | some a ↦ f a ])
Succeeds-some P Q (ok none) z f h g = absurd h
Succeeds-some P Q (ok (some a)) z f h g = g a h
Succeeds-some P Q panic z f h g = absurd h
Succeeds-some P Q undefined z f h g = absurd h

module _ {D : Type 0} (driver : Driver D) (inode : Inode) where
  -- The byte of the file at an offset.
  abbrev pub byte : Block D → ℕ → ℕ
  byte block i = driver.read block.aux (inode.start + i / 512) (i % 512)

  -- The sectors of the file are on the device, which is not a foreign one.
  pub record IsOn (block : Block D) : Type 0 where
    pub own : block.foreign ≡ false
    pub fits : (i : ℕ) → i < inode.len → inode.start + i / 512 < block.size

  pub sector-same :
      (block : Block D) (offset k : ℕ)
      → offset % 512 + k < 512
      → driver.read block.aux (inode.start + offset / 512) (offset % 512 + k)
        ≡ byte block (offset + k)
  sector-same block offset k h =
      let q : (offset + k) / 512 ≡ offset / 512 = omega arith in
      let r : (offset + k) % 512 ≡ offset % 512 + k = omega arith in
      ap (λ s. driver.read block.aux (inode.start + s) (offset % 512 + k)) (sym q)
      ∙ ap (λ t. driver.read block.aux (inode.start + (offset + k) / 512) t) (sym r)

-- How many bytes from an offset on are in the file, at most `size`.
abbrev pub available : Inode → ℕ → ℕ → ℕ
available inode size offset = if ltb size (inode.len - offset) then size else inode.len - offset

pub byte_to_sector_lem :
    (inode : Inode) (offset : ℕ)
    → offset < inode.len
    → byte_to_sector inode offset ≡ inode.start + offset / 512
unfolding byte_to_sector
byte_to_sector_lem inode offset h = ground arith

-- A round takes bytes of one sector that are asked for and in the file; it takes none only at the end.
pub record IsChunk (inode : Inode) (size offset chunk : ℕ) : Type 0 where
  pub asked : chunk ≤ size
  pub inside : chunk ≤ inode.len - offset
  pub in_sector : offset % 512 + chunk ≤ 512
  pub last : chunk ≡ 0 → available inode size offset ≡ 0

pub chunk_size-IsChunk :
    (inode : Inode) (size offset : ℕ) → IsChunk inode size offset (chunk_size inode size offset)
unfolding chunk_size inode_length
chunk_size-IsChunk inode size offset = record {
  asked = ground arith;
  inside = ground arith;
  in_sector = ground arith;
  last = λ h. ground arith;
}

pub available-chunk :
    (inode : Inode) (size offset chunk : ℕ)
    → IsChunk inode size offset chunk
    → available inode size offset ≡ chunk + available inode (size - chunk) (offset + chunk)
available-chunk inode size offset chunk c = ground (arith, c.asked, c.inside)

-- A round that takes something starts in the file.
pub chunk-inside :
    (inode : Inode) (size offset chunk : ℕ)
    → IsChunk inode size offset chunk
    → (chunk == 0) ≡ false
    → offset < inode.len
chunk-inside inode size offset chunk c e = ground (arith, c.inside)
