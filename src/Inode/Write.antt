-- ===== src/Inode/Write.antt =====
-- `inode_write_at` changes the bytes of a file.
use gpintosy.Prelude.{
  ℕ, zero, suc, ◌+◌, ◌-◌, ◌/◌, ◌%◌, ◌≡◌, ◌≤◌, ◌<◌, refl, ap, ◌∙◌, true, false, ◌&&◌, ◌||◌, ◌⊎◌, inl,
  inr, arith, ltb, leb, ◌==◌, if◌then◌else◌, Bool-cases,
}
use gpintosy.Kernel.{Ptr, ok, Succeeds, Succeeds-mono}
use gpintosy.Vaddr.{Memory, put_bytes}
use gpintosy.Swap.{Driver, Block, block_write, check_sector, put_sector, bytes_at}
use gpintosy.Inode.{
  Inode, byte_to_sector, chunk_size, fill_bounce, write_chunk, write_loop, inode_write_at,
}
use gpintosy.Inode.Bytes.{
  OnSome, Succeeds-some, byte, IsOn, available, byte_to_sector_lem, IsChunk, chunk_size-IsChunk,
  available-chunk, chunk-inside,
}
use gpintosy.Inode.Read.{block_read-sector}

module _ {D : Type 0} (driver : Driver D) (inode : Inode) (m : Memory) where
  -- The bytes of the file from an offset on are those of the buffer; its other bytes, and the
  -- sectors that are not of the file, are the same.
  pub record IsWritten (offset n buffer : ℕ) (block block' : Block D) : Type 0 where
    pub on : IsOn driver inode block'
    pub bytes :
        (j : ℕ)
        → j < inode.len
        → byte driver inode block' j ≡ (
            if leb offset j && ltb j (offset + n)
            then m (buffer + (j - offset))
            else byte driver inode block j)
    pub others :
        (s i : ℕ)
        → i < 512
        → (s < inode.start) ⊎ (inode.start + (inode.len + 511) / 512 ≤ s)
        → driver.read block'.aux s i ≡ driver.read block.aux s i

  module _ (block : Block D) (on : IsOn driver inode block) (offset chunk buffer : ℕ)
      (h : offset < inode.len) (s : offset % 512 + chunk ≤ 512) where
    abbrev sec : ℕ
    sec = inode.start + offset / 512

    -- The bytes that the sector gets.
    abbrev IsSector : (ℕ → ℕ) → Type 0
    IsSector c =
        (i : ℕ)
        → i < 512
        → c i ≡ (
            if leb (offset % 512) i && ltb i (offset % 512 + chunk)
            then m (buffer + (i - offset % 512))
            else driver.read block.aux sec i)

    abbrev with_sector : (ℕ → ℕ) → Block D
    with_sector c = record block { aux = driver.write block.aux sec c }

    sector_byte :
        (c : ℕ → ℕ)
        → IsSector c
        → (j : ℕ)
        → byte driver inode (with_sector c) j ≡ (
            if leb offset j && ltb j (offset + chunk)
            then m (buffer + (j - offset))
            else byte driver inode block j)
    sector_byte c k j = elim (Bool-cases (inode.start + j / 512 == sec)) [
      | inl e ↦
          let q : inode.start + j / 512 ≡ sec = ground arith in
          let l : j % 512 < 512 = omega arith in
          let d : j % 512 - offset % 512 ≡ j - offset = omega (arith, q) in
          let old : byte driver inode block j ≡ driver.read block.aux sec (j % 512) =
            ap (λ t. driver.read block.aux t (j % 512)) q in
          ap (λ t. driver.read (driver.write block.aux sec c) t (j % 512)) q
          ∙ driver.read_written block.aux sec c (j % 512) l
          ∙ k (j % 512) l
          ∙ rw d (ground (arith, old))
      | inr e ↦
          driver.read_other block.aux sec (inode.start + j / 512) c (j % 512) (ground arith)
          ∙ ground arith
    ]

    stored_IsWritten :
        (c : ℕ → ℕ) → IsSector c → IsWritten offset chunk buffer block (with_sector c)
    stored_IsWritten c k = record {
      on = record { own = on.own; fits = on.fits };
      bytes = λ j l. sector_byte c k j;
      others = λ t i l o. driver.read_other block.aux sec t c i (ground arith);
    }

    block_write-sector :
        (b : Ptr) (c : Memory)
        → block_write driver block (byte_to_sector inode offset) b c
          ≡ ok (with_sector (bytes_at c b))
    unfolding block_write check_sector
    block_write-sector b c =
        let l : ltb sec block.size ≡ true = ground (arith, on.fits offset h) in
        rw (byte_to_sector_lem inode offset h, l, on.own) refl

    abbrev bounce : Memory
    bounce =
        put_bytes (put_sector (λ a. 0) 0 (driver.read block.aux sec)) (offset % 512) chunk
          (bytes_at m buffer)

    fill_bounce-reads :
        ((offset % 512 == 0) && (chunk == 512)) ≡ false
        → fill_bounce driver true inode block offset chunk buffer m ≡ ok bounce
    unfolding fill_bounce
    fill_bounce-reads e =
        let k : (ltb 0 (offset % 512) || ltb chunk (512 - offset % 512)) ≡ true = ground arith in
        rw (k, block_read-sector driver inode block on offset 0 (λ a. 0) h) refl

    write_chunk-IsWritten :
        Succeeds
          (OnSome (IsWritten offset chunk buffer block))
          (write_chunk driver true inode m offset chunk buffer block)
    unfolding write_chunk
    write_chunk-IsWritten = elim (Bool-cases ((offset % 512 == 0) && (chunk == 512))) [
      | inl e ↦
          rw (e, block_write-sector buffer m)
            (stored_IsWritten (bytes_at m buffer) (λ i l. ground arith))
      | inr e ↦
          rw (e, fill_bounce-reads e, block_write-sector 0 bounce)
            (stored_IsWritten (bytes_at bounce 0) (λ i l. ground arith))
    ]

  -- What the loop returns: all the bytes that fit in the file are written.
  pub record IsWrittenTo (size offset before buffer : ℕ) (block : Block D) (r : ℕ × Block D)
      : Type 0 where
    pub count : r.0 ≡ before + available inode size offset
    pub written : IsWritten offset (available inode size offset) (buffer + before) block r.1

  after_chunk :
      (size offset before buffer chunk : ℕ) (block block' : Block D)
      → IsChunk inode size offset chunk
      → IsWritten offset chunk (buffer + before) block block'
      → (r : ℕ × Block D)
      → IsWrittenTo (size - chunk) (offset + chunk) (before + chunk) buffer block' r
      → IsWrittenTo size offset before buffer block r
  after_chunk size offset before buffer chunk block block' c a r b =
      let q = available-chunk inode size offset chunk c in
      record {
        count = omega (arith, b.count, q);
        written = record {
          on = b.written.on;
          bytes = λ j l. b.written.bytes j l ∙ ground (arith, q, a.bytes j l);
          others = λ s i l o. b.written.others s i l o ∙ a.others s i l o;
        };
      }

  write_loop-IsWrittenTo :
      (n size offset before buffer : ℕ) (block : Block D)
      → IsOn driver inode block
      → size ≤ n
      → Succeeds
          (IsWrittenTo size offset before buffer block)
          (write_loop driver true inode n m size offset before buffer block)
  unfolding write_loop
  write_loop-IsWrittenTo zero size offset before buffer block on h = record {
    count = ground arith;
    written = record { on = on; bytes = λ j l. ground arith; others = λ s i l o. refl };
  }
  write_loop-IsWrittenTo (suc n) size offset before buffer block on h =
      let chunk = chunk_size inode size offset in
      let c = chunk_size-IsChunk inode size offset in
      elim (Bool-cases (chunk == 0)) [
        | inl e ↦
            let z : available inode size offset ≡ 0 = c.last (ground arith) in
            rw e (record {
              count = omega (arith, z);
              written = record {
                on = on;
                bytes = λ j l. ground (arith, z);
                others = λ s i l o. refl;
              };
            })
        | inr e ↦ rw e (
            Succeeds-some (IsWritten offset chunk (buffer + before) block)
              (IsWrittenTo size offset before buffer block) _ _ _
              (write_chunk-IsWritten block on offset chunk (buffer + before)
                (chunk-inside inode size offset chunk c e) c.in_sector)
              λ block' a.
                Succeeds-mono
                  (IsWrittenTo (size - chunk) (offset + chunk) (before + chunk) buffer block')
                  (IsWrittenTo size offset before buffer block) _
                  (write_loop-IsWrittenTo n (size - chunk) (offset + chunk) (before + chunk) buffer
                    block' a.on (ground (arith, h, e)))
                  (after_chunk size offset before buffer chunk block block' c a))
      ]

  -- If `malloc` finds the bounce buffer and no one denies writes, `inode_write_at` fails no
  -- assertion. It returns how many of the bytes fit in the file; these are the file's then, and its
  -- other bytes and all sectors of other files are the same. The sectors of the file must be on the
  -- device.
  pub inode_write_at-IsWrittenTo :
      (size offset buffer : ℕ) (block : Block D)
      → IsOn driver inode block
      → inode.deny_write_cnt ≡ 0
      → Succeeds
          (IsWrittenTo size offset 0 buffer block)
          (inode_write_at driver true inode m buffer size offset block)
  unfolding inode_write_at
  inode_write_at-IsWrittenTo size offset buffer block on d =
      let z : (inode.deny_write_cnt == 0) ≡ true = ground (arith, d) in
      rw z (write_loop-IsWrittenTo size size offset 0 buffer block on (omega arith))
