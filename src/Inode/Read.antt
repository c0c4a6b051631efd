-- ===== src/Inode/Read.antt =====
-- `inode_read_at` reads the bytes of a file.
use gpintosy.Prelude.{
  ℕ, zero, suc, ◌+◌, ◌-◌, ◌/◌, ◌%◌, ◌≡◌, ◌≤◌, ◌<◌, refl, ap, ◌∙◌, true, ◌&&◌, ◌⊎◌, inl, inr, arith,
  ltb, ◌==◌, Bool-cases,
}
use gpintosy.Kernel.{Ptr, ok, Succeeds, Succeeds-mono}
use gpintosy.Vaddr.{Memory, put_bytes}
use gpintosy.Swap.{Driver, Block, block_read, check_sector, put_sector, bytes_at}
use gpintosy.Inode.{Inode, byte_to_sector, chunk_size, read_chunk, read_loop, inode_read_at}
use gpintosy.Inode.Bytes.{
  OnSome, Succeeds-some, byte, IsOn, sector-same, available, byte_to_sector_lem, IsChunk,
  chunk_size-IsChunk, available-chunk, chunk-inside,
}

module _ {D : Type 0} (driver : Driver D) (inode : Inode) (block : Block D)
    (on : IsOn driver inode block) where
  -- The next bytes of the file are in the buffer, and the rest of memory is the same.
  pub record IsRead (offset n buffer : ℕ) (m m' : Memory) : Type 0 where
    pub bytes : (i : ℕ) → i < n → m' (buffer + i) ≡ byte driver inode block (offset + i)
    pub rest : (a : Ptr) → (a < buffer) ⊎ (buffer + n ≤ a) → m' a ≡ m a

  pub block_read-sector :
      (offset buffer : ℕ) (m : Memory)
      → offset < inode.len
      → block_read driver block (byte_to_sector inode offset) buffer m
        ≡ ok (put_sector m buffer (driver.read block.aux (inode.start + offset / 512)))
  unfolding block_read check_sector
  block_read-sector offset buffer m h =
      let l : ltb (inode.start + offset / 512) block.size ≡ true =
        ground (arith, on.fits offset h) in
      rw (byte_to_sector_lem inode offset h, l) refl

  module _ (offset chunk buffer : ℕ) (m : Memory) (h : offset < inode.len)
      (s : offset % 512 + chunk ≤ 512) where
    full_IsRead :
        offset % 512 ≡ 0
        → chunk ≡ 512
        → IsRead offset chunk buffer m
            (put_sector m buffer (driver.read block.aux (inode.start + offset / 512)))
    full_IsRead z f = record {
      bytes = λ i l. ground (arith, sector-same driver inode block offset i (omega arith));
      rest = λ a n. ground arith;
    }

    part_IsRead : IsRead offset chunk buffer m (
        put_bytes m buffer chunk (
          bytes_at
            (put_sector (λ a. 0) 0 (driver.read block.aux (inode.start + offset / 512)))
            (offset % 512)))
    part_IsRead = record {
      bytes = λ i l. ground (arith, sector-same driver inode block offset i (omega arith));
      rest = λ a n. ground arith;
    }

    read_chunk-IsRead :
        Succeeds
          (OnSome (IsRead offset chunk buffer m))
          (read_chunk driver true inode block offset chunk buffer m)
    unfolding read_chunk
    read_chunk-IsRead = elim (Bool-cases ((offset % 512 == 0) && (chunk == 512))) [
      | inl e ↦
          rw (e, block_read-sector offset buffer m h) (full_IsRead (ground arith) (ground arith))
      | inr e ↦ rw (e, block_read-sector offset 0 (λ a. 0) h) part_IsRead
    ]

  -- What the loop returns: all the bytes asked for that are in the file are in the buffer.
  pub record IsReadTo (size offset before buffer : ℕ) (m : Memory) (r : ℕ × Memory) : Type 0 where
    pub count : r.0 ≡ before + available inode size offset
    pub read : IsRead offset (available inode size offset) (buffer + before) m r.1

  after_chunk :
      (size offset before buffer chunk : ℕ) (m m' : Memory)
      → IsChunk inode size offset chunk
      → IsRead offset chunk (buffer + before) m m'
      → (r : ℕ × Memory) → IsReadTo (size - chunk) (offset + chunk) (before + chunk) buffer m' r
      → IsReadTo size offset before buffer m r
  after_chunk size offset before buffer chunk m m' c a r b = record {
    count = omega (arith, b.count, available-chunk inode size offset chunk c);
    read = record {
      bytes = λ i l. elim (Bool-cases (ltb i chunk)) [
        | inl e ↦ b.read.rest (buffer + before + i) (inl (ground arith)) ∙ a.bytes i (ground arith)
        | inr e ↦
            let j : buffer + before + i ≡ buffer + (before + chunk) + (i - chunk) = ground arith in
            let o : offset + chunk + (i - chunk) ≡ offset + i = ground arith in
            let k : i - chunk < available inode (size - chunk) (offset + chunk) =
              ground (arith, available-chunk inode size offset chunk c) in
            ap r.1 j ∙ b.read.bytes (i - chunk) k ∙ ap (byte driver inode block) o
      ];
      rest = λ x n.
          let q = available-chunk inode size offset chunk c in
          b.read.rest x (elim n [ inl l ↦ inl (omega arith) | inr l ↦ inr (omega (arith, l, q)) ])
          ∙ a.rest x (elim n [ inl l ↦ inl l | inr l ↦ inr (omega (arith, l, q)) ]);
    };
  }

  read_loop-IsReadTo :
      (n size offset before buffer : ℕ) (m : Memory)
      → size ≤ n
      → Succeeds
          (IsReadTo size offset before buffer m)
          (read_loop driver true inode n block size offset before buffer m)
  unfolding read_loop
  read_loop-IsReadTo zero size offset before buffer m h = record {
    count = ground arith;
    read = record { bytes = λ i l. absurd (ground arith); rest = λ a k. refl };
  }
  read_loop-IsReadTo (suc n) size offset before buffer m h =
      let chunk = chunk_size inode size offset in
      let c = chunk_size-IsChunk inode size offset in
      elim (Bool-cases (chunk == 0)) [
        | inl e ↦ rw e (record {
          count = omega (arith, c.last (ground arith));
          read = record {
            bytes = λ i l. absurd (omega (arith, l, c.last (ground arith)));
            rest = λ a k. refl;
          };
        })
        | inr e ↦ rw e (
            Succeeds-some (IsRead offset chunk (buffer + before) m)
              (IsReadTo size offset before buffer m) _ _ _
              (read_chunk-IsRead offset chunk (buffer + before) m
                (chunk-inside inode size offset chunk c e) c.in_sector)
              λ m' a.
                Succeeds-mono (IsReadTo (size - chunk) (offset + chunk) (before + chunk) buffer m')
                  (IsReadTo size offset before buffer m) _
                  (read_loop-IsReadTo n (size - chunk) (offset + chunk) (before + chunk) buffer m'
                    (ground (arith, h, e)))
                  (after_chunk size offset before buffer chunk m m' c a))
      ]

  -- If `malloc` finds the bounce buffer, `inode_read_at` fails no assertion. It returns how many of the
  -- bytes asked for are in the file; these are in the buffer then, and the rest of memory is the
  -- same. The sectors of the file must be on the device.
  pub inode_read_at-IsReadTo :
      (size offset buffer : ℕ) (m : Memory)
      → Succeeds
          (IsReadTo size offset 0 buffer m)
          (inode_read_at driver true inode block buffer size offset m)
  unfolding inode_read_at
  inode_read_at-IsReadTo size offset buffer m =
      read_loop-IsReadTo size size offset 0 buffer m (omega arith)
