-- ===== src/Bitmap/Scan.antt =====
-- The search for a group of equal bits.
use gpintosy.Prelude.{
  ℕ, zero, suc, ◌+◌, ◌-◌, ◌^◌, ◌<◌, ◌≤◌, ◌≡◌, refl, Bool, not, Option, none, some, inl, inr, arith,
  leb, ◌==◌, Bool-cases,
}
use gpintosy.Kernel.{ok, Succeeds, Succeeds-bind, Succeeds-mono}
use gpintosy.Bitmap.{Bitmap, scan_from, bitmap_scan, flip_group, bitmap_scan_and_flip}
use gpintosy.Bitmap.Ranges.{
  IsSetTo, AllAre, SomeIs, Answers, bitmap_set_multiple-IsSetTo, bitmap_contains-Answers,
}

-- What a search for `cnt` bits that are all `value`, from `start` on, may answer: the first such
-- group, or that there is none in the bitmap.
abbrev pub IsFirst : Bitmap → ℕ → ℕ → Bool → Option ℕ → Type 0
IsFirst b start cnt value none =
    (j : ℕ) → start ≤ j → j + cnt ≤ b.bit_cnt → SomeIs b j cnt (not value)
IsFirst b start cnt value (some i) =
    (start ≤ i)
    × (i + cnt ≤ b.bit_cnt)
    × AllAre b i cnt value
    × ((j : ℕ) → start ≤ j → j < i → SomeIs b j cnt (not value))

module _ (b : Bitmap) (cnt : ℕ) (value : Bool) where
  -- A start that one need not try: either it is `i`, or it is behind `i`.
  other_start :
      (i j : ℕ)
      → SomeIs b i cnt (not value)
      → i ≤ j
      → (suc i ≤ j → SomeIs b j cnt (not value))
      → SomeIs b j cnt (not value)
  other_start i j s h more = elim (Bool-cases (i == j)) [
    | inl e ↦ let p : i ≡ j = ground arith in rw (← p) s
    | inr e ↦ more (ground arith)
  ]

  later :
      (i : ℕ) (r : Option ℕ)
      → SomeIs b i cnt (not value)
      → IsFirst b (suc i) cnt value r
      → IsFirst b i cnt value r
  later i none s f = λ j h l. other_start i j s h λ m. f j m l
  later i (some k) s (h, l, all, before) =
      (omega arith, l, all, λ j m n. other_start i j s m λ o. before j o n)

  all_again : (i : ℕ) → AllAre b i cnt (not (not value)) → AllAre b i cnt value
  all_again i h = λ k l m. ground (arith, h k)

  scan_from-IsFirst :
      (n i : ℕ)
      → cnt ≤ b.bit_cnt
      → b.bit_cnt < 2 ^ 32
      → n ≡ b.bit_cnt - cnt + 1 - i
      → Succeeds (IsFirst b i cnt value) (scan_from n i cnt value b)
  unfolding scan_from
  scan_from-IsFirst zero i c w e = λ j h l. absurd (omega arith)
  scan_from-IsFirst (suc n) i c w e =
      let rest = scan_from-IsFirst n (suc i) c w (omega arith) in
      Succeeds-bind (Answers b i cnt (not value)) (IsFirst b i cnt value) _ _
        (bitmap_contains-Answers b i cnt (not value) (omega arith) w)
        λ x a. elim a [
          | inl (t, s) ↦ rw t (
              Succeeds-mono (IsFirst b (suc i) cnt value) (IsFirst b i cnt value) _ rest
                λ r. later i r s)
          | inr (f, all) ↦
              rw f (omega arith, omega arith, all_again i all, λ j h l. absurd (omega arith))
        ]

  bitmap_scan-fits :
      (start : ℕ)
      → start ≤ b.bit_cnt
      → cnt ≤ b.bit_cnt
      → bitmap_scan b start cnt value ≡ scan_from (b.bit_cnt - cnt + 1 - start) start cnt value b
  unfolding bitmap_scan
  bitmap_scan-fits start h c = ground arith

  bitmap_scan-large :
      (start : ℕ) → start ≤ b.bit_cnt → b.bit_cnt < cnt → bitmap_scan b start cnt value ≡ ok none
  unfolding bitmap_scan
  bitmap_scan-large start h c = ground arith

  pub bitmap_scan-IsFirst :
      (start : ℕ)
      → start ≤ b.bit_cnt
      → b.bit_cnt < 2 ^ 32
      → Succeeds (IsFirst b start cnt value) (bitmap_scan b start cnt value)
  bitmap_scan-IsFirst start h w = elim (Bool-cases (leb cnt b.bit_cnt)) [
    | inl e ↦
        rw (bitmap_scan-fits start h (ground arith))
          (scan_from-IsFirst _ start (ground arith) w refl)
    | inr e ↦ rw (bitmap_scan-large start h (ground arith)) (λ j k l. absurd (ground arith))
  ]

  -- What `bitmap_scan_and_flip` does: the first group of the value becomes one of the other value,
  -- or there is no group and nothing changes.
  abbrev pub IsFlipped : ℕ → Option ℕ × Bitmap → Type 0
  IsFlipped start (none, b') = IsFirst b start cnt value none × (b' ≡ b)
  IsFlipped start (some i, b') = IsFirst b start cnt value (some i) × IsSetTo b i cnt (not value) b'

  flip_group-IsFlipped :
      (start : ℕ) (r : Option ℕ)
      → b.bit_cnt < 2 ^ 32
      → IsFirst b start cnt value r
      → Succeeds (IsFlipped start) (flip_group b cnt value r)
  unfolding flip_group
  flip_group-IsFlipped start none w f = (f, refl)
  flip_group-IsFlipped start (some i) w f =
      Succeeds-bind (IsSetTo b i cnt (not value)) (IsFlipped start) _ _
        (bitmap_set_multiple-IsSetTo b i cnt (not value) f.1 w) λ b' s. (f, s)

  -- In a bitmap of less than 2 ^ 32 bits, `bitmap_scan_and_flip` from a bit of it on fails no
  -- assertion. It either finds the first group of `cnt` bits that have the value and sets exactly
  -- these to the other value, or answers that there is no such group and changes nothing. A group of
  -- no bits is found at the bit where the scan starts.
  pub bitmap_scan_and_flip-IsFlipped :
      (start : ℕ)
      → start ≤ b.bit_cnt
      → b.bit_cnt < 2 ^ 32
      → Succeeds (IsFlipped start) (bitmap_scan_and_flip b start cnt value)
  unfolding bitmap_scan_and_flip
  bitmap_scan_and_flip-IsFlipped start h w =
      Succeeds-bind (IsFirst b start cnt value) (IsFlipped start) _ _
        (bitmap_scan-IsFirst start h w) λ r f. flip_group-IsFlipped start r w f
