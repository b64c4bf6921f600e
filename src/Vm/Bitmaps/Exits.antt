-- ===== src/Vm/Bitmaps/Exits.antt =====
-- The exits of RDMSR and WRMSR under the bitmap of `VmpBuildMsrBitmap` (DeviceMon/vm.cpp).
use device_mon.Prelude.{
  ℕ, zero, suc, ◌+◌, ◌-◌, ◌*◌, ◌≤◌, ◌<◌, ◌≡◌, refl, ap, ◌∙◌, eq_of_test, ne_of_test, ◌⊎◌, inl, inr,
  Bool-cases, Bool, true, false, ◌&&◌, arith, ◌==◌, ltb, leb, if◌then◌else◌, not, ◌||◌,
}
use device_mon.Vm.Bitmaps.{
  Bitmap, clear_bits, fill_bits, zero_bitmap, skip_faulting, build_msr_bitmap,
}

-- How the processor reads the bitmap: 1024 bytes each for the reads of the low and of the high
-- MSRs, and for the writes of the low and of the high ones. Any other MSR exits.
unfoldable pub exits : (bitmap : Bitmap) → (write : Bool) → (msr : ℕ) → Bool
exits bitmap write msr =
    let part = if write then 2048 * 8 else 0 in
    if ltb msr 0x2000
    then bitmap (part + msr)
    else (if leb 0xc0000000 msr && ltb msr 0xc0002000
        then bitmap (part + 1024 * 8 + (msr - 0xc0000000))
        else true)

abbrev step : (faults : ℕ → Bool) → ℕ → Bitmap → Bitmap
step faults msr bitmap = if faults msr then clear_bits msr 1 bitmap else bitmap

step-other :
    (faults : ℕ → Bool) (msr i : ℕ) (bitmap : Bitmap)
    → (i < msr) ⊎ (msr < i)
    → step faults msr bitmap i ≡ bitmap i
step-other faults msr i bitmap out = elim (Bool-cases (faults msr)) [
  | inl faulting ↦ rw faulting (ground arith)
  | inr fine ↦ rw fine refl
]

step-same :
    (faults : ℕ → Bool) (msr : ℕ) (bitmap : Bitmap)
    → step faults msr bitmap msr ≡ (if faults msr then false else bitmap msr)
step-same faults msr bitmap = elim (Bool-cases (faults msr)) [
  | inl faulting ↦ rw faulting (ground arith)
  | inr fine ↦ rw fine refl
]

skip_faulting-outside :
    (faults : ℕ → Bool) (left msr i : ℕ) (bitmap : Bitmap)
    → (i < msr) ⊎ (msr + left ≤ i)
    → skip_faulting faults msr left bitmap i ≡ bitmap i
unfolding skip_faulting
skip_faulting-outside faults zero msr i bitmap out = refl
skip_faulting-outside faults (suc left) msr i bitmap out =
    skip_faulting-outside faults left (msr + 1) i (step faults msr bitmap)
      (elim out [ inl before ↦ inl (omega arith) | inr after ↦ inr (omega arith) ])
    ∙ step-other faults msr i bitmap
        (elim out [ inl before ↦ inl before | inr after ↦ inr (omega arith) ])

skip_faulting-inside :
    (faults : ℕ → Bool) (left msr i : ℕ) (bitmap : Bitmap)
    → msr ≤ i
    → i < msr + left
    → skip_faulting faults msr left bitmap i ≡ (if faults i then false else bitmap i)
unfolding skip_faulting
skip_faulting-inside faults zero msr i bitmap from below = absurd (omega arith)
skip_faulting-inside faults (suc left) msr i bitmap from below = elim (Bool-cases (i == msr)) [
  | inl now ↦ rw (eq_of_test _ _ now) (
      skip_faulting-outside faults left (msr + 1) msr (step faults msr bitmap) (inl (omega arith))
      ∙ step-same faults msr bitmap)
  | inr later ↦
      skip_faulting-inside faults left (msr + 1) i (step faults msr bitmap)
        (omega (arith, ne_of_test _ _ later)) (omega arith)
      ∙ ap (λ b. if faults i then false else b)
          (step-other faults msr i bitmap (inr (omega (arith, ne_of_test _ _ later))))
]

-- Whether RDMSR is to exit: all MSRs that the bitmap stands for, but those that the driver leaves
-- alone, and those that raise an exception when they are read.
abbrev pub is_read_exit : (faults : ℕ → Bool) → ℕ → Bool
is_read_exit faults msr =
    if msr == 0xe7 || msr == 0xe8 || msr == 0xc0000101 || msr == 0xc0000102
    then false
    else (if ltb msr 0x1000 then not (faults msr) else true)

-- The bitmap before the loop: reads of all MSRs but two.
abbrev initial : Bitmap
initial = clear_bits 0xe7 2 (fill_bits (1024 * 8) (1024 * 8) (fill_bits 0 (1024 * 8) zero_bitmap))

clear_value :
    (b : Bitmap) (i : ℕ) → clear_bits 8449 2 b i ≡ (if i == 8449 || i == 8450 then false else b i)
clear_value b i = ground arith

module _ (faults : ℕ → Bool) where
  skipped_low :
      (i : ℕ)
      → i < 0x1000
      → skip_faulting faults 0 0x1000 initial i ≡ (if faults i then false else initial i)
  skipped_low i low = skip_faulting-inside faults 0x1000 0 i initial (omega arith) (omega arith)

  skipped_high : (i : ℕ) → 0x1000 ≤ i → skip_faulting faults 0 0x1000 initial i ≡ initial i
  skipped_high i high = skip_faulting-outside faults 0x1000 0 i initial (inr (omega arith))

  initial_value : (i : ℕ) → initial i ≡ (if i == 0xe7 || i == 0xe8 then false else ltb i 16384)
  initial_value i = ground arith

  bitmap_value :
      (i : ℕ)
      → build_msr_bitmap faults i
        ≡ (if i == 8449 || i == 8450 then false else skip_faulting faults 0 0x1000 initial i)
  unfolding build_msr_bitmap
  bitmap_value i = clear_value (skip_faulting faults 0 0x1000 initial) i

  low_read :
      (i : ℕ)
      → i < 0x1000
      → build_msr_bitmap faults i ≡ (if i == 0xe7 || i == 0xe8 then false else not (faults i))
  low_read i low = ground (arith, bitmap_value i, skipped_low i low, initial_value i)

  high_read :
      (i : ℕ)
      → 0x1000 ≤ i
      → build_msr_bitmap faults i ≡ (if i == 8449 || i == 8450 then false else ltb i 16384)
  high_read i high = ground (arith, bitmap_value i, skipped_high i high, initial_value i)

  read_exit : (msr : ℕ) → exits (build_msr_bitmap faults) false msr ≡ is_read_exit faults msr
  unfolding exits
  read_exit msr = elim (Bool-cases (ltb msr 0x1000)) [
    | inl low ↦ ground (arith, low_read msr (ground arith))
    | inr above ↦ elim (Bool-cases (ltb msr 0x2000)) [
      | inl middle ↦ ground (arith, high_read msr (ground arith))
      | inr beyond ↦ ground (arith, high_read (8192 + (msr - 0xc0000000)) (omega arith))
    ]
  ]

  write_exit :
      (msr : ℕ)
      → exits (build_msr_bitmap faults) true msr
        ≡ not (ltb msr 0x2000 || leb 0xc0000000 msr && ltb msr 0xc0002000)
  unfolding exits
  write_exit msr = ground (
    arith,
    high_read (16384 + msr) (omega arith),
    high_read (16384 + 8192 + (msr - 0xc0000000)) (omega arith),
  )

  -- RDMSR exits for every MSR but IA32_MPERF, IA32_APERF, IA32_GS_BASE, IA32_KERNEL_GS_BASE and
  -- those below 0x1000 that raise an exception when they are read; WRMSR exits only for the MSRs
  -- that the bitmap has no bit for.
  pub build_msr_bitmap-exits :
      (msr : ℕ)
      → (exits (build_msr_bitmap faults) false msr ≡ is_read_exit faults msr)
        × (exits (build_msr_bitmap faults) true msr
            ≡ not (ltb msr 0x2000 || leb 0xc0000000 msr && ltb msr 0xc0002000))
  build_msr_bitmap-exits msr = (read_exit msr, write_exit msr)
