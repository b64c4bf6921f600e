-- ===== src/Vm/Bitmaps.antt =====
-- `VmpBuildMsrBitmap` and `VmpBuildIoBitmaps` of DeviceMon/vm.cpp.
pub mod Exits
use device_mon.Prelude.{
  ℕ, zero, suc, ◌+◌, ◌-◌, ◌*◌, Bool, true, false, ◌&&◌, Option, none, some, ◌==◌, ltb, leb,
  if◌then◌else◌,
}

-- A bitmap, by the number of the bit.
abbrev pub Bitmap : Type 0
Bitmap = ℕ → Bool

-- `RtlZeroMemory`, `RtlFillMemory` with 0xff and `RtlClearBits`, by bits.
abbrev pub zero_bitmap : Bitmap
zero_bitmap i = false

abbrev pub fill_bits : (start count : ℕ) → Bitmap → Bitmap
fill_bits start count bitmap i = if leb start i && ltb i (start + count) then true else bitmap i

abbrev pub clear_bits : (start count : ℕ) → Bitmap → Bitmap
clear_bits start count bitmap i = if leb start i && ltb i (start + count) then false else bitmap i

-- The loop over the MSRs from `msr` on, with `left` turns; `faults` tells the MSRs whose read
-- raises an exception.
unfoldable pub skip_faulting : (faults : ℕ → Bool) → (msr left : ℕ) → Bitmap → Bitmap
skip_faulting faults msr zero bitmap = bitmap
skip_faulting faults msr (suc left) bitmap =
    skip_faulting faults (msr + 1) left (if faults msr then clear_bits msr 1 bitmap else bitmap)

-- `VmpBuildMsrBitmap`, where its page is allocated; the part for high MSRs starts at byte 1024.
unfoldable pub build_msr_bitmap : (faults : ℕ → Bool) → Bitmap
unfolding skip_faulting
build_msr_bitmap faults =
    let filled = fill_bits (1024 * 8) (1024 * 8) (fill_bits 0 (1024 * 8) zero_bitmap) in
    clear_bits (1024 * 8 + 0x101) 2 (skip_faulting faults 0 0x1000 (clear_bits 0xe7 2 filled))

-- `VmpBuildIoBitmaps`: the two bitmaps are adjacent, and no port exits.
unfoldable pub build_io_bitmaps : Bitmap
build_io_bitmaps = zero_bitmap
