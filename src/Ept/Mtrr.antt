-- ===== src/Ept/Mtrr.antt =====
-- Memory type range registers: the table `g_eptp_mtrr_entries`, how it is filled from the MSRs and
-- how a type is looked up in it (DeviceMon/ept.cpp).
pub mod Order
use device_mon.Prelude.{
  ℕ, zero, suc, ◌+◌, ◌-◌, ◌*◌, ◌/◌, ◌%◌, ◌^◌, Bool, true, false, ◌&&◌, ◌||◌, List, [], ◌∷◌, ◌++◌,
  ◌==◌, leb, if◌then◌else◌, field,
}

pub record MtrrData : Type 0 where
  pub enabled : Bool
  pub fixed_mtrr : Bool
  pub type : ℕ
  pub range_base : ℕ
  pub range_end : ℕ

-- The entries that were stored; the rest of the array is not enabled.
pub record MtrrTable : Type 0 where
  pub entries : List MtrrData
  pub default_type : ℕ

abbrev pub uncacheable : ℕ
uncacheable = 0

abbrev pub write_through : ℕ
write_through = 4

abbrev pub write_back : ℕ
write_back = 6

abbrev pub max_uchar : ℕ
max_uchar = 255

abbrev pub in_bounds : ℕ → ℕ → ℕ → Bool
in_bounds value lo hi = leb lo value && leb value hi

-- The type after an entry that describes the address and does not end the search.
unfoldable pub next_type : ℕ → ℕ → ℕ
next_type result type =
    if (result == write_through || type == write_through) && result == write_back
    then write_through
    else type

-- The loop of `EptpGetMemoryType`.
unfoldable pub scan_entries : ℕ → List MtrrData → ℕ → ℕ
unfolding next_type
scan_entries pa [] result = result
scan_entries pa (m ∷ ms) result =
    let skip = scan_entries pa ms result in
    let go_on = scan_entries pa ms (next_type result m.type) in
    if m.enabled
    then (if in_bounds pa m.range_base m.range_end
        then (if m.fixed_mtrr then m.type else (if m.type == uncacheable then m.type else go_on))
        else skip)
    else result

-- `EptpGetMemoryType`.
unfoldable pub get_memory_type : MtrrTable → ℕ → ℕ
unfolding scan_entries
get_memory_type t pa =
    let result = scan_entries pa t.entries max_uchar in
    if result == max_uchar then t.default_type else result

-- A pass over the eight bytes of a fixed range register: `i` bytes are done, `offset` is where the
-- next range starts.
unfoldable pub fixed_types : ℕ → ℕ → ℕ → ℕ → ℕ → List MtrrData
fixed_types zero msr base size i = []
fixed_types (suc n) msr base size i =
    record {
      enabled = true;
      fixed_mtrr = true;
      type = field (8 * i) 8 msr;
      range_base = base;
      range_end = base + size - 1;
    }
    ∷ fixed_types n msr (base + size) size (i + 1)

-- The loop over `n` consecutive registers from `msr` on.
unfoldable pub fixed_registers : ℕ → (ℕ → ℕ) → ℕ → ℕ → ℕ → List MtrrData
unfolding fixed_types
fixed_registers zero read_msr msr base size = []
fixed_registers (suc n) read_msr msr base size =
    fixed_types 8 (read_msr msr) base size 0
    ++ fixed_registers n read_msr (msr + 1) (base + 8 * size) size

unfoldable pub fixed_ranges : (ℕ → ℕ) → List MtrrData
unfolding fixed_registers
fixed_ranges read_msr =
    fixed_registers 1 read_msr 0x250 0x0 0x10000
    ++ fixed_registers 2 read_msr 0x258 0x80000 0x4000
    ++ fixed_registers 8 read_msr 0x268 0xC0000 0x1000

-- The loop over the variable ranges. `scan` is the intrinsic `BitScanForward64`.
unfoldable pub variable_ranges : ℕ → (ℕ → ℕ) → (ℕ → ℕ) → ℕ → List MtrrData
variable_ranges zero scan read_msr i = []
variable_ranges (suc n) scan read_msr i =
    let rest = variable_ranges n scan read_msr (i + 1) in
    let mask = read_msr (0x201 + i * 2) in
    let base = field 12 36 (read_msr (0x200 + i * 2)) * 4096 in
    if field 11 1 mask == 1
    then record {
      enabled = true;
      fixed_mtrr = false;
      type = field 0 8 (read_msr (0x200 + i * 2));
      range_base = base;
      range_end = base + 2 ^ scan (field 12 36 mask * 4096) - 1;
    }
      ∷ rest
    else rest

-- `EptInitializeMtrrEntries`; 0x2ff is `kIa32MtrrDefType` and 0xfe is `kIa32MtrrCap`.
unfoldable pub initialize_mtrr_entries : (ℕ → ℕ) → (ℕ → ℕ) → MtrrTable
unfolding fixed_ranges variable_ranges
initialize_mtrr_entries scan read_msr =
    let def_type = read_msr 0x2ff in
    let capabilities = read_msr 0xfe in
    let variable = variable_ranges (field 0 8 capabilities) scan read_msr 0 in
    record {
      entries =
          if field 8 1 capabilities == 1 && field 10 1 def_type == 1
          then fixed_ranges read_msr ++ variable
          else variable;
      default_type = field 0 8 def_type;
    }
