-- ===== src/Util/PageTables.antt =====
-- The page table entries of the system by the addresses that they map, and the tests of an address
-- (DeviceMon/util.cpp, DeviceMon/util_page_constants.h), on x64.
pub mod SelfMap
use device_mon.Prelude.{
  ℕ, ◌+◌, ◌*◌, ◌/◌, ◌%◌, ◌^◌, Bool, true, false, ◌&&◌, ◌||◌, not, Option, none, some, ◌==◌, ltb,
  leb, if◌then◌else◌, field, bits_or,
}

-- The variables `g_utilp_pxe_base` to `g_utilp_pte_base`. The shifts and the masks are the same
-- on every x64 system.
pub record PageBases : Type 0 where
  pub pxe_base : ℕ
  pub ppe_base : ℕ
  pub pde_base : ℕ
  pub pte_base : ℕ

-- `kUtilpPxeBase` to `kUtilpPteBase`.
abbrev pub fixed_bases : PageBases
fixed_bases = record {
  pxe_base = 0xfffff6fb7dbed000;
  ppe_base = 0xfffff6fb7da00000;
  pde_base = 0xfffff6fb40000000;
  pte_base = 0xfffff68000000000;
}

-- The bases for the one that is found in `MmGetVirtualForPhysical`.
unfoldable pub relocated_bases : (pte_base : ℕ) → PageBases
relocated_bases pte_base =
    let index = pte_base / 2 ^ 39 % 2 ^ 9 in
    let pde_base = bits_or 64 pte_base (index * 2 ^ 30 % 2 ^ 64) in
    let ppe_base = bits_or 64 pde_base (index * 2 ^ 21 % 2 ^ 64) in
    let pxe_base = bits_or 64 ppe_base (index * 2 ^ 12 % 2 ^ 64) in
    record { pxe_base = pxe_base; ppe_base = ppe_base; pde_base = pde_base; pte_base = pte_base }

-- `UtilpInitializePageTableVariables` from the system's version on: `found` is the constant in the
-- code of `MmGetVirtualForPhysical`, if its pattern is there.
unfoldable pub initialize_page_table_variables :
    (major_version build_number : ℕ) → (found : Option ℕ) → Option PageBases
unfolding relocated_bases
initialize_page_table_variables major_version build_number found =
    if ltb major_version 10 || ltb build_number 14316
    then some fixed_bases
    else elim found [ none ↦ none | some pte_base ↦ some (relocated_bases pte_base) ]

-- An entry has 8 bytes.
unfoldable pub address_to_pxe : PageBases → ℕ → ℕ
address_to_pxe bases address = (bases.pxe_base + address / 2 ^ 39 % 2 ^ 9 * 8) % 2 ^ 64

unfoldable pub address_to_ppe : PageBases → ℕ → ℕ
address_to_ppe bases address = (bases.ppe_base + address / 2 ^ 30 % 2 ^ 18 * 8) % 2 ^ 64

unfoldable pub address_to_pde : PageBases → ℕ → ℕ
address_to_pde bases address = (bases.pde_base + address / 2 ^ 21 % 2 ^ 27 * 8) % 2 ^ 64

unfoldable pub address_to_pte : PageBases → ℕ → ℕ
address_to_pte bases address = (bases.pte_base + address / 2 ^ 12 % 2 ^ 36 * 8) % 2 ^ 64

-- `UtilIsInBounds`.
abbrev pub is_in_bounds : (value min max : ℕ) → Bool
is_in_bounds value min max = leb min value && leb value max

-- `UtilpIsCanonicalFormAddress`, with the arguments in the order of the call.
unfoldable pub is_canonical_form_address : ℕ → Bool
is_canonical_form_address address = not (is_in_bounds 0x0000800000000000 0xffff7fffffffffff address)

-- The bit `valid` of the entry at an address.
abbrev pub is_valid : (entry : ℕ → ℕ) → ℕ → Bool
is_valid entry a = field 0 1 (entry a) == 1

-- `UtilIsAccessibleAddress`; `entry` is the entry at an address. Bit 7 is `large_page`.
-- The entry's address is not null.
unfoldable pub is_accessible_address : PageBases → (entry : ℕ → ℕ) → ℕ → Bool
unfolding is_canonical_form_address address_to_pxe address_to_ppe address_to_pde address_to_pte
is_accessible_address bases entry address =
    if not (is_canonical_form_address address)
    then false
    else (if not (is_valid entry (address_to_pxe bases address))
          || not (is_valid entry (address_to_ppe bases address))
        then false
        else (if not (is_valid entry (address_to_pde bases address))
            then false
            else (if field 7 1 (entry (address_to_pde bases address)) == 1
                then true
                else is_valid entry (address_to_pte bases address))))
