-- ===== src/Ept/Entry.antt =====
-- An entry of an EPT table (`EptCommonEntry` of DeviceMon/ept.h), and the index that each level
-- takes from a physical address (DeviceMon/ept.cpp).
use device_mon.Prelude.{ℕ, ◌+◌, ◌*◌, ◌/◌, ◌%◌, ◌^◌, Option, none, some, ◌==◌, if◌then◌else◌}
use device_mon.Ept.Mtrr.{MtrrTable, get_memory_type}

-- The bit fields, each as its number.
pub record EptCommonEntry : Type 0 where
  pub read_access : ℕ
  pub write_access : ℕ
  pub execute_access : ℕ
  pub memory_type : ℕ
  pub reserved1 : ℕ
  pub physial_address : ℕ
  pub reserved2 : ℕ

-- The 64 bits, `Entry->all`.
abbrev pub all : EptCommonEntry → ℕ
all e =
    e.read_access
    + 2 * e.write_access
    + 4 * e.execute_access
    + 8 * e.memory_type
    + 64 * e.reserved1
    + 4096 * e.physial_address
    + 2 ^ 48 * e.reserved2

abbrev pub zero_entry : EptCommonEntry
zero_entry = record {
  read_access = 0;
  write_access = 0;
  execute_access = 0;
  memory_type = 0;
  reserved1 = 0;
  physial_address = 0;
  reserved2 = 0;
}

-- `UtilPfnFromPa`.
abbrev pub pfn_from_pa : ℕ → ℕ
pfn_from_pa pa = pa / 4096

-- `EptpInitTableEntry`.
unfoldable pub init_table_entry : MtrrTable → EptCommonEntry → ℕ → ℕ → EptCommonEntry
init_table_entry mtrrs entry table_level pa = record entry {
  read_access = 1;
  write_access = 1;
  execute_access = 1;
  physial_address = pfn_from_pa pa % 2 ^ 36;
  memory_type = if table_level == 1 then get_memory_type mtrrs pa % 2 ^ 3 else entry.memory_type;
}

-- The shift and the mask `kEptpPtxMask`.
unfoldable pub address_to_pxe_index : ℕ → ℕ
address_to_pxe_index pa = pa / 2 ^ 39 % 2 ^ 9

unfoldable pub address_to_ppe_index : ℕ → ℕ
address_to_ppe_index pa = pa / 2 ^ 30 % 2 ^ 9

unfoldable pub address_to_pde_index : ℕ → ℕ
address_to_pde_index pa = pa / 2 ^ 21 % 2 ^ 9

unfoldable pub address_to_pte_index : ℕ → ℕ
address_to_pte_index pa = pa / 2 ^ 12 % 2 ^ 9

-- The cases of `switch (table_level)`; `none` is its default.
unfoldable pub table_index : ℕ → ℕ → Option ℕ
unfolding address_to_pxe_index address_to_ppe_index address_to_pde_index address_to_pte_index
table_index table_level pa =
    if table_level == 4
    then some (address_to_pxe_index pa)
    else (if table_level == 3
        then some (address_to_ppe_index pa)
        else (if table_level == 2
            then some (address_to_pde_index pa)
            else (if table_level == 1 then some (address_to_pte_index pa) else none)))
