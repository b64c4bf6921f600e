-- ===== src/Vm/Segments.antt =====
-- `VmpGetSegmentAccessRight`, `VmpGetSegmentBase`, `VmpGetSegmentDescriptor` and
-- `VmpGetSegmentBaseByDescriptor` of DeviceMon/vm.cpp, on x64.
use device_mon.Prelude.{
  ℕ, ◌+◌, ◌*◌, ◌/◌, ◌%◌, ◌^◌, ◌==◌, if◌then◌else◌, field, set_field, Bytes, load_bytes,
}

-- `load_rights` is the instruction LAR. Bits 8 to 11 and 17 to 31 are reserved, bit 16 is `unusable`.
unfoldable pub get_segment_access_right : (load_rights : ℕ → ℕ) → (segment_selector : ℕ) → ℕ
get_segment_access_right load_rights segment_selector =
    if segment_selector == 0
    then 2 ^ 16
    else (let native = load_rights segment_selector / 2 ^ 8 % 2 ^ 32 in
        set_field 16 1 0 (set_field 17 15 0 (set_field 8 4 0 native)))

-- The address of the descriptor.
unfoldable pub get_segment_descriptor : (descriptor_table_base segment_selector : ℕ) → ℕ
get_segment_descriptor descriptor_table_base segment_selector =
    (descriptor_table_base + field 3 13 segment_selector * 8) % 2 ^ 64

-- The base is bits 16 to 31, 32 to 39 and 56 to 63; bit 44 is `system`, which is clear for the
-- descriptors of 16 bytes.
unfoldable pub get_segment_base_by_descriptor : Bytes → (descriptor : ℕ) → ℕ
get_segment_base_by_descriptor m descriptor =
    let low = load_bytes 8 descriptor m in
    let base = field 56 8 low * 2 ^ 24 + field 32 8 low * 2 ^ 16 + field 16 16 low in
    if field 44 1 low == 0 then base + load_bytes 4 (descriptor + 8) m * 2 ^ 32 else base

unfoldable pub get_segment_base : Bytes → (ldtr gdt_base segment_selector : ℕ) → ℕ
unfolding get_segment_descriptor get_segment_base_by_descriptor
get_segment_base m ldtr gdt_base segment_selector =
    if segment_selector == 0
    then 0
    else (if field 2 1 segment_selector == 1
        then (let ldt_base =
              get_segment_base_by_descriptor m (get_segment_descriptor gdt_base ldtr) in
            get_segment_base_by_descriptor m (get_segment_descriptor ldt_base segment_selector))
        else get_segment_base_by_descriptor m (get_segment_descriptor gdt_base segment_selector))
