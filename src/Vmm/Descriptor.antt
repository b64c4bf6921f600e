-- ===== src/Vmm/Descriptor.antt =====
-- `VmmpHandleGdtrOrIdtrAccess` and `VmmpHandleLdtrOrTrAccess` of DeviceMon/vmm.cpp: SGDT, SIDT, LGDT,
-- LIDT, SLDT, STR, LLDT and LTR. The memory is the one that the CR3 of `VmmpGetKernelCr3` maps, which
-- is current while the instruction is emulated.
pub mod Reload
use device_mon.Prelude.{
  ℕ, ◌+◌, ◌*◌, ◌/◌, ◌%◌, ◌^◌, Bool, true, false, ◌==◌, if◌then◌else◌, field, set_field, Bytes,
  load_bytes, store_bytes,
}
use device_mon.Cpu.Registers.{Gpr, load, store}
use device_mon.Vmm.State.{Vcpu, vm_read, vm_write, with_regs}
use device_mon.Vmm.Inject.{adjust_guest_instruction_pointer}
use device_mon.Vmm.Debug.{select_gpr}

-- `VmmpGetKernelCr3` on x64: a user-mode CR3 has its lowest bit set, and `directory_table_base` of
-- the current process is taken in its place. 0x6802 is `kGuestCr3`.
unfoldable pub get_kernel_cr3 : (directory_table_base : ℕ) → Vcpu → ℕ
get_kernel_cr3 directory_table_base v =
    if field 0 1 (vm_read 0x6802 v) == 1 then directory_table_base else vm_read 0x6802 v

-- The switch on the scaling.
abbrev pub scaled : (scaling index : ℕ) → ℕ
scaled scaling index =
    if scaling == 1
    then index * 2 % 2 ^ 64
    else (if scaling == 2
        then index * 4 % 2 ^ 64
        else (if scaling == 3 then index * 8 % 2 ^ 64 else index))

-- 0x6806 is `kGuestEsBase`, and the bases of CS, SS, DS, FS and GS follow it.
abbrev pub segment_base : (segment_register : ℕ) → Vcpu → ℕ
segment_base segment_register v =
    if segment_register == 0
    then vm_read 0x6806 v
    else (if segment_register == 1
        then vm_read 0x6808 v
        else (if segment_register == 2
            then vm_read 0x680a v
            else (if segment_register == 3
                then vm_read 0x680c v
                else (if segment_register == 4
                    then vm_read 0x680e v
                    else (if segment_register == 5 then vm_read 0x6810 v else 0)))))

-- The address of the operand; both handlers compute it from the same fields of the instruction's
-- information. 0x440e is `kVmxInstructionInfo`, 0x6400 `kExitQualification`.
unfoldable pub operation_address : Vcpu → ℕ
operation_address v =
    let info = vm_read 0x440e v % 2 ^ 32 in
    let base = if field 27 1 info == 0 then load (select_gpr (field 23 4 info)) v.gp_regs else 0 in
    let index =
      if field 22 1 info == 0
      then scaled (field 0 2 info) (load (select_gpr (field 18 4 info)) v.gp_regs)
      else 0 in
    let address = (segment_base (field 15 3 info) v + base + index + vm_read 0x6400 v) % 2 ^ 64 in
    if field 7 3 info == 1 then address % 2 ^ 32 else address

-- The bit L of the descriptor that the CS of the guest selects: 0x6816 is `kGuestGdtrBase`, 0x802
-- `kGuestCsSelector`.
unfoldable pub code_is_64bit : Vcpu → Bytes → Bool
code_is_64bit v m =
    let selector = vm_read 0x802 v % 2 ^ 16 in
    field 53 1 (load_bytes 8 ((vm_read 0x6816 v + field 3 13 selector * 8) % 2 ^ 64) m) == 1

-- `Idtr` and `Idtr32`: the limit in two bytes, then the base.
unfoldable pub store_table : (is_64bit : Bool) → (address base limit : ℕ) → Bytes → Bytes
store_table true address base limit m =
    store_bytes 2 address limit (store_bytes 8 (address + 2) base m)
store_table false address base limit m =
    store_bytes 2 address limit (store_bytes 4 (address + 2) base m)

-- 0x6818 is `kGuestIdtrBase`, 0x4810 `kGuestGdtrLimit`, 0x4812 `kGuestIdtrLimit`.
unfoldable pub access_table : (identity address : ℕ) → Vcpu → Bytes → Vcpu × Bytes
unfolding code_is_64bit store_table
access_table identity address v m =
    if identity == 0
    then (
      v,
      store_table (code_is_64bit v m) address (vm_read 0x6816 v) (vm_read 0x4810 v % 2 ^ 16) m,
    )
    else (if identity == 1
        then (
          v,
          store_table (code_is_64bit v m) address (vm_read 0x6818 v) (vm_read 0x4812 v % 2 ^ 16) m,
        )
        else (let base = load_bytes 8 (address + 2) m in
            let limit = load_bytes 2 address m in
            if identity == 2
            then (vm_write 0x4810 limit (vm_write 0x6816 base v), m)
            else (vm_write 0x4812 limit (vm_write 0x6818 base v), m)))

unfoldable pub handle_gdtr_or_idtr_access : Vcpu → Bytes → Vcpu × Bytes
unfolding access_table operation_address
handle_gdtr_or_idtr_access v m =
    let done = access_table (field 28 2 (vm_read 0x440e v)) (operation_address v) v m in
    (adjust_guest_instruction_pointer done.0, done.1)

-- Where the selector is: a saved register of the guest, or the memory.
pub data Operand : Type 0 where
  in_register : Gpr → Operand
  in_memory : ℕ → Operand

unfoldable pub selector_operand : Vcpu → Operand
unfolding operation_address
selector_operand v =
    let info = vm_read 0x440e v % 2 ^ 32 in
    if field 10 1 info == 1
    then in_register (select_gpr (field 3 4 info))
    else in_memory (operation_address v)

abbrev pub read_selector : Operand → Vcpu → Bytes → ℕ
read_selector (in_register r) v m = load r v.gp_regs % 2 ^ 16
read_selector (in_memory a) v m = load_bytes 2 a m

-- Of a register the low 16 bits are written, and the others stay.
abbrev pub write_selector : Operand → ℕ → Vcpu → Bytes → Vcpu × Bytes
write_selector (in_register r) x v m =
    (with_regs (store r (set_field 0 16 x (load r v.gp_regs)) v.gp_regs) v, m)
write_selector (in_memory a) x v m = (v, store_bytes 2 a x m)

-- The descriptor that the selector chooses is marked busy: bit 41 is bit 1 of its type.
abbrev pub mark_busy : ℕ → Vcpu → Bytes → Bytes
mark_busy selector v m =
    let address = (vm_read 0x6816 v + field 3 13 selector * 8) % 2 ^ 64 in
    store_bytes 8 address (set_field 41 1 1 (load_bytes 8 address m)) m

-- 0x80c is `kGuestLdtrSelector`, 0x80e `kGuestTrSelector`.
unfoldable pub access_selector : (identity : ℕ) → Operand → Vcpu → Bytes → Vcpu × Bytes
access_selector identity operand v m =
    if identity == 0
    then write_selector operand (vm_read 0x80c v % 2 ^ 16) v m
    else (if identity == 1
        then write_selector operand (vm_read 0x80e v % 2 ^ 16) v m
        else (let selector = read_selector operand v m in
            if identity == 2
            then (vm_write 0x80c selector v, m)
            else (vm_write 0x80e selector v, mark_busy selector v m)))

unfoldable pub handle_ldtr_or_tr_access : Vcpu → Bytes → Vcpu × Bytes
unfolding access_selector selector_operand
handle_ldtr_or_tr_access v m =
    let done = access_selector (field 28 2 (vm_read 0x440e v)) (selector_operand v) v m in
    (adjust_guest_instruction_pointer done.0, done.1)
