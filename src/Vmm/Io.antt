-- ===== src/Vmm/Io.antt =====
-- `VmmpHandleIoPort` and `VmmpIoWrapper` of DeviceMon/vmm.cpp: IN, OUT, INS and OUTS.
pub mod Repeat
use device_mon.Prelude.{
  ℕ, ◌+◌, ◌-◌, ◌*◌, ◌/◌, ◌%◌, ◌^◌, Bool, true, false, ◌==◌, if◌then◌else◌, field, set_field,
}
use device_mon.Vmm.State.{Vcpu, vm_read, with_regs}
use device_mon.Vmm.Inject.{adjust_guest_instruction_pointer}

-- The compiler's intrinsics `__inbyte`, `__outbyte`, `__inbytestring`, `__outbytestring` and those
-- of the other widths, on the state `M` of the ports and of the guest's memory. Each takes the
-- width in bytes, and the string forms the address and the number of units.
pub record Ports (M : Type 0) : Type 0 where
  pub in_port : (width port : ℕ) → M → ℕ × M
  pub out_port : (width port value : ℕ) → M → M
  pub in_string : (width port address count : ℕ) → M → M
  pub out_string : (width port address count : ℕ) → M → M

-- `IoInstSizeOfAccess`; another encoding leaves the size 0.
abbrev pub size_of_access : ℕ → ℕ
size_of_access encoding =
    if encoding == 0 then 1 else (if encoding == 1 then 2 else (if encoding == 3 then 4 else 0))

-- `VmmpIoWrapper` for INS and OUTS. A width of 0 is in no case of its switches.
unfoldable pub io_string : {M : Type 0} → Ports M → Bool → (width port address count : ℕ) → M → M
io_string ports to_memory width port address count m =
    if width == 0
    then m
    else (if to_memory
        then ports.in_string width port address count m
        else ports.out_string width port address count m)

-- `VmmpIoWrapper` for IN and OUT, where the address is that of RAX; `ax` is its value.
unfoldable pub io_register : {M : Type 0} → Ports M → Bool → (width port ax : ℕ) → M → ℕ × M
io_register ports to_memory width port ax m =
    if width == 0
    then (ax, m)
    else (if to_memory
        then (let r = ports.in_port width port m in (set_field 0 (8 * width) r.0 ax, r.1))
        else (ax, ports.out_port width port (field 0 (8 * width) ax) m))

-- The update of RDI or RSI; bit 10 of the flags is DF.
abbrev pub moved : (flags pointer size : ℕ) → ℕ
moved flags pointer size =
    if field 10 1 flags == 1
    then (pointer + (2 ^ 64 - size % 2 ^ 64)) % 2 ^ 64
    else (pointer + size) % 2 ^ 64

-- The update of the registers after INS and OUTS.
unfoldable pub update_string_registers : (is_in is_rep : Bool) → (width : ℕ) → Vcpu → Vcpu
update_string_registers is_in is_rep width v =
    let g = v.gp_regs in
    let update_size = (if is_rep then g.cx else 1) * width in
    let g₁ =
      if is_in
      then record g { di = moved v.flag_reg g.di update_size }
      else record g { si = moved v.flag_reg g.si update_size } in
    with_regs (if is_rep then record g₁ { cx = 0 } else g₁) v

-- The case of the string instructions, and that of IN and OUT.
unfoldable pub handle_string :
    {M : Type 0} → Ports M → (is_in is_rep : Bool) → (width port : ℕ) → Vcpu → M → Vcpu × M
unfolding io_string update_string_registers
handle_string ports is_in is_rep width port v m =
    let g = v.gp_regs in
    let count = (if is_rep then g.cx else 1) % 2 ^ 32 in
    (
      update_string_registers is_in is_rep width v,
      io_string ports is_in width port (if is_in then g.di else g.si) count m,
    )

unfoldable pub handle_register :
    {M : Type 0} → Ports M → (is_in : Bool) → (width port : ℕ) → Vcpu → M → Vcpu × M
unfolding io_register
handle_register ports is_in width port v m =
    let done = io_register ports is_in width port v.gp_regs.ax m in
    (with_regs (record v.gp_regs { ax = done.0 }) v, done.1)

-- 0x6400 is `kExitQualification`.
unfoldable pub handle_io_port : {M : Type 0} → Ports M → Vcpu → M → Vcpu × M
unfolding handle_string handle_register
handle_io_port ports v m =
    let qualification = vm_read 0x6400 v in
    let is_in = field 3 1 qualification == 1 in
    let is_rep = field 5 1 qualification == 1 in
    let port = field 16 16 qualification in
    let width = size_of_access (field 0 3 qualification) in
    let done =
      if field 4 1 qualification == 1
      then handle_string ports is_in is_rep width port v m
      else handle_register ports is_in width port v m in
    (adjust_guest_instruction_pointer done.0, done.1)
