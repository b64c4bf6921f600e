-- ===== src/Vmm/Dispatch/Past.antt =====
-- What the handlers of DeviceMon/vmm.cpp that return leave for the guest: the instruction behind the
-- one that exits, or an event.
use device_mon.Prelude.{
  ℕ, ◌+◌, ◌/◌, ◌%◌, ◌^◌, ◌≡◌, refl, sym, ◌⊎◌, inl, inr, Bool-cases, ◌&&◌, ◌||◌, not, Bool, true,
  false, arith, field, Bytes, ◌==◌, if◌then◌else◌,
}
use device_mon.Vmm.State.{Vcpu, vm_read}
use device_mon.Vmm.Inject.{
  adjust_guest_instruction_pointer, inject_db, inject_gp, inject_ud, get_guest_cpl,
  inject_interruption,
}
use device_mon.Vmm.Exits.Advance.{adjust-IsAdvanced}
use device_mon.Cpu.Registers.{Gpr, load}
use device_mon.Vmm.Debug.{
  access_dr, general_detect, move_dr, move_to_dr, move_from_dr, handle_dr_access, select_gpr,
}
use device_mon.Vmm.Io.{
  Ports, handle_io_port, handle_string, handle_register, update_string_registers,
}
use device_mon.Vmm.Msr.{write_msr, transfer_to_vmcs}
use device_mon.Vmm.Descriptor.{
  Operand, in_register, in_memory, write_selector, access_selector, access_table,
}

abbrev pub IsPast : (v v' : Vcpu) → Type 0
IsPast v v' = vm_read 0x681e v' ≡ (v.ip + vm_read 0x440c v) % 2 ^ 64

pub adjust-IsPast :
    (v v₁ : Vcpu)
    → v₁.ip ≡ v.ip
    → vm_read 0x440c v₁ ≡ vm_read 0x440c v
    → IsPast v (adjust_guest_instruction_pointer v₁)
adjust-IsPast v v₁ ip len = rw (sym ip, sym len) (adjust-IsAdvanced v₁).next

pub write_msr-len : (msr x : ℕ) (v : Vcpu) → vm_read 0x440c (write_msr msr x v) ≡ vm_read 0x440c v
unfolding write_msr transfer_to_vmcs
write_msr-len msr x v = ground arith

pub write_msr-ip : (msr x : ℕ) (v : Vcpu) → (write_msr msr x v).ip ≡ v.ip
unfolding write_msr transfer_to_vmcs
write_msr-ip msr x v = ground arith

write_selector-kept :
    (operand : Operand) (x : ℕ) (v : Vcpu) (m : Bytes)
    → ((write_selector operand x v m).0.ip ≡ v.ip)
      × (vm_read 0x440c (write_selector operand x v m).0 ≡ vm_read 0x440c v)
write_selector-kept (in_register r) x v m = (refl, refl)
write_selector-kept (in_memory a) x v m = (refl, refl)

pub access_selector-kept :
    (identity : ℕ) (operand : Operand) (v : Vcpu) (m : Bytes)
    → ((access_selector identity operand v m).0.ip ≡ v.ip)
      × (vm_read 0x440c (access_selector identity operand v m).0 ≡ vm_read 0x440c v)
unfolding access_selector
access_selector-kept identity operand v m =
    let ldtr = write_selector-kept operand (vm_read 0x80c v % 2 ^ 16) v m in
    let tr = write_selector-kept operand (vm_read 0x80e v % 2 ^ 16) v m in
    (ground (arith, ldtr.0, tr.0), ground (arith, ldtr.1, tr.1))

pub access_table-kept :
    (identity address : ℕ) (v : Vcpu) (m : Bytes)
    → ((access_table identity address v m).0.ip ≡ v.ip)
      × (vm_read 0x440c (access_table identity address v m).0 ≡ vm_read 0x440c v)
unfolding access_table
access_table-kept identity address v m = (ground arith, ground arith)

handle_io_port-IsPast :
    {M : Type 0} (ports : Ports M) (v : Vcpu) (m : M) → IsPast v (handle_io_port ports v m).0
unfolding handle_io_port handle_string handle_register update_string_registers
handle_io_port-IsPast ports v m = elim (Bool-cases (field 4 1 (vm_read 0x6400 v) == 1)) [
  | inl is_string ↦ rw is_string (adjust-IsPast v _ refl refl)
  | inr is_register ↦ rw is_register (adjust-IsPast v _ refl refl)
]

-- An event is on its way to the guest: 0x4016 is `kVmEntryIntrInfoField`, whose bit 31 says so.
abbrev pub IsInjected : Vcpu → Type 0
IsInjected v' = field 31 1 (vm_read 0x4016 v') ≡ 1

inject-IsInjected :
    (type vector : ℕ) (deliver : Bool) (code : ℕ) (v : Vcpu)
    → IsInjected (inject_interruption type vector deliver code v)
unfolding inject_interruption
inject-IsInjected type vector true code v = ground arith
inject-IsInjected type vector false code v = ground arith

moved_dr-kept :
    (dr : ℕ) (r : Gpr) (direction : ℕ) (v : Vcpu)
    → (let v₁ =
          if direction == 0 then move_to_dr dr (load r v.gp_regs) v else move_from_dr dr r v in
        (v₁.ip ≡ v.ip) × (vm_read 0x440c v₁ ≡ vm_read 0x440c v))
unfolding move_to_dr move_from_dr
moved_dr-kept dr r direction v = (ground arith, ground arith)

general_detect-IsInjected : (v : Vcpu) → IsInjected (general_detect v)
unfolding general_detect inject_db inject_interruption
general_detect-IsInjected v = ground arith

access_dr-Progress :
    (dr : ℕ) (r : Gpr) (direction : ℕ) (v : Vcpu)
    → IsPast v (access_dr dr r direction v) ⊎ IsInjected (access_dr dr r direction v)
unfolding access_dr move_dr inject_gp
access_dr-Progress dr r direction v = elim (Bool-cases (field 13 1 (vm_read 0x681a v) == 1)) [
  | inl detected ↦ inr (rw detected (general_detect-IsInjected v))
  | inr clear ↦
      let too_wide =
        direction == 0 && (dr == 6 || dr == 7) && not (load r v.gp_regs / 2 ^ 32 == 0) in
      elim (Bool-cases too_wide) [
        | inl refused ↦ inr (rw (clear, refused) (inject-IsInjected 3 13 true 0 v))
        | inr fits ↦
            let kept = moved_dr-kept dr r direction v in
            inl (rw (clear, fits) (adjust-IsPast v _ kept.0 kept.1))
      ]
]

pub handle_dr_access-Progress :
    (v : Vcpu) → IsPast v (handle_dr_access v) ⊎ IsInjected (handle_dr_access v)
unfolding handle_dr_access inject_gp inject_ud
handle_dr_access-Progress v =
    let dr = field 0 3 (vm_read 0x6400 v) in
    let r = select_gpr (field 8 4 (vm_read 0x6400 v)) in
    let direction = field 4 1 (vm_read 0x6400 v) in
    elim (Bool-cases (not (get_guest_cpl v == 0))) [
      | inl user ↦ inr (rw user (inject-IsInjected 3 13 true 0 v))
      | inr kernel ↦ elim (Bool-cases (dr == 4 || dr == 5)) [
        | inr plain ↦ rw (kernel, plain) (access_dr-Progress dr r direction v)
        | inl renamed ↦ elim (Bool-cases (field 3 1 (vm_read 0x6804 v) == 1)) [
          | inl extended ↦ inr (rw (kernel, renamed, extended) (inject-IsInjected 3 6 false 0 v))
          | inr legacy ↦
              rw (kernel, renamed, legacy)
                (access_dr-Progress (if dr == 4 then 6 else 7) r direction v)
        ]
      ]
    ]
