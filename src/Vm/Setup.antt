-- ===== src/Vm/Setup.antt =====
-- `VmpSetupVmcs` of DeviceMon/vm.cpp on x64: the fields of the VMCS, by their encodings, with the
-- values that they are given, in the order of the writes. The masks of CR0 and CR4 are zero, since
-- the PAE paging of x86 is not in use, and so is the exception bitmap.
use device_mon.Prelude.{
  ℕ, ◌+◌, ◌-◌, ◌*◌, ◌%◌, ◌^◌, Bool, true, ◌&&◌, List, [], ◌∷◌, ◌++◌, ◌==◌, if◌then◌else◌, field,
  update, Bytes,
}
use device_mon.Vm.Controls.{
  adjust_control_value, entry_requested, exit_requested, pin_requested, proc_requested,
  proc2_requested,
}
use device_mon.Vm.Segments.{get_segment_access_right, get_segment_base}

-- The state of the processor as the driver runs on it. `segment_limit` and `access_rights` are the
-- instructions LSL and LAR; `memory` holds the descriptor tables.
pub record Host : Type 0 where
  pub processor : ℕ
  pub es : ℕ
  pub cs : ℕ
  pub ss : ℕ
  pub ds : ℕ
  pub fs : ℕ
  pub gs : ℕ
  pub ldtr : ℕ
  pub tr : ℕ
  pub gdtr_base : ℕ
  pub gdtr_limit : ℕ
  pub idtr_base : ℕ
  pub idtr_limit : ℕ
  pub cr0 : ℕ
  pub cr3 : ℕ
  pub cr4 : ℕ
  pub dr7 : ℕ
  pub flags : ℕ
  pub segment_limit : ℕ → ℕ
  pub access_rights : ℕ → ℕ
  pub msrs : ℕ → ℕ
  pub memory : Bytes

-- What the driver made for the guest and the VMM.
pub record Made : Type 0 where
  pub io_bitmap_a : ℕ
  pub io_bitmap_b : ℕ
  pub msr_bitmap : ℕ
  pub ept_pointer : ℕ
  pub guest_stack_pointer : ℕ
  pub guest_instruction_pointer : ℕ
  pub vmm_stack_pointer : ℕ
  pub vmm_entry_point : ℕ

-- `& 0xf8`: bits 3 to 7.
abbrev pub host_selector : ℕ → ℕ
host_selector selector = field 3 5 selector * 8

-- Bit 55 of IA32_VMX_BASIC, 0x480, says that the MSRs from 0x48d on give the controls.
abbrev pub use_true_msrs : Host → Bool
use_true_msrs h = field 55 1 (h.msrs 0x480) == 1

abbrev pub entry_controls : Host → ℕ
entry_controls h =
    adjust_control_value (h.msrs (if use_true_msrs h then 0x490 else 0x484)) entry_requested

abbrev pub exit_controls : Host → ℕ
exit_controls h =
    adjust_control_value (h.msrs (if use_true_msrs h then 0x48f else 0x483)) exit_requested

abbrev pub pin_controls : Host → ℕ
pin_controls h =
    adjust_control_value (h.msrs (if use_true_msrs h then 0x48d else 0x481)) pin_requested

abbrev pub proc_controls : Host → ℕ
proc_controls h =
    adjust_control_value (h.msrs (if use_true_msrs h then 0x48e else 0x482)) proc_requested

abbrev pub proc2_controls : Host → ℕ
proc2_controls h = adjust_control_value (h.msrs 0x48b) proc2_requested

-- A field and its value.
abbrev pub Write : Type 0
Write = ℕ × ℕ

-- 16-Bit Control Field.
abbrev pub control_16 : Host → Made → List Write
control_16 h d = (0x0, (h.processor + 1) % 2 ^ 32) ∷ []

-- 16-Bit Guest-State Fields.
abbrev pub guest_16 : Host → Made → List Write
guest_16 h d =
    (0x800, h.es)
    ∷ (0x802, h.cs)
    ∷ (0x804, h.ss)
    ∷ (0x806, h.ds)
    ∷ (0x808, h.fs)
    ∷ (0x80a, h.gs)
    ∷ (0x80c, h.ldtr)
    ∷ (0x80e, h.tr)
    ∷ []

-- 16-Bit Host-State Fields.
abbrev pub host_16 : Host → Made → List Write
host_16 h d =
    (0xc00, host_selector h.es)
    ∷ (0xc02, host_selector h.cs)
    ∷ (0xc04, host_selector h.ss)
    ∷ (0xc06, host_selector h.ds)
    ∷ (0xc08, host_selector h.fs)
    ∷ (0xc0a, host_selector h.gs)
    ∷ (0xc0c, host_selector h.tr)
    ∷ []

-- 64-Bit Control Fields.
abbrev pub control_64 : Host → Made → List Write
control_64 h d =
    (0x2000, d.io_bitmap_a)
    ∷ (0x2002, d.io_bitmap_b)
    ∷ (0x2004, d.msr_bitmap)
    ∷ (0x201a, d.ept_pointer)
    ∷ []

-- 64-Bit Guest-State Fields.
abbrev pub guest_64 : Host → Made → List Write
guest_64 h d = (0x2800, 2 ^ 64 - 1) ∷ (0x2802, h.msrs 0x1D9) ∷ []

-- 32-Bit Control Fields.
abbrev pub control_32 : Host → Made → List Write
control_32 h d =
    (0x4000, pin_controls h)
    ∷ (0x4002, proc_controls h)
    ∷ (0x4004, 0)
    ∷ (0x400c, exit_controls h)
    ∷ (0x4012, entry_controls h)
    ∷ (0x401e, proc2_controls h)
    ∷ []

-- 32-Bit Guest-State Fields.
abbrev pub guest_32 : Host → Made → List Write
guest_32 h d =
    (0x4800, h.segment_limit h.es)
    ∷ (0x4802, h.segment_limit h.cs)
    ∷ (0x4804, h.segment_limit h.ss)
    ∷ (0x4806, h.segment_limit h.ds)
    ∷ (0x4808, h.segment_limit h.fs)
    ∷ (0x480a, h.segment_limit h.gs)
    ∷ (0x480c, h.segment_limit h.ldtr)
    ∷ (0x480e, h.segment_limit h.tr)
    ∷ (0x4810, h.gdtr_limit)
    ∷ (0x4812, h.idtr_limit)
    ∷ (0x4814, get_segment_access_right h.access_rights h.es)
    ∷ (0x4816, get_segment_access_right h.access_rights h.cs)
    ∷ (0x4818, get_segment_access_right h.access_rights h.ss)
    ∷ (0x481a, get_segment_access_right h.access_rights h.ds)
    ∷ (0x481c, get_segment_access_right h.access_rights h.fs)
    ∷ (0x481e, get_segment_access_right h.access_rights h.gs)
    ∷ (0x4820, get_segment_access_right h.access_rights h.ldtr)
    ∷ (0x4822, get_segment_access_right h.access_rights h.tr)
    ∷ (0x482a, h.msrs 0x174)
    ∷ []

-- 32-Bit Host-State Field.
abbrev pub host_32 : Host → Made → List Write
host_32 h d = (0x4c00, h.msrs 0x174) ∷ []

-- Natural-Width Control Fields.
abbrev pub control_natural : Host → Made → List Write
control_natural h d = (0x6000, 0) ∷ (0x6002, 0) ∷ (0x6004, h.cr0) ∷ (0x6006, h.cr4) ∷ []

-- Natural-Width Guest-State Fields.
abbrev pub guest_natural : Host → Made → List Write
guest_natural h d =
    (0x6800, h.cr0)
    ∷ (0x6802, h.cr3)
    ∷ (0x6804, h.cr4)
    ∷ (0x6806, 0)
    ∷ (0x6808, 0)
    ∷ (0x680a, 0)
    ∷ (0x680c, 0)
    ∷ (0x680e, h.msrs 0xC0000100)
    ∷ (0x6810, h.msrs 0xC0000101)
    ∷ (0x6812, get_segment_base h.memory h.ldtr h.gdtr_base h.ldtr)
    ∷ (0x6814, get_segment_base h.memory h.ldtr h.gdtr_base h.tr)
    ∷ (0x6816, h.gdtr_base)
    ∷ (0x6818, h.idtr_base)
    ∷ (0x681a, h.dr7)
    ∷ (0x681c, d.guest_stack_pointer)
    ∷ (0x681e, d.guest_instruction_pointer)
    ∷ (0x6820, h.flags)
    ∷ (0x6824, h.msrs 0x175)
    ∷ (0x6826, h.msrs 0x176)
    ∷ []

-- Natural-Width Host-State Fields.
abbrev pub host_natural : Host → Made → List Write
host_natural h d =
    (0x6c00, h.cr0)
    ∷ (0x6c02, h.cr3)
    ∷ (0x6c04, h.cr4)
    ∷ (0x6c06, h.msrs 0xC0000100)
    ∷ (0x6c08, h.msrs 0xC0000101)
    ∷ (0x6c0a, get_segment_base h.memory h.ldtr h.gdtr_base h.tr)
    ∷ (0x6c0c, h.gdtr_base)
    ∷ (0x6c0e, h.idtr_base)
    ∷ (0x6c10, h.msrs 0x175)
    ∷ (0x6c12, h.msrs 0x176)
    ∷ (0x6c14, d.vmm_stack_pointer)
    ∷ (0x6c16, d.vmm_entry_point)
    ∷ []

unfoldable pub setup_writes : Host → Made → List Write
setup_writes h d =
    control_16 h d
    ++ guest_16 h d
    ++ host_16 h d
    ++ control_64 h d
    ++ guest_64 h d
    ++ control_32 h d
    ++ guest_32 h d
    ++ host_32 h d
    ++ control_natural h d
    ++ guest_natural h d
    ++ host_natural h d

-- The writes on the VMCS; `accepts` is what VMWRITE answers for each. All are made, and the answer
-- is whether all succeeded.
unfoldable pub write_all : (accepts : Write → Bool) → List Write → (ℕ → ℕ) → Bool × (ℕ → ℕ)
write_all accepts [] vmcs = (true, vmcs)
write_all accepts (w ∷ rest) vmcs =
    let done = write_all accepts rest (if accepts w then update vmcs w.0 w.1 else vmcs) in
    (accepts w && done.0, done.1)

unfoldable pub setup_vmcs : (accepts : Write → Bool) → Host → Made → (ℕ → ℕ) → Bool × (ℕ → ℕ)
unfolding write_all setup_writes
setup_vmcs accepts h d vmcs = write_all accepts (setup_writes h d) vmcs
