-- ===== src/Vmm/State.antt =====
-- What the exit handlers of DeviceMon/vmm.cpp read and write: `GuestContext`, the part of
-- `ProcessorData` that they change, the VMCS, and the model specific and debug registers.
use device_mon.Prelude.{ℕ, Bool, Option, update}
use device_mon.Cpu.Registers.{GpRegisters}
use device_mon.Ept.Tables.{Pointer}
use device_mon.Fuzzer.Records.{Table}

-- `vmcs` and `msrs` are indexed by the encodings of DeviceMon/ia32_type.h. `records` is the table of
-- the fuzzer, a global variable.
pub record Vcpu : Type 0 where
  pub gp_regs : GpRegisters
  pub flag_reg : ℕ
  pub ip : ℕ
  pub cr8 : ℕ
  pub vm_continue : Bool
  pub vmcs : ℕ → ℕ
  pub msrs : ℕ → ℕ
  pub drs : ℕ → ℕ
  pub last_fault_entry : Option Pointer
  pub records : Table

-- `UtilVmRead` and `UtilVmWrite`.
abbrev pub vm_read : ℕ → Vcpu → ℕ
vm_read f v = v.vmcs f

abbrev pub vm_write : ℕ → ℕ → Vcpu → Vcpu
vm_write f x v = record v { vmcs = update v.vmcs f x }

abbrev pub with_regs : GpRegisters → Vcpu → Vcpu
with_regs g v = record v { gp_regs = g }
