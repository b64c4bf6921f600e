-- ===== src/Vmm/Hypercall/Termination.antt =====
-- When the VMM ends, and what becomes of a hypercall.
use device_mon.Prelude.{Option, none, some, ℕ, ◌+◌, ◌*◌, ◌%◌, ◌^◌, ◌<◌, ◌≡◌, ◌≢◌, ◌⊎◌, false}
use device_mon.Ept.Tables.{Ept, Run, ok, fault}
use device_mon.Ept.Tables.Inv.{Inv}
use device_mon.Devices.Pci.{PciBus}
use device_mon.Vmm.State.{Vcpu, vm_read}
use device_mon.Devices.Bars.{enable_device_monitor, disable_device_monitor}
use device_mon.Vmm.Inject.{get_guest_cpl, clear_status}
use device_mon.Vmm.Hypercall.{hypercall_number, Found}

-- The hypercall was refused: #UD is injected, and the instruction pointer and the registers are as
-- they were.
pub record IsRefused (v v' : Vcpu) : Type 0 where
  pub exception : vm_read 0x4016 v' ≡ 2 ^ 31 + 3 * 2 ^ 8 + 6
  pub same_ip : vm_read 0x681e v' ≡ vm_read 0x681e v
  pub same_regs : v'.gp_regs ≡ v.gp_regs
  pub goes_on : v'.vm_continue ≡ v.vm_continue

-- The hypercall was answered: the guest goes on behind it with the flags of a success.
pub record IsAnswered (v v' : Vcpu) : Type 0 where
  pub next : vm_read 0x681e v' ≡ (v.ip + vm_read 0x440c v) % 2 ^ 64
  pub flags : vm_read 0x6820 v' ≡ clear_status v.flag_reg
  pub kept_regs : v'.gp_regs ≡ v.gp_regs
  pub continues : v'.vm_continue ≡ v.vm_continue

-- What a hypercall ends in.
pub data Served {S : Type 0} (bus : PciBus S) (store : ℕ → S → Option S) (v : Vcpu)
    (found : Found S) (ept : Ept) : Run (Vcpu × Found S) → Type 0 where
  terminated :
      {v' : Vcpu}
      → hypercall_number v ≡ 0
      → get_guest_cpl v ≡ 0
      → v'.vm_continue ≡ false
      → v'.gp_regs.cx ≡ (v.ip + vm_read 0x440c v) % 2 ^ 64
      → v'.gp_regs.dx ≡ v.gp_regs.sp
      → Served bus store v found ept (ok (v', found) ept)
  ponged :
      {v' : Vcpu}
      → hypercall_number v ≡ 1
      → IsAnswered v v'
      → Served bus store v found ept (ok (v', found) ept)
  stored :
      {v' : Vcpu} {s : S}
      → hypercall_number v ≡ 2
      → IsAnswered v v'
      → store v.gp_regs.dx found.1 ≡ some s
      → Served bus store v found ept (ok (v', (found.0, s)) ept)
  crashed :
      hypercall_number v ≡ 2
      → store v.gp_regs.dx found.1 ≡ none
      → Served bus store v found ept fault
  switched_on :
      {v' : Vcpu} {found' : Found S} {s : Ept}
      → hypercall_number v ≡ 3
      → IsAnswered v v'
      → enable_device_monitor bus found.0 found.1 ept ≡ ok found' s
      → Served bus store v found ept (ok (v', found') s)
  switched_off :
      {v' : Vcpu} {found' : Found S} {s : Ept}
      → hypercall_number v ≡ 4
      → IsAnswered v v'
      → disable_device_monitor bus found.0 found.1 ept ≡ ok found' s
      → Served bus store v found ept (ok (v', found') s)
  refused :
      {v' : Vcpu}
      → (4 < hypercall_number v) ⊎ ((hypercall_number v ≡ 0) × (get_guest_cpl v ≢ 0))
      → IsRefused v v'
      → Served bus store v found ept (ok (v', found) ept)
