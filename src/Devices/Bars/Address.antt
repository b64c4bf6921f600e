-- ===== src/Devices/Bars/Address.antt =====
-- The address that `DmInitBarInfo` makes of a 64-bit register of the management engine.
use device_mon.Prelude.{ℕ, ◌+◌, ◌-◌, ◌*◌, ◌%◌, ◌^◌, ◌≡◌, some, arith}
use device_mon.Devices.Pci.{PciBus, get_device_bar_address, read_pci_cfg}
use device_mon.Devices.Config.{intel_me_device_info}
use device_mon.Devices.Callbacks.{make_bar, intel_me_handle_bar}
use device_mon.Devices.Bars.{location, combine, bar_pa}

-- The two halves are joined, and their low four bits are cleared, also those of the upper half,
-- which are bits 32 to 35 of the address. The test for a register of ones never holds.
bar_pa-intel_me :
    {S : Type 0} (bus : PciBus S) (func : ℕ) (s : S)
    → let lower = read_pci_cfg bus (location (intel_me_device_info func) 0) 4 s in
      let upper = read_pci_cfg bus (location (intel_me_device_info func) 1) 4 s in
      bar_pa bus (intel_me_device_info func) 0 0 s
      ≡ some ((upper - upper % 16) * 2 ^ 32 + (lower - lower % 16))
unfolding bar_pa combine get_device_bar_address make_bar intel_me_handle_bar read_pci_cfg
bar_pa-intel_me bus func s = ground arith
