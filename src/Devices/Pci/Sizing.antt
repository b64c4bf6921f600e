-- ===== src/Devices/Pci/Sizing.antt =====
-- Finding the size of a base address register.
use device_mon.Prelude.{ℕ, ◌+◌, ◌-◌, ◌%◌, ◌^◌, ◌≤◌, ◌<◌, ◌≡◌, arith}
use device_mon.Devices.Pci.{
  PciBus, PciLocation, pci_addr, cfg_data_port, read_pci_cfg, write_pci_cfg, get_device_bar_size,
  get_device_bar_address,
}

-- What the PCI specification says of the register at a location that describes `n` bytes: written
-- with ones, it reads as the two's complement of `n` with the type in the low four bits; a value
-- that it has shown, written back, is shown again.
pub record IsBar {S : Type 0} (bus : PciBus S) (l : PciLocation) (n : ℕ) : Type 0 where
  pub least : 16 ≤ n
  pub most : n ≤ 2 ^ 31
  pub aligned : n % 16 ≡ 0
  pub narrow : (s : S) → bus.read 4 (pci_addr l) (cfg_data_port l) s < 2 ^ 32
  pub flags : S → ℕ
  pub flags_low : (s : S) → flags s < 16
  pub sizing :
      (s : S)
      → bus.read 4
          (pci_addr l)
          (cfg_data_port l)
          (bus.write 4 (pci_addr l) (cfg_data_port l) 0xFFFFFFFF s)
        ≡ 2 ^ 32 - n + flags s
  pub restoring :
      (s : S)
      → bus.read 4 (pci_addr l) (cfg_data_port l) (
          bus.write 4
            (pci_addr l)
            (cfg_data_port l)
            (bus.read 4 (pci_addr l) (cfg_data_port l) s)
            (bus.write 4 (pci_addr l) (cfg_data_port l) 0xFFFFFFFF s))
        ≡ bus.read 4 (pci_addr l) (cfg_data_port l) s

-- For a register as the PCI specification describes it, `DmGetDeviceBarSize` returns the number of
-- bytes that it describes, and the register shows the address that it showed before.
pub get_device_bar_size-address :
    {S : Type 0} (bus : PciBus S) (l : PciLocation) (n : ℕ) (s : S)
    → IsBar bus l n
    → let (size, s') = get_device_bar_size bus l s in
      (size ≡ n) × (get_device_bar_address bus l s' ≡ get_device_bar_address bus l s)
unfolding get_device_bar_size get_device_bar_address read_pci_cfg write_pci_cfg
get_device_bar_size-address bus l n s bar =
    let shown = bar.sizing s in
    let back = bar.restoring s in
    let small = bar.narrow s in
    let low = bar.flags_low s in
    let r : ℕ = bus.read 4 (pci_addr l) (cfg_data_port l) s in
    let whole : r % 2 ^ 32 % 2 ^ 32 ≡ r = omega (arith, small) in
    (
      rw shown (omega (arith, bar.least, bar.most, bar.aligned, low)),
      rw (whole, get_device_bar_address, back),
    )
