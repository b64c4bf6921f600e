-- ===== src/Devices/Pci.antt =====
-- PCI configuration space: `ReadPCICfg` and `WritePCICfg` of DeviceMon/util.cpp, and what
-- DeviceMon/DevMon.cpp reads of a base address register.
pub mod Sizing
use Prim.Native.Nat.{bit_or}
use device_mon.Prelude.{ℕ, ◌+◌, ◌-◌, ◌*◌, ◌%◌, ◌^◌, Bool, true, false, ◌==◌, if◌then◌else◌}

-- The routines of the machine, `ReadPCIByte` and its kin, by the length of the access. `S` is the
-- state of the bus.
pub record PciBus (S : Type 0) : Type 0 where
  pub read : (len pci_addr cfg_data_port : ℕ) → S → ℕ
  pub write : (len pci_addr cfg_data_port : ℕ) → ℕ → S → S

-- Bus, device, function and the offset in the configuration space, bytes all.
pub record PciLocation : Type 0 where
  pub bus : ℕ
  pub dev : ℕ
  pub fun : ℕ
  pub off : ℕ

unfoldable pub pci_addr : PciLocation → ℕ
pci_addr l =
    bit_or (bit_or (bit_or (bit_or 0x80000000 (l.bus * 2 ^ 16)) (l.dev * 2 ^ 11)) (l.fun * 2 ^ 8))
      (l.off - l.off % 4)

unfoldable pub cfg_data_port : PciLocation → ℕ
cfg_data_port l = (0xCFC + l.off % 4) % 2 ^ 16

module _ {S : Type 0} (bus : PciBus S) where
  -- A length other than 1, 2 and 4 reads 0.
  unfoldable pub read_pci_cfg : PciLocation → ℕ → S → ℕ
  read_pci_cfg l len s =
      let value = bus.read len (pci_addr l) (cfg_data_port l) s in
      if len == 1
      then value % 2 ^ 8
      else (if len == 2 then value % 2 ^ 16 else (if len == 4 then value % 2 ^ 32 else 0))

  unfoldable pub write_pci_cfg : PciLocation → ℕ → ℕ → S → S
  write_pci_cfg l len val s =
      if len == 1
      then bus.write len (pci_addr l) (cfg_data_port l) (val % 2 ^ 8) s
      else (if len == 2
          then bus.write len (pci_addr l) (cfg_data_port l) (val % 2 ^ 16) s
          else (if len == 4
              then bus.write len (pci_addr l) (cfg_data_port l) (val % 2 ^ 32) s
              else s))

  -- `DmGetDeviceBarSize`: the register is written with ones, read and written back.
  unfoldable pub get_device_bar_size : PciLocation → S → ℕ × S
  get_device_bar_size l s =
      let base_addr = read_pci_cfg l 4 s in
      let s₁ = write_pci_cfg l 4 0xFFFFFFFF s in
      let size = read_pci_cfg l 4 s₁ in
      let s₂ = write_pci_cfg l 4 base_addr s₁ in ((2 ^ 32 - (size - size % 16)) % 2 ^ 32, s₂)

  -- `DmGetDeviceBarAddress`.
  unfoldable pub get_device_bar_address : PciLocation → S → ℕ
  get_device_bar_address l s = let pa = read_pci_cfg l 4 s in pa - pa % 16
