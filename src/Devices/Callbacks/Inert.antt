-- ===== src/Devices/Callbacks/Inert.antt =====
-- What the callbacks decide, and for which addresses they are called.
use device_mon.Prelude.{
  ℕ, zero, suc, ◌+◌, ◌%◌, ◌^◌, ◌≤◌, ◌<◌, ◌≡◌, refl, ◌↔◌, ◌∙◌, ◌⊎◌, inl, inr, arith, Bool, true,
  false, List, [], ◌∷◌, Option, none, some, ◌==◌, Bool-cases,
}
use device_mon.Fuzzer.Start.{start_fuzz-inert}
use device_mon.Devices.Config.{MmioCallback, spi, intel_me, intel_usb3, intel_nic, PciMonitorCfg}
use device_mon.Devices.Callbacks.{
  Access, Client, call, fuzzing_callback, logging_callback, call_device, in_bar, bar_hit,
  scan_devices, is_monitored_device, execute_from, execute_callback,
}

call-inert :
    (f : MmioCallback) (a : Access) (c : Client)
    → ((call f a c).0 ≡ false) × ((call f a c).1.0 ≡ c.0)
unfolding call fuzzing_callback logging_callback
call-inert spi a c = (refl, refl)
call-inert intel_me a c = (refl, refl)
call-inert intel_usb3 a (regs, t) =
    ground (arith, start_fuzz-inert a.pfn a.disassembler a.inst_pointer regs t)
call-inert intel_nic a (regs, t) =
    ground (arith, start_fuzz-inert a.pfn a.disassembler a.inst_pointer regs t)

call_device-inert :
    (f : Option MmioCallback) (a : Access) (ret : Bool) (c : Client)
    → ret ≡ false
    → ((call_device f a ret c).0 ≡ false) × ((call_device f a ret c).1.0 ≡ c.0)
unfolding call_device
call_device-inert none a ret c off = (off, refl)
call_device-inert (some f) a ret c off = call-inert f a c

execute_from-inert :
    (cfgs : List PciMonitorCfg) (a : Access) (ret : Bool) (c : Client)
    → ret ≡ false
    → ((execute_from cfgs a ret c).0 ≡ false) × ((execute_from cfgs a ret c).1.0 ≡ c.0)
unfolding execute_from
execute_from-inert [] a ret c off = (off, refl)
execute_from-inert (cfg ∷ cfgs) a ret c off =
    elim (Bool-cases (bar_hit cfg a.mmio_address cfg.bar_count 0)) [
      | inl hit ↦
          let called = call_device-inert cfg.callback a ret c off in
          let (ret', c') = call_device cfg.callback a ret c in
          let later = execute_from-inert cfgs a ret' c' called.0 in
          (rw (hit, execute_from) later.0, rw (hit, execute_from) (later.1 ∙ called.1))
      | inr miss ↦
          let later = execute_from-inert cfgs a ret c off in
          (rw (miss, execute_from) later.0, rw (miss, execute_from) later.1)
    ]

-- For every list of devices and every access, `DmExecuteCallback` returns `false`, so the
-- instruction is never skipped, and leaves the registers as they were.
pub execute_callback-inert :
    (cfgs : List PciMonitorCfg) (a : Access) (c : Client)
    → ((execute_callback cfgs a c).0 ≡ false) × ((execute_callback cfgs a c).1.0 ≡ c.0)
unfolding execute_callback
execute_callback-inert cfgs a c = execute_from-inert cfgs a false c refl

-- A base address range of one of the devices that contains the address, both ends included, as the
-- low halves of its bounds.
abbrev pub InBar : List PciMonitorCfg → ℕ → Type 0
InBar [] address = 0 < 0
InBar (cfg ∷ cfgs) address =
    ((j : ℕ) × (j < cfg.bar_count)
      × (cfg.bar_address j % 2 ^ 32 ≤ address)
      × (address ≤ cfg.bar_limit j % 2 ^ 32))
    ⊎ InBar cfgs address

bar_hit_sound :
    (cfg : PciMonitorCfg) (address left j : ℕ)
    → bar_hit cfg address left j ≡ true
    → (i : ℕ) × (i < j + left)
      × (cfg.bar_address i % 2 ^ 32 ≤ address)
      × (address ≤ cfg.bar_limit i % 2 ^ 32)
unfolding bar_hit in_bar
bar_hit_sound cfg address zero j hit = absurd (ground arith)
bar_hit_sound cfg address (suc left) j hit = elim (Bool-cases (in_bar cfg address j)) [
  | inl here ↦ (j, omega arith, ground arith, ground arith)
  | inr not_here ↦
      let (i, below, lo, hi) = bar_hit_sound cfg address left (j + 1) (ground arith) in
      (i, omega arith, lo, hi)
]

bar_hit_complete :
    (cfg : PciMonitorCfg) (address left j i : ℕ)
    → j ≤ i
    → i < j + left
    → in_bar cfg address i ≡ true
    → bar_hit cfg address left j ≡ true
unfolding bar_hit
bar_hit_complete cfg address zero j i from below here = absurd (omega arith)
bar_hit_complete cfg address (suc left) j i from below here = elim (Bool-cases (i == j)) [
  | inl first ↦ ground arith
  | inr later ↦
      ground (arith, bar_hit_complete cfg address left (j + 1) i (ground arith) (omega arith) here)
]

scan_devices-found :
    (cfgs : List PciMonitorCfg) (address : ℕ) → scan_devices cfgs address true ≡ true
unfolding scan_devices
scan_devices-found [] address = refl
scan_devices-found (cfg ∷ cfgs) address = elim (Bool-cases (bar_hit cfg address cfg.bar_count 0)) [
  | inl hit ↦ rw hit (scan_devices-found cfgs address)
  | inr miss ↦ rw miss (scan_devices-found cfgs address)
]

is_monitored_sound :
    (cfgs : List PciMonitorCfg) (address : ℕ)
    → scan_devices cfgs address false ≡ true
    → InBar cfgs address
unfolding scan_devices
is_monitored_sound [] address found = absurd (ground arith)
is_monitored_sound (cfg ∷ cfgs) address found =
    elim (Bool-cases (bar_hit cfg address cfg.bar_count 0)) [
      | inl hit ↦
          let (i, below, lo, hi) = bar_hit_sound cfg address cfg.bar_count 0 hit in
          inl (i, omega arith, lo, hi)
      | inr miss ↦ inr (is_monitored_sound cfgs address (ground arith))
    ]

is_monitored_complete :
    (cfgs : List PciMonitorCfg) (address : ℕ)
    → InBar cfgs address
    → scan_devices cfgs address false ≡ true
unfolding scan_devices in_bar
is_monitored_complete [] address never = absurd (omega arith)
is_monitored_complete (cfg ∷ cfgs) address (inl (j, below, lo, hi)) =
    rw (bar_hit_complete cfg address cfg.bar_count 0 j (omega arith) (omega arith) (ground arith))
      (scan_devices-found cfgs address)
is_monitored_complete (cfg ∷ cfgs) address (inr later) =
    elim (Bool-cases (bar_hit cfg address cfg.bar_count 0)) [
      | inl hit ↦ rw hit (scan_devices-found cfgs address)
      | inr miss ↦ rw miss (is_monitored_complete cfgs address later)
    ]

-- `DmIsMonitoredDevice` finds an address exactly if a base address range of a device contains it,
-- both ends included, as the low halves of its bounds.
pub is_monitored_device-InBar :
    (cfgs : List PciMonitorCfg) (address : ℕ)
    → (is_monitored_device cfgs address ≡ true) ↔ InBar cfgs address
unfolding is_monitored_device
is_monitored_device-InBar cfgs address =
    (is_monitored_sound cfgs address, is_monitored_complete cfgs address)
