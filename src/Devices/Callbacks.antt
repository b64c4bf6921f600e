-- ===== src/Devices/Callbacks.antt =====
-- The callbacks of the devices (DeviceMon/Me.cpp, Spi.cpp, Usb.cpp, network.cpp), and
-- `DmIsMonitoredDevice` and `DmExecuteCallback` of DeviceMon/DevMon.cpp. The lines that only log
-- are left out.
pub mod Inert
use device_mon.Prelude.{
  ℕ, zero, suc, ◌+◌, ◌-◌, ◌*◌, ◌/◌, ◌%◌, ◌^◌, Bool, true, false, ◌&&◌, ◌||◌, List, [], ◌∷◌, Option,
  none, some, ◌==◌, leb, if◌then◌else◌,
}
use device_mon.Cpu.Registers.{GpRegisters}
use device_mon.Fuzzer.Disassemble.{Disassembler}
use device_mon.Fuzzer.Records.{Table}
use device_mon.Fuzzer.Start.{start_fuzz}
use device_mon.Devices.Config.{
  MmioCallback, spi, intel_me, intel_usb3, intel_nic, BarCallback, intel_me_bar, intel_nic_bar,
  PciMonitorCfg,
}

-- `IntelMeHandleBarCallback`. The mask `INTEL_ME_LOWER_MASK` has the 32 upper bits of a 36-bit
-- number, of which the assignment keeps 28.
unfoldable pub intel_me_handle_bar : ℕ → ℕ → ℕ
intel_me_handle_bar lower upper =
    if lower % 2 ^ 32 == 0xFFFFFFFF || upper % 2 ^ 32 == 0xFFFFFFFF
    then 0
    else upper % 2 ^ 32 * 2 ^ 32 + (lower % 2 ^ 32 - lower % 16)

-- `IntelNicHandleBarCallback`.
unfoldable pub intel_nic_handle_bar : ℕ → ℕ → ℕ
intel_nic_handle_bar lower upper = lower

unfoldable pub make_bar : BarCallback → ℕ → ℕ → ℕ
unfolding intel_me_handle_bar intel_nic_handle_bar
make_bar intel_me_bar = intel_me_handle_bar
make_bar intel_nic_bar = intel_nic_handle_bar

-- What an access is made with: `UtilPfnFromVa`, what the disassembler says of the instruction, the
-- interrupt request level, and the arguments of the callback.
pub record Access : Type 0 where
  pub pfn : ℕ → ℕ
  pub disassembler : Disassembler
  pub irql : ℕ
  pub inst_pointer : ℕ
  pub mmio_address : ℕ
  pub inst_len : ℕ
  pub access : ℕ

-- The saved registers and the table of the fuzzer.
abbrev pub Client : Type 0
Client = GpRegisters × Table

-- `DISPATCH_LEVEL` is 2.
abbrev may_fuzz : Access → Bool
may_fuzz a = a.access == 1 && leb a.irql 2

-- `IntelUsb3HandleMmioAccessCallback` and `IntelNicHandleMmioAccessCallback`.
unfoldable pub fuzzing_callback : Access → Client → Bool × Client
fuzzing_callback a (regs, t) =
    let (ret, regs', t') = start_fuzz a.pfn a.disassembler a.inst_pointer regs t in
    if may_fuzz a then (ret, (regs', t')) else (false, (regs, t))

-- `SpiHandleMmioAccessCallback` and `IntelMeHandleMmioAccessCallback`.
unfoldable pub logging_callback : Access → Client → Bool × Client
logging_callback a c = (false, c)

unfoldable pub call : MmioCallback → Access → Client → Bool × Client
unfolding fuzzing_callback logging_callback
call spi = logging_callback
call intel_me = logging_callback
call intel_usb3 = fuzzing_callback
call intel_nic = fuzzing_callback

-- The test of both loops: the bounds are cut to 32 bits, and the limit is included.
unfoldable pub in_bar : PciMonitorCfg → ℕ → ℕ → Bool
in_bar cfg address j =
    leb (cfg.bar_address j % 2 ^ 32) address && leb address (cfg.bar_limit j % 2 ^ 32)

-- The inner loop, which ends at the first hit; `left` indices are left from `j` on.
unfoldable pub bar_hit : PciMonitorCfg → ℕ → ℕ → ℕ → Bool
unfolding in_bar
bar_hit cfg address zero j = false
bar_hit cfg address (suc left) j =
    let later = bar_hit cfg address left (j + 1) in if in_bar cfg address j then true else later

-- The outer loop of `DmIsMonitoredDevice`, which goes on after a hit.
unfoldable pub scan_devices : List PciMonitorCfg → ℕ → Bool → Bool
unfolding bar_hit
scan_devices [] address ret = ret
scan_devices (cfg ∷ cfgs) address ret =
    scan_devices cfgs address (if bar_hit cfg address cfg.bar_count 0 then true else ret)

-- `DmIsMonitoredDevice`; its argument is a `ULONG`.
unfoldable pub is_monitored_device : List PciMonitorCfg → ℕ → Bool
unfolding scan_devices
is_monitored_device cfgs address = scan_devices cfgs address false

-- A hit of the inner loop of `DmExecuteCallback`.
unfoldable pub call_device : Option MmioCallback → Access → Bool → Client → Bool × Client
unfolding call
call_device none a ret c = (ret, c)
call_device (some f) a ret c = call f a c

-- The outer loop of `DmExecuteCallback`.
unfoldable pub execute_from : List PciMonitorCfg → Access → Bool → Client → Bool × Client
unfolding call_device bar_hit
execute_from [] a ret c = (ret, c)
execute_from (cfg ∷ cfgs) a ret c =
    let (ret', c') =
      if bar_hit cfg a.mmio_address cfg.bar_count 0
      then call_device cfg.callback a ret c
      else (ret, c) in
    execute_from cfgs a ret' c'

-- `DmExecuteCallback`.
unfoldable pub execute_callback : List PciMonitorCfg → Access → Client → Bool × Client
unfolding execute_from
execute_callback cfgs a c = execute_from cfgs a false c
