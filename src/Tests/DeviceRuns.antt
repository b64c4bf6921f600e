-- ===== src/Tests/DeviceRuns.antt =====
-- The list of devices as the driver is loaded, and a bus with one register that describes 4096
-- bytes.
use device_mon.Prelude.{ℕ, ◌-◌, ◌%◌, ◌^◌, ◌≡◌, refl, ◌↔◌, true, false, List, [], ◌∷◌, arith}
use device_mon.Monitor.Pages.{span_pages, validate_ept_pages}
use device_mon.Monitor.Pages.Reopen.{Reopened, validate_ept_pages-Reopened}
use device_mon.Devices.Pci.{PciBus, PciLocation, get_device_bar_size, get_device_bar_address}
use device_mon.Devices.Pci.Sizing.{IsBar, get_device_bar_size-address}
use device_mon.Devices.Config.{PciMonitorCfg, intel_me_device_info, monitor_device_list}
use device_mon.Devices.Callbacks.{Access, execute_callback, is_monitored_device}
use device_mon.Devices.Callbacks.Inert.{InBar, execute_callback-inert, is_monitored_device-InBar}
use device_mon.Devices.Bars.{enable_device_monitor, disable_device_monitor}
use device_mon.Devices.Bars.Sessions.{
  Completes, AllHaveCallback, AllFit, session_cost, device_monitor-Completes,
}
use device_mon.Tests.EptRuns.{small, root_shape, small-Inv}
use device_mon.Tests.FuzzerRuns.{one_taken, pfn, moves_eax, zeros}

-- The register keeps the bits above the low twelve of what is written to it.
abbrev pub one_register : PciBus ℕ
one_register = record {
  read = λ len address port s. s % 2 ^ 32 - s % 2 ^ 32 % 4096;
  write = λ len address port v s. v % 2 ^ 32;
}

abbrev somewhere : PciLocation
somewhere = record { bus = 0; dev = 31; fun = 5; off = 16 }

one_register-IsBar : IsBar one_register somewhere 4096
one_register-IsBar = record {
  least = omega arith;
  most = omega arith;
  aligned = refl;
  narrow = λ s. omega arith;
  flags = λ s. 0;
  flags_low = λ s. omega arith;
  sizing = λ s. refl;
  restoring = λ s. omega arith;
}

get_device_bar_size-address_example :
    let (size, s') = get_device_bar_size one_register somewhere 0xF7E10000 in
    (size ≡ 4096)
    × (get_device_bar_address one_register somewhere s'
        ≡ get_device_bar_address one_register somewhere 0xF7E10000)
get_device_bar_size-address_example =
    get_device_bar_size-address one_register somewhere 4096 0xF7E10000 one_register-IsBar

pub list-AllHaveCallback : AllHaveCallback monitor_device_list
list-AllHaveCallback = (
  λ j wide e. ground arith,
  (
    λ j wide e. ground arith,
    (
      λ j wide e. ground arith,
      (λ j wide e. ground arith, (λ j wide e. ground arith, (λ j wide e. ground arith, tt))),
    ),
  ),
)

pub list-AllFit : AllFit monitor_device_list
list-AllFit = ground arith

device_monitor-Completes_example :
    Completes small
      (session_cost monitor_device_list)
      (enable_device_monitor one_register monitor_device_list 0xF7E10000 small)
    × Completes small
        (session_cost monitor_device_list)
        (disable_device_monitor one_register monitor_device_list 0xF7E10000 small)
device_monitor-Completes_example =
    device_monitor-Completes one_register monitor_device_list 0xF7E10000 small root_shape
      list-AllHaveCallback list-AllFit small-Inv (omega arith)

validate_ept_pages-Reopened_example :
    Reopened 0xF7E10000 small root_shape
      (span_pages 0x4000)
      0
      (validate_ept_pages 0xF7E10000 0x4000 small)
validate_ept_pages-Reopened_example =
    validate_ept_pages-Reopened 0xF7E10000 0x4000 small root_shape small-Inv

abbrev read_access : Access
read_access = record {
  pfn = pfn;
  disassembler = moves_eax;
  irql = 0;
  inst_pointer = 0x3014;
  mmio_address = 0xF7E10020;
  inst_len = 2;
  access = 1;
}

-- The list after a register of the management engine was found.
abbrev pub found_list : List PciMonitorCfg
found_list =
    record (intel_me_device_info 0) { bar_address = λ j. 0xF7E10000; bar_limit = λ j. 0xF7E20000 }
    ∷ []

execute_callback-inert_example :
    ((execute_callback found_list read_access (zeros, one_taken)).0 ≡ false)
    × ((execute_callback found_list read_access (zeros, one_taken)).1.0 ≡ zeros)
execute_callback-inert_example = execute_callback-inert found_list read_access (zeros, one_taken)

is_monitored_device-InBar_example :
    (is_monitored_device found_list 0xF7E10020 ≡ true) ↔ InBar found_list 0xF7E10020
is_monitored_device-InBar_example = is_monitored_device-InBar found_list 0xF7E10020
