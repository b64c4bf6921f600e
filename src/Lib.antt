-- ===== src/Lib.antt =====
-- DeviceMon: a hypervisor for Windows that watches how drivers use the registers of some devices.
--
-- The driver (DeviceMon/driver.cpp) starts the modules and puts every processor under the hypervisor. The
-- hypervisor gives the guest its physical memory through extended page tables (DeviceMon/ept.cpp). When
-- monitoring is switched on, the pages that a device's base address registers describe are made
-- inaccessible in these tables (DeviceMon/DevMon.cpp). An access to them exits to the hypervisor
-- (DeviceMon/vmm.cpp), which calls the device's callback (DeviceMon/Me.cpp, Spi.cpp, Usb.cpp,
-- network.cpp), opens the page for a single step of the guest and closes it again. Some callbacks ask the
-- fuzzer (DeviceMon/Fuzzer.cpp) which register the instruction writes.
--
-- Prelude: names of the libraries, Boolean tests, bit fields, bit operations, arrays, remainders, and
--   memory by bytes.
-- Cpu: the saved registers, `GpRegisters` of DeviceMon/ia32_type.h.
-- Ept: DeviceMon/ept.cpp. Ept/Mtrr is `EptInitializeMtrrEntries` and `EptpGetMemoryType`. Ept/Entry is
--   `EptCommonEntry`, `EptpInitTableEntry` and the indices. Ept/Tables is the allocation of tables,
--   `EptpConstructTables` and `EptpGetEptPtEntry`. Physical memory is a partial function from frame
--   numbers to tables; an access where there is no table is a fault. The pool is the list of the pages
--   that it will hand out. The children of Ept/Tables state the invariant (Inv), say what the tables mean
--   (Walk) and treat a step of the code each; Ept/Tables/Destruct is `EptTermination`, Ept/Tables/Init
--   `EptInitialization`.
-- Monitor: `InvalidateEptPages` and `ValidateEptPages` of DeviceMon/DevMon.cpp.
-- Devices: the rest of DeviceMon/DevMon.cpp. Devices/Pci is the access to the configuration space
--   (DeviceMon/util.cpp), Devices/Config the list of devices, Devices/Bars `DmInitBarInfo` and the two
--   functions that switch the monitor, Devices/Callbacks the callbacks and the functions that find them,
--   Devices/Spi the table of DeviceMon/Spi.cpp.
-- Fuzzer: DeviceMon/Fuzzer.cpp. Fuzzer/Registers is `AccessWidth` and `SelectRegister`,
--   Fuzzer/Disassemble is `GetInstructionDestRegister`, Fuzzer/Records is `GetRegIndexByRip` and
--   Fuzzer/Start is `StartFuzz`.
-- Driver: `DriverEntry` and the unload handler (DeviceMon/driver.cpp) as traces of what they start and
--   stop, and the destructors of DeviceMon/global_object.cpp.
-- Vmm: the exit handlers of DeviceMon/vmm.cpp. Vmm/State is `GuestContext` with the VMCS, Vmm/Inject the
--   events for the guest and its instruction pointer, Vmm/Msr RDMSR and WRMSR, Vmm/Exits
--   exceptions, CPUID, the time stamp, XSETBV and the VMX instructions, Vmm/Debug the debug
--   registers, Vmm/Hypercall VMCALL, Vmm/Mmio the EPT violations and the single step after them
--   (`EptHandleEptViolation` of DeviceMon/ept.cpp, `DmSetMonitorTrapFlag` of DeviceMon/DevMon.cpp),
--   Vmm/Io the I/O ports, Vmm/Control the control registers, INVD and INVLPG, Vmm/Descriptor the
--   descriptor table registers and their selectors, over the memory of the guest by bytes.
--   Vmm/Dispatch puts them together: `VmmVmExitHandler` with its switch. The handlers answer with the
--   state after them and with what they tell the processor, or with the stop of the system.
-- Vm: DeviceMon/vm.cpp. Vm/Lifecycle is `VmInitialization`, `VmTermination` and what they call on each
--   processor; the memory is counted by what it is for, and a block freed that is not live ends the
--   run. Vm/Bitmaps is `VmpBuildMsrBitmap` and `VmpBuildIoBitmaps`, Vm/Controls `VmpAdjustControlValue`
--   and the checks of the processor, Vm/Segments the descriptors, Vm/Setup `VmpSetupVmcs` as the list
--   of the fields that it writes.
-- Util: Util/PageTables is the addresses of the entries of the page tables of Windows
--   (DeviceMon/util.cpp, DeviceMon/util_page_constants.h).
-- Log: DeviceMon/log.cpp. Log/Text is texts in memory, Log/Buffer the two buffers with `LogpBufferMessage`
--   and `LogpFlushLogBuffer`, Log/Entries the messages that a buffer holds, Log/Print `LogpPrint` with
--   `LogpMakePrefix` and `LogpPut`, Log/Steps the threads that buffer messages while another one flushes.
--   A buffer is a function from offsets to bytes; what is written in front of it ends the run.
-- Tests: the theorems at concrete inputs.
--
-- Bounds: the walk over the tables recurses on the level, 4 at the root. The loops over pages, slots
-- and registers recurse on the rounds that are left, which the source's conditions give; the search of
-- the fuzzer's table makes as many rounds as the table has slots, and comes back to where it began. The
-- loop of `LogpFlushLogBuffer` has as many turns as the buffer has bytes, and each turn takes a byte or
-- more.
--
-- Parameters: the copy of strings (`StringCopy`, with the law `IsCopy`), their formatting (`Printf`), where
-- a message comes from (`Caller`), the bus (`PciBus`), the ports (`Ports`, with the law that a string of units is the units
-- one after the other where a theorem asks for it), the disassembler (`Disassembler`), the pools, the
-- MSRs, what the processor answers to the VMX instructions, to LSL and to LAR, and what the
-- initialization of each module returns, and what a store at an address of the guest does. Words are
-- natural numbers, with the wrap-around written out. MSRs that no field of the VMCS stands for are a
-- memory of 64-bit words. `NT_ASSERT` does nothing, as in a release build, and lines that only log are
-- left out.
--
-- Not modelled: `EptIsEptAvailable`, the hot-plug of processors, the inside of
-- `VmpEnterVmxMode` and `VmpInitializeVmcs`, the rest of DeviceMon/util.cpp, the dump of the guest's state
-- before the system stops, the life cycle of the log, performance counters, the power and hot-plug callbacks, the
-- assembly, and capstone, whose headers are in the repository.
pub mod Prelude
pub mod Cpu
pub mod Util
pub mod Ept
pub mod Fuzzer
pub mod Devices
pub mod Monitor
pub mod Vmm
pub mod Vm
pub mod Log
pub mod Driver
pub mod Tests
