-- ===== src/Fuzzer.antt =====
-- The register fuzzer (DeviceMon/Fuzzer.cpp): which register an instruction at an address writes,
-- remembered in a table that is probed from the slot of the address on.
pub mod Registers
pub mod Disassemble
pub mod Records
pub mod Start
