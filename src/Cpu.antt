-- ===== src/Cpu.antt =====
-- The processor state that the VM-exit handlers read and write (DeviceMon/ia32_type.h).
pub mod Registers
