-- ===== src/Vm.antt =====
-- Virtualization of the processors (DeviceMon/vm.cpp).
pub mod Lifecycle
pub mod Controls
pub mod Bitmaps
pub mod Segments
pub mod Setup
