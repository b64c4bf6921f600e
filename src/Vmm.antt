-- ===== src/Vmm.antt =====
-- The exit handlers (DeviceMon/vmm.cpp), on x64.
pub mod State
pub mod Inject
pub mod Exits
pub mod Msr
pub mod Debug
pub mod Hypercall
pub mod Mmio
pub mod Io
pub mod Control
pub mod Descriptor
pub mod Dispatch
