-- ===== src/Devices.antt =====
-- The monitored devices (DeviceMon/DevMon.cpp): their configurations, their base addresses in PCI
-- configuration space, and their callbacks.
pub mod Pci
pub mod Config
pub mod Bars
pub mod Callbacks
pub mod Spi
