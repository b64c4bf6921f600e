-- ===== src/Monitor.antt =====
-- The device monitor (DeviceMon/DevMon.cpp): the devices, their BARs, and the pages that are made
-- to cause a VM exit.
pub mod Pages
