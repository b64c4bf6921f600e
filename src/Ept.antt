-- ===== src/Ept.antt =====
-- Extended page tables (DeviceMon/ept.cpp): the memory types, the entries, the four-level tables
-- in physical memory, and the operations on them.
pub mod Mtrr
pub mod Entry
pub mod Tables
