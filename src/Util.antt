-- ===== src/Util.antt =====
-- The utility functions (DeviceMon/util.cpp), on x64.
pub mod PageTables
