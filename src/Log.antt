-- ===== src/Log.antt =====
-- The log (DeviceMon/log.cpp): two buffers for messages that cannot be written at once, and the
-- thread that writes them to the file.
pub mod Text
pub mod Buffer
pub mod Entries
pub mod Flush
pub mod Whole
pub mod Added
pub mod Print
pub mod Steps
