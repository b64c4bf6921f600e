-- ===== src/Driver.antt =====
-- The driver's load and unload (DeviceMon/driver.cpp) and the destructors of global objects
-- (DeviceMon/global_object.cpp).
pub mod Entry
pub mod GlobalObject
