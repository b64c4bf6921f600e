-- ===== src/Devices/Config.antt =====
-- The configurations of the monitored devices, `g_MonitorDeviceList` of DeviceMon/DevMon.cpp, with
-- the constants of DeviceMon/Spi.h, Me.h, Usb.h and network.h.
use device_mon.Prelude.{ℕ, zero, suc, List, [], ◌∷◌, Option, none, some}

-- The functions that a configuration points to, by name.
pub data MmioCallback : Type 0 where
  spi intel_me intel_usb3 intel_nic : MmioCallback

pub data BarCallback : Type 0 where
  intel_me_bar intel_nic_bar : BarCallback

-- The arrays have `MAX_BAR_INDEX` elements.
pub record PciMonitorCfg : Type 0 where
  pub bus_number : ℕ
  pub device_num : ℕ
  pub func_num : ℕ
  pub bar_offset : ℕ → ℕ
  pub bar_count : ℕ
  pub bar_address : ℕ → ℕ
  pub bar_limit : ℕ → ℕ
  pub callback : Option MmioCallback
  pub bar_address_width : ℕ → ℕ
  pub callback2 : Option BarCallback

abbrev pub max_bar_index : ℕ
max_bar_index = 6

abbrev pub zeros : ℕ → ℕ
zeros i = 0

-- An array from the values in front; the others are 0.
abbrev pub array : List ℕ → ℕ → ℕ
array [] i = 0
array (v ∷ vs) zero = v
array (v ∷ vs) (suc i) = array vs i

abbrev pub spi_device_info : PciMonitorCfg
spi_device_info = record {
  bus_number = 0;
  device_num = 0x1F;
  func_num = 0x5;
  bar_offset = array (0x10 ∷ []);
  bar_count = 1;
  bar_address = zeros;
  bar_limit = zeros;
  callback = some spi;
  bar_address_width = zeros;
  callback2 = none;
}

-- `IntelMeDeviceInfo`, `IntelMe2DeviceInfo` and `IntelMe3DeviceInfo` differ in the function number.
abbrev pub intel_me_device_info : ℕ → PciMonitorCfg
intel_me_device_info func = record {
  bus_number = 0;
  device_num = 22;
  func_num = func;
  bar_offset = array (0x10 ∷ 0x14 ∷ []);
  bar_count = 1;
  bar_address = zeros;
  bar_limit = zeros;
  callback = some intel_me;
  bar_address_width = array (1 ∷ []);
  callback2 = some intel_me_bar;
}

abbrev pub intel_usb3_device_info : PciMonitorCfg
intel_usb3_device_info = record {
  bus_number = 0;
  device_num = 20;
  func_num = 0;
  bar_offset = array (0x10 ∷ []);
  bar_count = 1;
  bar_address = zeros;
  bar_limit = zeros;
  callback = some intel_usb3;
  bar_address_width = zeros;
  callback2 = none;
}

abbrev pub marvell_nic_device_info : PciMonitorCfg
marvell_nic_device_info = record {
  bus_number = 1;
  device_num = 0;
  func_num = 0;
  bar_offset = array (0x10 ∷ 0x14 ∷ 0x18 ∷ 0x1C ∷ []);
  bar_count = 2;
  bar_address = zeros;
  bar_limit = zeros;
  callback = some intel_nic;
  bar_address_width = array (1 ∷ 1 ∷ []);
  callback2 = some intel_nic_bar;
}

-- As the driver is loaded.
abbrev pub monitor_device_list : List PciMonitorCfg
monitor_device_list =
    spi_device_info
    ∷ intel_me_device_info 0
    ∷ intel_me_device_info 1
    ∷ intel_me_device_info 4
    ∷ intel_usb3_device_info
    ∷ marvell_nic_device_info
    ∷ []
