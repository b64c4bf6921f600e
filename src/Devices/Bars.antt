-- ===== src/Devices/Bars.antt =====
-- `DmInitBarInfo`, `DmEnableDeviceMonitor` and `DmDisableDeviceMonitor` of DeviceMon/DevMon.cpp.
pub mod Sessions
pub mod Address
use device_mon.Prelude.{
  ℕ, zero, suc, ◌+◌, ◌-◌, ◌*◌, ◌/◌, ◌%◌, ◌^◌, Bool, true, false, ◌&&◌, ◌||◌, List, [], ◌∷◌, Option,
  none, some, ◌==◌, ltb, leb, if◌then◌else◌, update,
}
use device_mon.Ept.Tables.{Ept, Run, ok, fault, ◌>>=◌, pure}
use device_mon.Monitor.Pages.{invalidate_ept_pages, validate_ept_pages}
use device_mon.Devices.Pci.{PciBus, PciLocation, get_device_bar_size, get_device_bar_address}
use device_mon.Devices.Config.{PciMonitorCfg, BarCallback, max_bar_index}
use device_mon.Devices.Callbacks.{make_bar}

abbrev pub location : PciMonitorCfg → ℕ → PciLocation
location cfg i = record {
  bus = cfg.bus_number;
  dev = cfg.device_num;
  fun = cfg.func_num;
  off = cfg.bar_offset i;
}

-- `BarAddressWidth[BarIndex] & PCI_BAR_64BIT`.
abbrev pub is_64bit : PciMonitorCfg → ℕ → Bool
is_64bit cfg bar_index = cfg.bar_address_width bar_index % 2 == 1

-- The two assignments at the end of `DmInitBarInfo`, unless the address is 0.
unfoldable pub set_bar : PciMonitorCfg → ℕ → ℕ → ℕ → PciMonitorCfg
set_bar cfg bar_index pa size = if pa == 0 then cfg else record cfg {
  bar_address = update cfg.bar_address bar_index pa;
  bar_limit = update cfg.bar_limit bar_index ((pa + size) % 2 ^ 64);
}

-- The call of `Callback2`; `none` is a call of the null pointer.
unfoldable pub combine : Option BarCallback → ℕ → ℕ → Option ℕ
combine none lower upper = none
combine (some f) lower upper = some (make_bar f lower upper)

-- The test that skips a base address register.
unfoldable pub is_bar_error : PciMonitorCfg → ℕ → Bool
is_bar_error cfg j =
    cfg.bar_address j == 0
    || cfg.bar_limit j == 0
    || cfg.bar_address j / 2 ^ 44 % 2 ^ 20 == 0xFFFFF
    || ltb (cfg.bar_limit j) (cfg.bar_address j)

-- The call at the end of a round, `pages` being `InvalidateEptPages` or `ValidateEptPages`.
unfoldable pub visit_bar : (ℕ → ℕ → Ept → Run Bool) → PciMonitorCfg → ℕ → Ept → Run Bool
visit_bar pages cfg j =
    if is_bar_error cfg j
    then pure true
    else pages (cfg.bar_address j) ((cfg.bar_limit j - cfg.bar_address j) % 2 ^ 32)

module _ {S : Type 0} (bus : PciBus S) where
  -- The address: of the register alone, or made from it and the next one.
  unfoldable pub bar_pa : PciMonitorCfg → ℕ → ℕ → S → Option ℕ
  bar_pa cfg offset_index bar_index s =
      let lower = get_device_bar_address bus (location cfg offset_index) s in
      let upper = get_device_bar_address bus (location cfg (offset_index + 1)) s in
      if is_64bit cfg bar_index && ltb (offset_index + 1) max_bar_index
      then combine cfg.callback2 lower upper
      else some lower

  -- `DmInitBarInfo`; `none` if it calls a null pointer.
  unfoldable pub init_bar_info : PciMonitorCfg → ℕ → ℕ → S → Option (PciMonitorCfg × S)
  init_bar_info cfg offset_index bar_index s =
      let (size, s') = get_device_bar_size bus (location cfg offset_index) s in
      if leb max_bar_index offset_index
      then some (cfg, s)
      else (if size == 0 then some (cfg, s') else elim (bar_pa cfg offset_index bar_index s') [
        | none ↦ none
        | some pa ↦ some (set_bar cfg bar_index pa size, s')
      ])

  -- The inner loop: `left` rounds are left. The arrays have six elements, and the code does not check the
  -- index; behind them is a fault here.
  unfoldable pub visit_bars :
      (ℕ → ℕ → Ept → Run Bool) → ℕ → ℕ → ℕ → PciMonitorCfg → S → Ept → Run (PciMonitorCfg × S)
  visit_bars pages zero offset_index bar_index cfg s = pure (cfg, s)
  visit_bars pages (suc left) offset_index bar_index cfg s =
      if leb max_bar_index bar_index
      then (λ ept. fault)
      else elim (init_bar_info cfg offset_index bar_index s) [
        | none ↦ (λ ept. fault)
        | some found ↦ do
          _ ← visit_bar pages found.0 bar_index
          visit_bars pages left
              (if is_64bit found.0 bar_index then offset_index + 2 else offset_index + 1)
              (bar_index + 1) found.0 found.1
      ]

  -- The outer loop.
  unfoldable pub visit_devices :
      (ℕ → ℕ → Ept → Run Bool) → List PciMonitorCfg → S → Ept → Run (List PciMonitorCfg × S)
  visit_devices pages [] s = pure ([], s)
  visit_devices pages (cfg ∷ cfgs) s = do
    found ← visit_bars pages cfg.bar_count 0 0 cfg s
    rest ← visit_devices pages cfgs found.1
    pure (found.0 ∷ rest.0, rest.1)

  unfoldable pub enable_device_monitor : List PciMonitorCfg → S → Ept → Run (List PciMonitorCfg × S)
  enable_device_monitor = visit_devices invalidate_ept_pages

  unfoldable pub disable_device_monitor :
      List PciMonitorCfg → S → Ept → Run (List PciMonitorCfg × S)
  disable_device_monitor = visit_devices validate_ept_pages
