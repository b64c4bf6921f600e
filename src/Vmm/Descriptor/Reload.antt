-- ===== src/Vmm/Descriptor/Reload.antt =====
-- A descriptor table register stored and loaded back (`VmmpHandleGdtrOrIdtrAccess` of
-- DeviceMon/vmm.cpp).
use device_mon.Prelude.{
  ℕ, ◌+◌, ◌%◌, ◌^◌, ◌<◌, ◌≡◌, refl, ◌∙◌, inr, arith, true, Bytes, load_bytes, store_bytes,
  load_bytes-store_bytes, load_bytes-store_other, last_bytes-2, last_bytes-8,
}
use device_mon.Vmm.State.{Vcpu, vm_read}
use device_mon.Vmm.Descriptor.{code_is_64bit, store_table, access_table}

module _ (address base limit : ℕ) (m : Bytes) where
  store_table-limit : load_bytes 2 address (store_table true address base limit m) ≡ limit % 2 ^ 16
  unfolding store_table
  store_table-limit =
      load_bytes-store_bytes 2 address limit (store_bytes 8 (address + 2) base m)
      ∙ last_bytes-2 limit

  store_table-base :
      load_bytes 8 (address + 2) (store_table true address base limit m) ≡ base % 2 ^ 64
  unfolding store_table
  store_table-base =
      load_bytes-store_other 8 address 2 (address + 2) limit (store_bytes 8 (address + 2) base m)
        (inr (omega arith))
      ∙ load_bytes-store_bytes 8 (address + 2) base m
      ∙ last_bytes-8 base

-- LGDT after SGDT, and LIDT after SIDT, at the same address and from 64-bit code, with bases of
-- 64 bits: the base is what it was, the limit is what its low 16 bits were, and the memory is as
-- the store left it.
pub access_table-access_table :
    (address : ℕ) (v : Vcpu) (m : Bytes)
    → code_is_64bit v m ≡ true
    → vm_read 0x6816 v < 2 ^ 64
    → vm_read 0x6818 v < 2 ^ 64
    → (let stored = access_table 0 address v m in
        let loaded = access_table 2 address stored.0 stored.1 in
        (vm_read 0x6816 loaded.0 ≡ vm_read 0x6816 v)
        × (vm_read 0x4810 loaded.0 ≡ vm_read 0x4810 v % 2 ^ 16)
        × (loaded.1 ≡ stored.1))
      × (let stored = access_table 1 address v m in
          let loaded = access_table 3 address stored.0 stored.1 in
          (vm_read 0x6818 loaded.0 ≡ vm_read 0x6818 v)
          × (vm_read 0x4812 loaded.0 ≡ vm_read 0x4812 v % 2 ^ 16)
          × (loaded.1 ≡ stored.1))
unfolding access_table
access_table-access_table address v m wide small small' = rw wide (
  (
    store_table-base address (vm_read 0x6816 v) (vm_read 0x4810 v % 2 ^ 16) m ∙ omega arith,
    store_table-limit address (vm_read 0x6816 v) (vm_read 0x4810 v % 2 ^ 16) m ∙ omega arith,
    refl,
  ),
  (
    store_table-base address (vm_read 0x6818 v) (vm_read 0x4812 v % 2 ^ 16) m ∙ omega arith,
    store_table-limit address (vm_read 0x6818 v) (vm_read 0x4812 v % 2 ^ 16) m ∙ omega arith,
    refl,
  ),
)
