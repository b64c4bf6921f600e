-- ===== src/Vmm/Mmio/Supply.antt =====
-- An EPT violation at an address that is not mapped.
use device_mon.Prelude.{
  ◌+◌, ◌<◌, ℕ, ◌%◌, ◌^◌, ◌≡◌, refl, sym, ◌∙◌, ◌≢◌, inl, inr, arith, true, false, Option, none, some,
  field, Bool-cases, test_of_ne,
}
use device_mon.Ept.Entry.{EptCommonEntry, init_table_entry}
use device_mon.Ept.Tables.{Pointer, Ept, Run, ok, ◌>>=◌, pure, map_gpa_to_hpa}
use device_mon.Ept.Tables.Walk.{page, locate, translation}
use device_mon.Ept.Tables.Inv.{Shape, Inv}
use device_mon.Ept.Tables.Spends.{Refused}
use device_mon.Ept.Tables.Lookup.{Mapped, unmapped, mapped, construct_tables-Mapped}
use device_mon.Monitor.Pages.Trap.{lookup-locate, is_present-translation}
use device_mon.Devices.Callbacks.{is_monitored_device}
use device_mon.Vmm.State.{Vcpu, vm_read}
use device_mon.Vmm.Mmio.{
  Environment, handle_mmio, map_missing, handle_ept_violation, after_mmio, vmm_handle_ept_violation,
}

-- The page of `pa` was given its frame, or no table could be had; all else is as before.
pub data Supplied (s : Ept) (pa : ℕ) {A : Type 0} : Run A → Type 0 where
  supplied :
      {a : A} {s' : Ept} (h' : Shape) (old : EptCommonEntry)
      → Inv s' h'
      → ((pa' : ℕ)
          → page pa' ≡ page pa
          → translation pa' s' ≡ some (init_table_entry s.mtrrs old 1 pa))
      → ((pa' : ℕ) → page pa' ≢ page pa → translation pa' s' ≡ translation pa' s)
      → Supplied s pa (ok a s')
  exhausted :
      {a : A} {s' : Ept} (h' : Shape)
      → Inv s' h'
      → ((pa' : ℕ) → translation pa' s' ≡ translation pa' s)
      → Refused s.pool s'.pool
      → Supplied s pa (ok a s')

Mapped-Supplied :
    {B : Type 0} (s : Ept) (pa : ℕ) (b : B) {r : Run (Option Pointer)}
    → Mapped s pa r
    → Supplied s pa (◌>>=◌ (λ _. r) (λ _. pure b) s)
Mapped-Supplied s pa b (unmapped h' inv same refused few) = exhausted h' inv same refused
Mapped-Supplied s pa b (mapped h' p old inv got at other took few) = supplied h' old inv at other

Supplied-then :
    {A B : Type 0} (s : Ept) (pa : ℕ) (b : B) {r : Run A}
    → Supplied s pa r
    → Supplied s pa (◌>>=◌ (λ _. r) (λ _. pure b) s)
Supplied-then s pa b (supplied h' old inv at other) = supplied h' old inv at other
Supplied-then s pa b (exhausted h' inv same refused) = exhausted h' inv same refused

module _ (s : Ept) (h : Shape) (inv : Inv s h)
    (room : s.preallocated_entries_count + 3 < 2 ^ 31) where
  map_missing-Supplied : (pa : ℕ) → translation pa s ≡ none → Supplied s pa (map_missing pa s)
  unfolding map_missing map_gpa_to_hpa
  map_missing-Supplied pa void =
      let r : Option Pointer = locate 4 s.ept_pml4 pa s.tables in
      elim (is_present-translation s h pa inv r refl) [
        | inl (absent, _) ↦
            rw (lookup-locate s h pa inv, map_missing, ◌>>=◌)
              (rw (absent, ◌>>=◌)
                (Mapped-Supplied s pa true (construct_tables-Mapped true s h pa inv room)))
        | inr (p, e, here, there, is, found) ↦ let clash : none ≡ some e = sym void ∙ is in cc
      ]

  handle_mmio-unmapped :
      (env : Environment) (v : Vcpu)
      → translation (vm_read 0x2400 v) s ≡ none
      → handle_mmio env v s ≡ ok (false, v) s
  unfolding handle_mmio
  handle_mmio-unmapped env v void =
      let pa : ℕ = vm_read 0x2400 v in
      let r : Option Pointer = locate 4 s.ept_pml4 pa s.tables in
      elim (Bool-cases (is_monitored_device env.devices (pa % 2 ^ 32))) [
        | inr elsewhere ↦ rw (elsewhere, handle_mmio) refl
        | inl monitored ↦ elim (is_present-translation s h pa inv r refl) [
          | inl (absent, _) ↦
              rw (monitored, handle_mmio)
                (rw (lookup-locate s h pa inv, ◌>>=◌) (rw (absent, ◌>>=◌) refl))
          | inr (p, e, here, there, is, found) ↦ let clash : none ≡ some e = sym void ∙ is in cc
        ]
      ]

  -- In a well-formed state whose counter of preallocated tables is more than 3 below 2^31, an EPT
  -- violation at an address that is not mapped, for which the processor reports no access right,
  -- leaves a well-formed state, whether the address is monitored or not. The page is translated
  -- to its frame with full access from then on, and every other page as before; or the pool has
  -- just refused a page or is empty, and every page is translated as before. That the address is
  -- the memory of a device is not tested, as in a release build.
  pub vmm_handle_ept_violation-Supplied :
      (env : Environment) (v : Vcpu)
      → translation (vm_read 0x2400 v) s ≡ none
      → field 3 3 (vm_read 0x6400 v) ≡ 0
      → Supplied s (vm_read 0x2400 v) (vmm_handle_ept_violation env v s)
  unfolding vmm_handle_ept_violation after_mmio handle_ept_violation
  vmm_handle_ept_violation-Supplied env v void rights =
      let q : ℕ = vm_read 0x6400 v in
      let r = test_of_ne (field 3 1 q) 1 (omega (arith, rights)) in
      let w = test_of_ne (field 4 1 q) 1 (omega (arith, rights)) in
      let x = test_of_ne (field 5 1 q) 1 (omega (arith, rights)) in
      rw (handle_mmio-unmapped env v void, vmm_handle_ept_violation, ◌>>=◌)
        (rw (r, w, x, after_mmio, handle_ept_violation)
          (Supplied-then s (vm_read 0x2400 v) v (map_missing-Supplied (vm_read 0x2400 v) void)))
