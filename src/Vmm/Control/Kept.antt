-- ===== src/Vmm/Control/Kept.antt =====
-- What an access to a control register leaves for the instruction pointer to be moved by.
use device_mon.Prelude.{ℕ, ◌≡◌, refl, inl, inr, Bool-cases, [], ◌==◌, if◌then◌else◌}
use device_mon.Cpu.Registers.{Gpr, load}
use device_mon.Vmm.State.{Vcpu, vm_read}
use device_mon.Vmm.Control.{Outcome, continues, bug_check, move_to_cr, move_from_cr}

abbrev pub IsKept : Vcpu → Outcome → Type 0
IsKept v (continues told v') = (v'.ip ≡ v.ip) × (vm_read 0x440c v' ≡ vm_read 0x440c v)
IsKept v bug_check = Unit {0}

move_to_cr-IsKept : (vpid cr x : ℕ) (v : Vcpu) → IsKept v (move_to_cr vpid cr x v)
unfolding move_to_cr
move_to_cr-IsKept vpid cr x v = elim (Bool-cases (cr == 0)) [
  | inl cr0 ↦ rw cr0 (refl, refl)
  | inr a ↦ elim (Bool-cases (cr == 3)) [
    | inl cr3 ↦ rw (a, cr3) (refl, refl)
    | inr b ↦ elim (Bool-cases (cr == 4)) [
      | inl cr4 ↦ rw (a, b, cr4) (refl, refl)
      | inr c ↦ elim (Bool-cases (cr == 8)) [
        | inl cr8 ↦ rw (a, b, c, cr8) (refl, refl)
        | inr d ↦ rw (a, b, c, d) tt
      ]
    ]
  ]
]

move_from_cr-IsKept : (cr : ℕ) (r : Gpr) (v : Vcpu) → IsKept v (move_from_cr cr r v)
unfolding move_from_cr
move_from_cr-IsKept cr r v = elim (Bool-cases (cr == 3)) [
  | inl cr3 ↦ rw cr3 (refl, refl)
  | inr a ↦ elim (Bool-cases (cr == 8)) [
    | inl cr8 ↦ rw (a, cr8) (refl, refl)
    | inr b ↦ rw (a, b) tt
  ]
]

-- What `access_cr` moves the instruction pointer of.
abbrev pub accessed : (vpid access_type cr : ℕ) → Gpr → Vcpu → Outcome
accessed vpid access_type cr r v =
    if access_type == 0
    then move_to_cr vpid cr (load r v.gp_regs) v
    else (if access_type == 1 then move_from_cr cr r v else continues [] v)

pub accessed-IsKept :
    (vpid access_type cr : ℕ) (r : Gpr) (v : Vcpu) → IsKept v (accessed vpid access_type cr r v)
accessed-IsKept vpid access_type cr r v = elim (Bool-cases (access_type == 0)) [
  | inl to ↦ rw to (move_to_cr-IsKept vpid cr (load r v.gp_regs) v)
  | inr a ↦ elim (Bool-cases (access_type == 1)) [
    | inl from ↦ rw (a, from) (move_from_cr-IsKept cr r v)
    | inr other ↦ rw (a, other) (refl, refl)
  ]
]
