-- ===== src/Vmm/Exits/Reinject.antt =====
-- Exceptions of the guest.
use device_mon.Prelude.{
  ℕ, ◌%◌, ◌^◌, ◌≡◌, ◌≢◌, ◌⊎◌, inl, inr, refl, arith, Option, none, some, ◌==◌, field, Bool-cases,
  eq_of_test, ne_of_test,
}
use device_mon.Vmm.State.{Vcpu, vm_read}
use device_mon.Vmm.Inject.{inject_interruption}
use device_mon.Vmm.Exits.{Outcome, continues, bug_check, handle_exception}

-- The three exceptions that the VMM expects: #PF and #GP of the processor, and #BP.
abbrev pub type_of : Vcpu → ℕ
type_of v = field 8 3 (vm_read 0x4404 v)

abbrev pub vector_of : Vcpu → ℕ
vector_of v = field 0 8 (vm_read 0x4404 v)

abbrev pub IsExpected : Vcpu → Type 0
IsExpected v =
    ((type_of v ≡ 3) × ((vector_of v ≡ 14) ⊎ (vector_of v ≡ 13)))
    ⊎ ((type_of v ≡ 6) × (vector_of v ≡ 3))

-- The guest gets the exception that it raised, with its error code.
pub record IsReinjected (v : Vcpu) (cr2 : Option ℕ) (v' : Vcpu) : Type 0 where
  pub type : field 8 3 (vm_read 0x4016 v') ≡ type_of v
  pub vector : field 0 8 (vm_read 0x4016 v') ≡ vector_of v
  pub valid : field 31 1 (vm_read 0x4016 v') ≡ 1
  pub code : type_of v ≡ 3 → vm_read 0x4018 v' ≡ vm_read 0x4406 v % 2 ^ 32
  pub fault_address : vector_of v ≡ 14 → cr2 ≡ some (vm_read 0x6400 v)
  pub no_address : vector_of v ≢ 14 → cr2 ≡ none
  pub with_code : type_of v ≡ 3 → field 11 1 (vm_read 0x4016 v') ≡ 1
  pub without_code : type_of v ≡ 6 → field 11 1 (vm_read 0x4016 v') ≡ 0
  pub same_length : type_of v ≡ 6 → vm_read 0x401a v' ≡ vm_read 0x440c v
  pub same_ip : vm_read 0x681e v' ≡ vm_read 0x681e v

pub data Answered (v : Vcpu) : Outcome → Type 0 where
  reinjected :
      {cr2 : Option ℕ} {v' : Vcpu}
      → IsExpected v
      → IsReinjected v cr2 v'
      → Answered v (continues cr2 v')
  stopped : ¬ IsExpected v → Answered v bug_check

-- #PF, #GP and #BP of the guest are given back to it with their vector and type. For #PF and #GP
-- an error code is delivered, which is that of the exit; for #BP none is, and the length of the
-- instruction is that of the exit. The address of a #PF goes to CR2, and the instruction pointer
-- stays. Any other exception, and only such a one, stops the system.
pub handle_exception-Answered : (v : Vcpu) → Answered v (handle_exception v)
unfolding handle_exception inject_interruption
handle_exception-Answered v = elim (Bool-cases (type_of v == 3)) [
  | inl hardware ↦ elim (Bool-cases (vector_of v == 14)) [
    | inl page_fault ↦
        rw (hardware, page_fault, handle_exception)
          (reinjected (ground arith) (record {
            type = omega arith;
            vector = omega arith;
            valid = omega arith;
            code = λ t. refl;
            fault_address = λ e. refl;
            no_address = λ ne. absurd (ne (eq_of_test _ 14 page_fault));
            with_code = λ t. omega arith;
            without_code = λ t. absurd (ground arith);
            same_length = λ t. absurd (ground arith);
            same_ip = refl;
          }))
    | inr more ↦ elim (Bool-cases (vector_of v == 13)) [
      | inl protection ↦
          rw (hardware, more, protection, handle_exception)
            (reinjected (ground arith) (record {
              type = omega arith;
              vector = omega arith;
              valid = omega arith;
              code = λ t. refl;
              fault_address = λ e. absurd (ne_of_test _ 14 more e);
              no_address = λ ne. refl;
              with_code = λ t. omega arith;
              without_code = λ t. absurd (ground arith);
              same_length = λ t. absurd (ground arith);
              same_ip = refl;
            }))
      | inr other ↦ rw (hardware, more, other, handle_exception) (stopped (λ e. ground arith))
    ]
  ]
  | inr more ↦ elim (Bool-cases (type_of v == 6)) [
    | inl software ↦ elim (Bool-cases (vector_of v == 3)) [
      | inl breakpoint ↦
          rw (more, software, breakpoint, handle_exception)
            (reinjected (ground arith) (record {
              type = omega arith;
              vector = omega arith;
              valid = omega arith;
              code = λ t. absurd (ne_of_test _ 3 more t);
              fault_address = λ e. absurd (ground arith);
              no_address = λ ne. refl;
              with_code = λ t. absurd (ne_of_test _ 3 more t);
              without_code = λ t. omega arith;
              same_length = λ t. refl;
              same_ip = refl;
            }))
      | inr other ↦ rw (more, software, other, handle_exception) (stopped (λ e. ground arith))
    ]
    | inr other ↦ rw (more, other, handle_exception) (stopped (λ e. ground arith))
  ]
]
