-- ===== src/Fuzzer/Disassemble.antt =====
-- `GetInstructionDestRegister` of DeviceMon/Fuzzer.cpp. Capstone and the kernel's floating point
-- routines are not in the repository; their answers are the fields of `Disassembler`.
use device_mon.Prelude.{Bool, Option, none, some, List, [], ◌∷◌, if◌then◌else◌}
use device_mon.Fuzzer.Registers.{X86Reg, select_register}

-- What the function takes and gives back.
pub data Resource : Type 0 where
  float_state handle instructions : Resource

pub data Event : Type 0 where
  acquire release : Resource → Event

-- The answers of `KeSaveFloatingPointState`, `cs_open`, `cs_disasm` (whether the count is not 0)
-- and `cs_regs_access` (`none` for an error, else `regs_write`) for one instruction.
pub record Disassembler : Type 0 where
  pub save_ok : Bool
  pub open_ok : Bool
  pub disasm_ok : Bool
  pub regs_write : Option (List X86Reg)

-- The loop over `regs_write`: the first register that `SelectRegister` knows.
unfoldable pub first_known : List X86Reg → X86Reg
unfolding select_register
first_known [] = X86Reg.invalid
first_known (r ∷ rs) = elim (select_register r).0 [ none ↦ first_known rs | some slot ↦ r ]

abbrev close : List Event
close = release handle ∷ release float_state ∷ []

-- The register, and the trace of what was taken and given back.
unfoldable pub get_instruction_dest_register : Disassembler → X86Reg × List Event
unfolding first_known
get_instruction_dest_register d =
    if d.save_ok
    then (if d.open_ok
        then (if d.disasm_ok
            then elim d.regs_write [
              | none ↦ (
                X86Reg.invalid,
                acquire float_state
                    ∷ acquire handle
                    ∷ acquire instructions
                    ∷ release instructions
                    ∷ close,
              )
              | some written ↦ elim written [
                | [] ↦ (
                  X86Reg.invalid,
                  acquire float_state
                      ∷ acquire handle
                      ∷ acquire instructions
                      ∷ release instructions
                      ∷ close,
                )
                | r ∷ rs ↦ (
                  first_known (r ∷ rs),
                  acquire float_state
                      ∷ acquire handle
                      ∷ acquire instructions
                      ∷ release instructions
                      ∷ close,
                )
              ]
            ]
            else (X86Reg.invalid, acquire float_state ∷ acquire handle ∷ close))
        else (X86Reg.invalid, acquire float_state ∷ release float_state ∷ []))
    else (X86Reg.invalid, [])
