-- ===== src/Fuzzer/Start.antt =====
-- `StartFuzz` of DeviceMon/Fuzzer.cpp: the register that the instruction writes is looked up, and
-- the widths 1, 2, 4 and 8 each have a case whose assignment is commented out.
use device_mon.Prelude.{ℕ, ◌≡◌, Bool, true, false, none, some, arith, ◌==◌, if◌then◌else◌}
use device_mon.Cpu.Registers.{GpRegisters}
use device_mon.Fuzzer.Registers.{X86Reg, select_register}
use device_mon.Fuzzer.Disassemble.{Disassembler, get_instruction_dest_register}
use device_mon.Fuzzer.Records.{Table, fuzz_record_len, get_reg_index_by_rip}

-- `!RegId`: `X86_REG_INVALID` is 0.
abbrev is_invalid : X86Reg → Bool
is_invalid X86Reg.invalid = true
is_invalid _ = false

-- The cases of the switch on the width; each leaves the register and `ret` alone.
unfoldable pub fuzz_width : ℕ → GpRegisters → Bool × GpRegisters
fuzz_width width regs =
    if width == 1
    then (false, regs)
    else (if width == 2
        then (false, regs)
        else (if width == 4
            then (false, regs)
            else (if width == 8 then (false, regs) else (false, regs))))

-- What follows the lookup of the register.
unfoldable pub fuzz_register : X86Reg → GpRegisters → Bool × GpRegisters
unfolding fuzz_width
fuzz_register reg_id regs =
    if is_invalid reg_id
    then (false, regs)
    else (let (slot, width) = select_register reg_id in
        elim slot [ none ↦ (false, regs) | some g ↦ fuzz_width width regs ])

-- `d` is what the disassembler says of the instruction at `rip`, `pfn` is `UtilPfnFromVa`.
unfoldable pub start_fuzz :
    (ℕ → ℕ) → Disassembler → ℕ → GpRegisters → Table → Bool × GpRegisters × Table
start_fuzz pfn d rip regs t =
    let (reg_id, t') =
      get_reg_index_by_rip fuzz_record_len pfn (get_instruction_dest_register d).0 rip t in
    let (ret, regs') = fuzz_register reg_id regs in (ret, regs', t')

fuzz_register-inert :
    (reg_id : X86Reg) (regs : GpRegisters) → fuzz_register reg_id regs ≡ (false, regs)
unfolding fuzz_register
fuzz_register-inert reg_id regs = ground arith

-- Whatever instruction is looked up, `StartFuzz` does not ask for it to be skipped and changes no
-- register; it only updates the table.
pub start_fuzz-inert :
    (pfn : ℕ → ℕ) (d : Disassembler) (rip : ℕ) (regs : GpRegisters) (t : Table)
    → start_fuzz pfn d rip regs t ≡ (
      false,
      regs,
      (get_reg_index_by_rip fuzz_record_len pfn (get_instruction_dest_register d).0 rip t).1,
    )
unfolding start_fuzz
start_fuzz-inert pfn d rip regs t = rw fuzz_register-inert
