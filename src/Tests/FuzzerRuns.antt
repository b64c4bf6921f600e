-- ===== src/Tests/FuzzerRuns.antt =====
-- A table of records with seven slots.
use device_mon.Prelude.{ℕ, ◌/◌, ◌≡◌, refl, ◌↔◌, true, some, [], ◌∷◌, arith, ◌==◌, if◌then◌else◌}
use device_mon.Cpu.Registers.{GpRegisters, Gpr}
use device_mon.Fuzzer.Registers.{X86Reg, select_register}
use device_mon.Fuzzer.Registers.Slots.{Wide, named, select_register-named}
use device_mon.Fuzzer.Disassemble.{Disassembler}
use device_mon.Fuzzer.Records.{Table, entry, get_reg_index_by_rip}
use device_mon.Fuzzer.Records.Cached.{get_reg_index_by_rip-twice, get_reg_index_by_rip-keeps}

-- The slot 3 is taken by an instruction of the page 3.
abbrev pub one_taken : Table
one_taken i = if i == 3 then entry 0x3010 X86Reg.ecx else entry 0 X86Reg.invalid

abbrev pub pfn : ℕ → ℕ
pfn rip = rip / 4096

abbrev pub moves_eax : Disassembler
moves_eax = record {
  save_ok = true;
  open_ok = true;
  disasm_ok = true;
  regs_write = some (X86Reg.other 25 ∷ X86Reg.eax ∷ []);
}

abbrev pub zeros : GpRegisters
zeros = record {
  r15 = 0;
  r14 = 0;
  r13 = 0;
  r12 = 0;
  r11 = 0;
  r10 = 0;
  r9 = 0;
  r8 = 0;
  di = 0;
  si = 0;
  bp = 0;
  sp = 0;
  bx = 0;
  dx = 0;
  cx = 0;
  ax = 0;
}

get_reg_index_by_rip-twice_example :
    let (d, t') = get_reg_index_by_rip 7 pfn X86Reg.eax 0x3014 one_taken in
    get_reg_index_by_rip 7 pfn X86Reg.rdx 0x3014 t' ≡ (d, t')
get_reg_index_by_rip-twice_example =
    get_reg_index_by_rip-twice 7 pfn X86Reg.eax X86Reg.rdx 0x3014 one_taken (omega arith)
      (omega arith)

get_reg_index_by_rip-keeps_example :
    (get_reg_index_by_rip 7 pfn X86Reg.eax 0x3014 one_taken).1 3 ≡ entry 0x3010 X86Reg.ecx
get_reg_index_by_rip-keeps_example =
    get_reg_index_by_rip-keeps 7 pfn X86Reg.eax 0x3014 one_taken 5 3 (omega arith) refl refl

select_register-named_example :
    (select_register X86Reg.r9d ≡ (some Gpr.r9, 4)) ↔ (X86Reg.r9d ≡ named Gpr.r9 Wide.dword)
select_register-named_example = select_register-named X86Reg.r9d Gpr.r9 Wide.dword
