-- ===== src/Fuzzer/Registers.antt =====
-- The registers that capstone reports, and the two switches over them (DeviceMon/Fuzzer.cpp).
pub mod Slots
use device_mon.Prelude.{ℕ, Option, none, some}
use device_mon.Cpu.Registers.{Gpr}

-- The values of `x86_reg` (DeviceMon/include/capstone/x86.h) that the switches name; `other` is
-- any further one, and `invalid` is `X86_REG_INVALID`, which is 0.
pub data X86Reg : Type 0 where
  invalid : X86Reg
  ah al bh bl ch cl dh dl spl bpl sil dil : X86Reg
  r8b r9b r10b r11b r12b r13b r14b r15b : X86Reg
  ax bx cx dx sp bp si di r8w r9w r10w r11w : X86Reg
  r12w r13w r14w r15w : X86Reg
  eax ebx ecx edx esi edi esp ebp r8d r9d r10d r11d : X86Reg
  r12d r13d r14d r15d : X86Reg
  rax rbx rcx rdx rsi rsp rbp rdi r8 r9 r10 r11 : X86Reg
  r12 r13 r14 r15 : X86Reg
  other : ℕ → X86Reg

-- `AccessWidth`: the size of a register in bytes, 0 for a register that the switch does not name.
unfoldable pub access_width : X86Reg → ℕ
access_width ah = 1
access_width al = 1
access_width bh = 1
access_width bl = 1
access_width ch = 1
access_width cl = 1
access_width dh = 1
access_width dl = 1
access_width spl = 1
access_width bpl = 1
access_width sil = 1
access_width dil = 1
access_width r8b = 1
access_width r9b = 1
access_width r10b = 1
access_width r11b = 1
access_width r12b = 1
access_width r13b = 1
access_width r14b = 1
access_width r15b = 1
access_width ax = 2
access_width bx = 2
access_width cx = 2
access_width dx = 2
access_width sp = 2
access_width bp = 2
access_width si = 2
access_width di = 2
access_width r8w = 2
access_width r9w = 2
access_width r10w = 2
access_width r11w = 2
access_width r12w = 2
access_width r13w = 2
access_width r14w = 2
access_width r15w = 2
access_width eax = 4
access_width ebx = 4
access_width ecx = 4
access_width edx = 4
access_width esi = 4
access_width edi = 4
access_width esp = 4
access_width ebp = 4
access_width r8d = 4
access_width r9d = 4
access_width r10d = 4
access_width r11d = 4
access_width r12d = 4
access_width r13d = 4
access_width r14d = 4
access_width r15d = 4
access_width rax = 8
access_width rbx = 8
access_width rcx = 8
access_width rdx = 8
access_width rsi = 8
access_width rsp = 8
access_width rbp = 8
access_width rdi = 8
access_width r8 = 8
access_width r9 = 8
access_width r10 = 8
access_width r11 = 8
access_width r12 = 8
access_width r13 = 8
access_width r14 = 8
access_width r15 = 8
access_width invalid = 0
access_width (other n) = 0

-- The switch of `SelectRegister`: the field of the saved registers, `none` for `nullptr`.
unfoldable pub register_slot : X86Reg → Option Gpr
register_slot ah = some Gpr.ax
register_slot al = some Gpr.ax
register_slot ax = some Gpr.ax
register_slot eax = some Gpr.ax
register_slot rax = some Gpr.ax
register_slot bh = some Gpr.bx
register_slot bl = some Gpr.bx
register_slot bx = some Gpr.bx
register_slot ebx = some Gpr.bx
register_slot rbx = some Gpr.bx
register_slot ch = some Gpr.cx
register_slot cl = some Gpr.cx
register_slot cx = some Gpr.cx
register_slot ecx = some Gpr.cx
register_slot rcx = some Gpr.cx
register_slot dh = some Gpr.dx
register_slot dl = some Gpr.dx
register_slot dx = some Gpr.dx
register_slot edx = some Gpr.dx
register_slot rdx = some Gpr.dx
register_slot sil = some Gpr.si
register_slot si = some Gpr.si
register_slot esi = some Gpr.si
register_slot rsi = some Gpr.si
register_slot dil = some Gpr.di
register_slot di = some Gpr.di
register_slot edi = some Gpr.di
register_slot rdi = some Gpr.di
register_slot r8b = some Gpr.r8
register_slot r8w = some Gpr.r8
register_slot r8d = some Gpr.r8
register_slot r8 = some Gpr.r8
register_slot r9b = some Gpr.r9
register_slot r9w = some Gpr.r9
register_slot r9d = some Gpr.r9
register_slot r9 = some Gpr.r9
register_slot r10b = some Gpr.r10
register_slot r10w = some Gpr.r10
register_slot r10d = some Gpr.r10
register_slot r10 = some Gpr.r10
register_slot r11b = some Gpr.r11
register_slot r11w = some Gpr.r11
register_slot r11d = some Gpr.r11
register_slot r11 = some Gpr.r11
register_slot r12b = some Gpr.r12
register_slot r12w = some Gpr.r12
register_slot r12d = some Gpr.r12
register_slot r12 = some Gpr.r12
register_slot r13b = some Gpr.r13
register_slot r13w = some Gpr.r13
register_slot r13d = some Gpr.r13
register_slot r13 = some Gpr.r13
register_slot r14b = some Gpr.r14
register_slot r14w = some Gpr.r14
register_slot r14d = some Gpr.r14
register_slot r14 = some Gpr.r14
register_slot r15b = some Gpr.r15
register_slot r15w = some Gpr.r15
register_slot r15d = some Gpr.r15
register_slot r15 = some Gpr.r15
register_slot bp = some Gpr.bp
register_slot ebp = some Gpr.bp
register_slot rbp = some Gpr.bp
register_slot sp = some Gpr.sp
register_slot esp = some Gpr.sp
register_slot rsp = some Gpr.sp
register_slot spl = none
register_slot bpl = none
register_slot invalid = none
register_slot (other n) = none

-- `SelectRegister` returns the pointer, and the width through its last argument.
unfoldable pub select_register : X86Reg → Option Gpr × ℕ
unfolding access_width register_slot
select_register reg_id = (register_slot reg_id, access_width reg_id)
