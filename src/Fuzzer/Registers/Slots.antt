-- ===== src/Fuzzer/Registers/Slots.antt =====
-- How the two switches agree.
use device_mon.Prelude.{◌≡◌, refl, ap, ◌↔◌, ◌⊎◌, Bool, true, false, none, some, arith, ℕ}
use device_mon.Cpu.Registers.{Gpr}
use device_mon.Fuzzer.Registers.{X86Reg, select_register}

-- The byte registers of the stack and base pointers.
abbrev pub is_pointer_byte : X86Reg → Bool
is_pointer_byte X86Reg.spl = true
is_pointer_byte X86Reg.bpl = true
is_pointer_byte _ = false

-- `SelectRegister` gives no pointer exactly for the registers of width 0 and for SPL and BPL, which
-- have a width.
select_register-none :
    (r : X86Reg)
    → ((select_register r).0 ≡ none) ↔ (((select_register r).1 ≡ 0) ⊎ (is_pointer_byte r ≡ true))
unfolding select_register
select_register-none X86Reg.invalid = ground arith
select_register-none _ = ground arith

-- The words, double words and quad words by the field that they live in.
pub data Wide : Type 0 where
  word dword qword : Wide

abbrev pub bytes : Wide → ℕ
bytes word = 2
bytes dword = 4
bytes qword = 8

abbrev pub named : Gpr → Wide → X86Reg
named Gpr.ax word = X86Reg.ax
named Gpr.ax dword = X86Reg.eax
named Gpr.ax qword = X86Reg.rax
named Gpr.cx word = X86Reg.cx
named Gpr.cx dword = X86Reg.ecx
named Gpr.cx qword = X86Reg.rcx
named Gpr.dx word = X86Reg.dx
named Gpr.dx dword = X86Reg.edx
named Gpr.dx qword = X86Reg.rdx
named Gpr.bx word = X86Reg.bx
named Gpr.bx dword = X86Reg.ebx
named Gpr.bx qword = X86Reg.rbx
named Gpr.sp word = X86Reg.sp
named Gpr.sp dword = X86Reg.esp
named Gpr.sp qword = X86Reg.rsp
named Gpr.bp word = X86Reg.bp
named Gpr.bp dword = X86Reg.ebp
named Gpr.bp qword = X86Reg.rbp
named Gpr.si word = X86Reg.si
named Gpr.si dword = X86Reg.esi
named Gpr.si qword = X86Reg.rsi
named Gpr.di word = X86Reg.di
named Gpr.di dword = X86Reg.edi
named Gpr.di qword = X86Reg.rdi
named Gpr.r8 word = X86Reg.r8w
named Gpr.r8 dword = X86Reg.r8d
named Gpr.r8 qword = X86Reg.r8
named Gpr.r9 word = X86Reg.r9w
named Gpr.r9 dword = X86Reg.r9d
named Gpr.r9 qword = X86Reg.r9
named Gpr.r10 word = X86Reg.r10w
named Gpr.r10 dword = X86Reg.r10d
named Gpr.r10 qword = X86Reg.r10
named Gpr.r11 word = X86Reg.r11w
named Gpr.r11 dword = X86Reg.r11d
named Gpr.r11 qword = X86Reg.r11
named Gpr.r12 word = X86Reg.r12w
named Gpr.r12 dword = X86Reg.r12d
named Gpr.r12 qword = X86Reg.r12
named Gpr.r13 word = X86Reg.r13w
named Gpr.r13 dword = X86Reg.r13d
named Gpr.r13 qword = X86Reg.r13
named Gpr.r14 word = X86Reg.r14w
named Gpr.r14 dword = X86Reg.r14d
named Gpr.r14 qword = X86Reg.r14
named Gpr.r15 word = X86Reg.r15w
named Gpr.r15 dword = X86Reg.r15d
named Gpr.r15 qword = X86Reg.r15

select_register_of_named : (g : Gpr) (w : Wide) → select_register (named g w) ≡ (some g, bytes w)
unfolding select_register
select_register_of_named Gpr.ax word = refl
select_register_of_named Gpr.ax dword = refl
select_register_of_named Gpr.ax qword = refl
select_register_of_named _ word = refl
select_register_of_named _ dword = refl
select_register_of_named _ qword = refl

named_of_select_register :
    (r : X86Reg) (g : Gpr) (w : Wide)
    → (select_register r).0 ≡ some g
    → (select_register r).1 ≡ bytes w
    → r ≡ named g w
unfolding select_register
named_of_select_register X86Reg.invalid g w slot width = ground arith
named_of_select_register _ g word slot width = ground arith
named_of_select_register _ g dword slot width = ground arith
named_of_select_register _ g qword slot width = ground arith

-- Every field is selected at each of these widths, 2, 4 and 8 bytes, by the register of that name, and by no other.
pub select_register-named :
    (r : X86Reg) (g : Gpr) (w : Wide) → (select_register r ≡ (some g, bytes w)) ↔ (r ≡ named g w)
select_register-named r g w = (
  λ e. named_of_select_register r g w (ap (λ p. p.0) e) (ap (λ p. p.1) e),
  λ e. rw e (select_register_of_named g w),
)
