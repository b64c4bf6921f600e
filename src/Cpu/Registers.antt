-- ===== src/Cpu/Registers.antt =====
-- The general purpose registers of the guest, saved on the stack of the VMM (`GpRegistersX64` of
-- DeviceMon/ia32_type.h). A pointer to a field of the structure is the name of the field.
use device_mon.Prelude.{ℕ, ◌≡◌, refl}

pub record GpRegisters : Type 0 where
  pub r15 : ℕ
  pub r14 : ℕ
  pub r13 : ℕ
  pub r12 : ℕ
  pub r11 : ℕ
  pub r10 : ℕ
  pub r9 : ℕ
  pub r8 : ℕ
  pub di : ℕ
  pub si : ℕ
  pub bp : ℕ
  pub sp : ℕ
  pub bx : ℕ
  pub dx : ℕ
  pub cx : ℕ
  pub ax : ℕ

pub data Gpr : Type 0 where
  ax cx dx bx sp bp si di r8 r9 r10 r11 r12 r13 r14 r15 : Gpr

unfoldable pub load : Gpr → GpRegisters → ℕ
load ax g = g.ax
load cx g = g.cx
load dx g = g.dx
load bx g = g.bx
load sp g = g.sp
load bp g = g.bp
load si g = g.si
load di g = g.di
load r8 g = g.r8
load r9 g = g.r9
load r10 g = g.r10
load r11 g = g.r11
load r12 g = g.r12
load r13 g = g.r13
load r14 g = g.r14
load r15 g = g.r15

unfoldable pub store : Gpr → ℕ → GpRegisters → GpRegisters
store ax v g = record g { ax = v }
store cx v g = record g { cx = v }
store dx v g = record g { dx = v }
store bx v g = record g { bx = v }
store sp v g = record g { sp = v }
store bp v g = record g { bp = v }
store si v g = record g { si = v }
store di v g = record g { di = v }
store r8 v g = record g { r8 = v }
store r9 v g = record g { r9 = v }
store r10 v g = record g { r10 = v }
store r11 v g = record g { r11 = v }
store r12 v g = record g { r12 = v }
store r13 v g = record g { r13 = v }
store r14 v g = record g { r14 = v }
store r15 v g = record g { r15 = v }

pub load-store : (r : Gpr) (v : ℕ) (g : GpRegisters) → load r (store r v g) ≡ v
unfolding load store
load-store ax v g = refl
load-store _ v g = refl
