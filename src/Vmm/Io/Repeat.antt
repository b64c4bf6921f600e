-- ===== src/Vmm/Io/Repeat.antt =====
-- A repeated string instruction as the repetition of one unit, the way the processor's manual
-- describes the REP prefix.
use device_mon.Prelude.{
  ℕ, zero, suc, ◌+◌, ◌*◌, ◌%◌, ◌^◌, ◌<◌, ◌≡◌, refl, sym, ◌∙◌, inl, inr, Bool-cases, Bool, true,
  false, arith, ◌==◌, field,
}
use native.Mathlib.Nat.{suc-mul}
use device_mon.Cpu.Registers.{GpRegisters}
use device_mon.Vmm.State.{Vcpu, with_regs}
use device_mon.Vmm.Io.{Ports, io_string, update_string_registers, handle_string}

-- The string intrinsics handle the units one after the other, upwards in memory: VM exits clear DF.
pub record IsUnitwise {M : Type 0} (ports : Ports M) : Type 0 where
  pub in_none : (width port address : ℕ) (m : M) → ports.in_string width port address 0 m ≡ m
  pub in_more :
      (width port address n : ℕ) (m : M)
      → ports.in_string width port address (suc n) m
        ≡ ports.in_string width port
            ((address + width) % 2 ^ 64)
            n
            (ports.in_string width port address 1 m)
  pub out_none : (width port address : ℕ) (m : M) → ports.out_string width port address 0 m ≡ m
  pub out_more :
      (width port address n : ℕ) (m : M)
      → ports.out_string width port address (suc n) m
        ≡ ports.out_string width port
            ((address + width) % 2 ^ 64)
            n
            (ports.out_string width port address 1 m)

-- RDI or RSI, whichever the direction uses.
abbrev pub set_pointer : Bool → ℕ → GpRegisters → GpRegisters
set_pointer true x g = record g { di = x }
set_pointer false x g = record g { si = x }

abbrev pub pointer : Bool → GpRegisters → ℕ
pointer true g = g.di
pointer false g = g.si

-- `n` units with DF clear: each transfers one unit and moves the pointer past it.
unfoldable pub units :
    {M : Type 0} → Ports M → (is_in : Bool) → (width port n : ℕ) → GpRegisters → M → GpRegisters × M
unfolding io_string
units ports is_in width port zero g m = (g, m)
units ports is_in width port (suc n) g m =
    units ports is_in width port n (set_pointer is_in ((pointer is_in g + width) % 2 ^ 64) g)
      (io_string ports is_in width port (pointer is_in g) 1 m)

module _ {M : Type 0} (ports : Ports M) (law : IsUnitwise ports) where
  io_string-none :
      (is_in : Bool) (width port address : ℕ) (m : M)
      → io_string ports is_in width port address 0 m ≡ m
  unfolding io_string
  io_string-none true width port address m = ground (arith, law.in_none width port address m)
  io_string-none false width port address m = ground (arith, law.out_none width port address m)

  io_string-more :
      (is_in : Bool) (width port address n : ℕ) (m : M)
      → io_string ports is_in width port
          ((address + width) % 2 ^ 64)
          n
          (io_string ports is_in width port address 1 m)
        ≡ io_string ports is_in width port address (suc n) m
  unfolding io_string
  io_string-more true width port address n m = elim (Bool-cases (width == 0)) [
    | inl none ↦ rw none refl
    | inr some ↦ rw some (sym (law.in_more width port address n m))
  ]
  io_string-more false width port address n m = elim (Bool-cases (width == 0)) [
    | inl none ↦ rw none refl
    | inr some ↦ rw some (sym (law.out_more width port address n m))
  ]

  wrap : (p w n : ℕ) → ((p + w) % 2 ^ 64 + n) % 2 ^ 64 ≡ (p + (w + n)) % 2 ^ 64
  wrap p w n = omega arith

  wrap_units : (p w n : ℕ) → ((p + w) % 2 ^ 64 + n * w) % 2 ^ 64 ≡ (p + suc n * w) % 2 ^ 64
  wrap_units p w n = omega (arith, suc-mul n w)

  units-closed :
      (is_in : Bool) (width port n : ℕ) (g : GpRegisters) (m : M)
      → pointer is_in g < 2 ^ 64
      → units ports is_in width port n g m ≡ (
        set_pointer is_in ((pointer is_in g + n * width) % 2 ^ 64) g,
        io_string ports is_in width port (pointer is_in g) n m,
      )
  unfolding units
  units-closed true width port zero g m small =
      let same : (g.di + 0 * width) % 2 ^ 64 ≡ g.di = omega arith in
      rw (same, io_string-none true width port g.di m) refl
  units-closed false width port zero g m small =
      let same : (g.si + 0 * width) % 2 ^ 64 ≡ g.si = omega arith in
      rw (same, io_string-none false width port g.si m) refl
  units-closed true width port (suc n) g m small =
      units-closed true width port n (record g { di = (g.di + width) % 2 ^ 64 })
        (io_string ports true width port g.di 1 m) (omega arith)
      ∙ rw (wrap_units g.di width n, io_string-more true width port g.di n m) refl
  units-closed false width port (suc n) g m small =
      units-closed false width port n (record g { si = (g.si + width) % 2 ^ 64 })
        (io_string ports false width port g.si 1 m) (omega arith)
      ∙ rw (wrap_units g.si width n, io_string-more false width port g.si n m) refl

  -- If the string intrinsics handle the units one after the other upwards in memory, then REP INS
  -- and REP OUTS with DF clear, fewer than 2^32 repetitions and a pointer of 64 bits transfer the
  -- same and move the pointer the same as that many transfers of one unit do one after the other,
  -- and leave RCX zero.
  pub handle_string-units :
      (is_in : Bool) (width port : ℕ) (v : Vcpu) (m : M)
      → field 10 1 v.flag_reg ≡ 0
      → v.gp_regs.cx < 2 ^ 32
      → pointer is_in v.gp_regs < 2 ^ 64
      → handle_string ports is_in true width port v m ≡ (
          let done = units ports is_in width port v.gp_regs.cx v.gp_regs m in
          (with_regs (record done.0 { cx = 0 }) v, done.1))
  unfolding handle_string update_string_registers
  handle_string-units true width port v m up short small =
      let count : v.gp_regs.cx % 2 ^ 32 ≡ v.gp_regs.cx = omega arith in
      rw (units-closed true width port v.gp_regs.cx v.gp_regs m small, up, count) refl
  handle_string-units false width port v m up short small =
      let count : v.gp_regs.cx % 2 ^ 32 ≡ v.gp_regs.cx = omega arith in
      rw (units-closed false width port v.gp_regs.cx v.gp_regs m small, up, count) refl
