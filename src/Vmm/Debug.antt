-- ===== src/Vmm/Debug.antt =====
-- `VmmpHandleDrAccess` and `VmmpSelectRegister` of DeviceMon/vmm.cpp: MOV to and from the debug
-- registers.
pub mod Access
use device_mon.Prelude.{
  ℕ, ◌+◌, ◌*◌, ◌/◌, ◌%◌, ◌^◌, Bool, true, false, ◌&&◌, ◌||◌, not, Option, none, some, ◌==◌, ltb,
  if◌then◌else◌, update, field, set_field,
}
use device_mon.Cpu.Registers.{Gpr, load, store}
use device_mon.Vmm.State.{Vcpu, vm_read, vm_write, with_regs}
use device_mon.Vmm.Inject.{
  inject_db, inject_ud, inject_gp, get_guest_cpl, adjust_guest_instruction_pointer,
}

-- The switch of `VmmpSelectRegister`. The index has four bits, so its default is not met.
unfoldable pub select_gpr : ℕ → Gpr
select_gpr index =
    if index == 0
    then Gpr.ax
    else (if index == 1
        then Gpr.cx
        else (if index == 2
            then Gpr.dx
            else (if index == 3
                then Gpr.bx
                else (if index == 4
                    then Gpr.sp
                    else (if index == 5
                        then Gpr.bp
                        else (if index == 6
                            then Gpr.si
                            else (if index == 7
                                then Gpr.di
                                else (if index == 8
                                    then Gpr.r8
                                    else (if index == 9
                                        then Gpr.r9
                                        else (if index == 10
                                            then Gpr.r10
                                            else (if index == 11
                                                then Gpr.r11
                                                else (if index == 12
                                                    then Gpr.r12
                                                    else (if index == 13
                                                        then Gpr.r13
                                                        else (if index == 14
                                                            then Gpr.r14
                                                            else Gpr.r15))))))))))))))

-- The values that the registers 6 and 7 take: bits 4 to 11 and 17 to 31 of DR6 and bit 10 of DR7 are
-- ones, bit 12 of both and bits 14 and 15 of DR7 are zeros.
unfoldable pub dr6_value : ℕ → ℕ
dr6_value x = set_field 4 8 0xFF (set_field 12 1 0 (set_field 17 15 0x7FFF x))

unfoldable pub dr7_value : ℕ → ℕ
dr7_value x = set_field 10 1 1 (set_field 12 1 0 (set_field 14 2 0 x))

-- 0x681a is `kGuestDr7`.
unfoldable pub move_to_dr : ℕ → ℕ → Vcpu → Vcpu
move_to_dr dr x v =
    if ltb dr 4
    then record v { drs = update v.drs dr x }
    else (if dr == 6
        then record v { drs = update v.drs 6 (dr6_value x) }
        else (if dr == 7 then vm_write 0x681a (dr7_value x) v else v))

unfoldable pub move_from_dr : ℕ → Gpr → Vcpu → Vcpu
move_from_dr dr r v =
    if ltb dr 4
    then with_regs (store r (v.drs dr) v.gp_regs) v
    else (if dr == 6
        then with_regs (store r (v.drs 6) v.gp_regs) v
        else (if dr == 7 then with_regs (store r (vm_read 0x681a v) v.gp_regs) v else v))

-- #DB for DR7.GD: DR6 is told, and GD is cleared.
unfoldable pub general_detect : Vcpu → Vcpu
general_detect v =
    let v₁ = record v { drs = update v.drs 6 (set_field 13 1 1 (set_field 0 4 0 (v.drs 6))) } in
    vm_write 0x681a (set_field 13 1 0 (vm_read 0x681a v)) (inject_db v₁)

-- From the choice of the register on.
unfoldable pub move_dr : ℕ → Gpr → ℕ → Vcpu → Vcpu
unfolding move_to_dr move_from_dr
move_dr dr r direction v =
    let x = load r v.gp_regs in
    if direction == 0 && (dr == 6 || dr == 7) && not (x / 2 ^ 32 == 0)
    then inject_gp v
    else adjust_guest_instruction_pointer
        (if direction == 0 then move_to_dr dr x v else move_from_dr dr r v)

-- From the test of DR7.GD on; `dr` is the register after the renaming of DR4 and DR5.
unfoldable pub access_dr : ℕ → Gpr → ℕ → Vcpu → Vcpu
unfolding general_detect move_dr
access_dr dr r direction v =
    if field 13 1 (vm_read 0x681a v) == 1 then general_detect v else move_dr dr r direction v

-- 0x6400 is `kExitQualification`, 0x6804 `kGuestCr4`, of which bit 3 is DE.
unfoldable pub handle_dr_access : Vcpu → Vcpu
unfolding access_dr
handle_dr_access v =
    let qualification = vm_read 0x6400 v in
    let dr = field 0 3 qualification in
    let r = select_gpr (field 8 4 qualification) in
    let direction = field 4 1 qualification in
    if not (get_guest_cpl v == 0)
    then inject_gp v
    else (if dr == 4 || dr == 5
        then (if field 3 1 (vm_read 0x6804 v) == 1
            then inject_ud v
            else access_dr (if dr == 4 then 6 else 7) r direction v)
        else access_dr dr r direction v)
