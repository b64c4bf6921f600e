-- ===== src/Fuzzer/Records.antt =====
-- The table of `GetRegIndexByRip` (DeviceMon/Fuzzer.cpp): open addressing, linear probing.
pub mod Probe
pub mod Cached
use device_mon.Prelude.{ℕ, zero, suc, ◌+◌, ◌%◌, Bool, ◌==◌, if◌then◌else◌, update}
use device_mon.Fuzzer.Registers.{X86Reg}

-- A slot is free while its `rip` is 0.
pub record AccessRecord : Type 0 where
  pub des_reg_id : X86Reg
  pub rip : ℕ

abbrev pub Table : Type 0
Table = ℕ → AccessRecord

abbrev pub fuzz_record_len : ℕ
fuzz_record_len = 0xffff

-- `while (!stop(Record[Index]) && count < LEN) { Index = (Index + 1) % LEN; count++; }`, by the
-- rounds that are left. The result is the rounds left and the last index.
module _ (len : ℕ) where
  unfoldable pub probe : (AccessRecord → Bool) → Table → ℕ → ℕ → ℕ × ℕ
  probe stop t zero index = (zero, index)
  probe stop t (suc left) index =
      let rest = probe stop t left ((index + 1) % len) in
      if stop (t index) then (suc left, index) else rest

abbrev pub holds : ℕ → AccessRecord → Bool
holds rip r = r.rip == rip

abbrev pub is_free : AccessRecord → Bool
is_free r = r.rip == 0

abbrev pub entry : ℕ → X86Reg → AccessRecord
entry rip reg = record { des_reg_id = reg; rip = rip }

-- The end of the function: the first free slot from `home` on is written; if there is none, the
-- index has come round to `home`. The rounds left are not looked at.
unfoldable pub insert_record : ℕ → ℕ → X86Reg → ℕ → Table → X86Reg × Table
unfolding probe
insert_record len home reg rip t =
    let (_, index) = probe len is_free t len home in (reg, update t index (entry rip reg))

-- The second half: the entry may have been moved; if no slot holds it, it is inserted.
unfoldable pub find_moved : ℕ → ℕ → X86Reg → ℕ → Table → X86Reg × Table
unfolding probe insert_record
find_moved len home reg rip t =
    let (left, index) = probe len (holds rip) t len home in
    if left == 0 then insert_record len home reg rip t else ((t index).des_reg_id, t)

-- `pfn` is `UtilPfnFromVa`, and `reg` what `GetInstructionDestRegister` says of the instruction.
unfoldable pub get_reg_index_by_rip : ℕ → (ℕ → ℕ) → X86Reg → ℕ → Table → X86Reg × Table
unfolding find_moved
get_reg_index_by_rip len pfn reg rip t =
    let home = pfn rip % len in
    if is_free (t home)
    then (reg, update t home (entry rip reg))
    else (if holds rip (t home) then ((t home).des_reg_id, t) else find_moved len home reg rip t)
