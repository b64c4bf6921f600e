-- ===== src/Fuzzer/Records/Cached.antt =====
-- A register that was looked up once is found again, and no other record is lost while a slot is
-- free.
use device_mon.Prelude.{
  ℕ, ◌+◌, ◌-◌, ◌%◌, ◌<◌, ◌≡◌, ◌≢◌, inl, inr, true, false, arith, ◌∙◌, ◌==◌, Bool-cases, wrap_mod,
  distance_mod,
}
use device_mon.Fuzzer.Registers.{X86Reg}
use device_mon.Fuzzer.Records.{
  Table, probe, holds, is_free, insert_record, find_moved, get_reg_index_by_rip,
}
use device_mon.Fuzzer.Records.Probe.{probe-stops, probe-update, probe-wraps, probe-finds}

module _ (len : ℕ) where
  -- A full table brings the search for a free slot back to where it began.
  free-full :
      (t : Table) (home : ℕ)
      → home < len
      → (probe len is_free t len home).0 ≡ 0
      → (probe len is_free t len home).1 ≡ home
  free-full t home below full =
      probe-wraps len is_free t len home below full ∙ wrap_mod home len below

  -- After an insertion away from `home` the search from `home` on finds the record.
  find_moved-insert :
      (home : ℕ) (reg reg' : X86Reg) (rip : ℕ) (t : Table)
      → home < len
      → (probe len (holds rip) t len home).0 ≡ 0
      → (probe len is_free t len home).1 ≢ home
      → let t' = (insert_record len home reg rip t).1 in find_moved len home reg' rip t' ≡ (reg, t')
  unfolding insert_record find_moved
  find_moved-insert home reg reg' rip t below missed away =
      let found : (probe len is_free t len home).0 ≢ 0 =
        λ full. away (free-full t home below full) in
      ground (arith, probe-update len rip reg t len home missed found)

  -- The second half of the function, asked twice.
  find_moved-twice :
      (pfn : ℕ → ℕ) (reg reg' : X86Reg) (rip : ℕ) (t : Table)
      → 0 < len
      → rip ≢ 0
      → is_free (t (pfn rip % len)) ≡ false
      → holds rip (t (pfn rip % len)) ≡ false
      → let (d, t') = find_moved len (pfn rip % len) reg rip t in
        get_reg_index_by_rip len pfn reg' rip t' ≡ (d, t')
  unfolding get_reg_index_by_rip
  find_moved-twice pfn reg reg' rip t pos ne taken other =
      let home : ℕ = pfn rip % len in
      let below : home < len = grind arith in
      let slot : ℕ = (probe len is_free t len home).1 in
      elim (Bool-cases ((probe len (holds rip) t len home).0 == 0)) [
        | inr found ↦ ground arith
        | inl missed ↦ elim (Bool-cases (slot == home)) [
          | inl back ↦ ground arith
          | inr away ↦
              ground
                (arith, find_moved-insert home reg reg' rip t below (ground arith) (ground arith))
        ]
      ]

  -- For an address other than 0 and a table that has a slot: what the function said of the address
  -- it says again, whatever the disassembler would say then,
  -- and the second call changes nothing.
  pub get_reg_index_by_rip-twice :
      (pfn : ℕ → ℕ) (reg reg' : X86Reg) (rip : ℕ) (t : Table)
      → 0 < len
      → rip ≢ 0
      → let (d, t') = get_reg_index_by_rip len pfn reg rip t in
        get_reg_index_by_rip len pfn reg' rip t' ≡ (d, t')
  unfolding get_reg_index_by_rip
  get_reg_index_by_rip-twice pfn reg reg' rip t pos ne =
      let home : ℕ = pfn rip % len in
      elim (Bool-cases (is_free (t home))) [
        | inl free ↦ ground arith
        | inr taken ↦ elim (Bool-cases (holds rip (t home))) [
          | inl hit ↦ ground arith
          | inr other ↦ ground (arith, find_moved-twice pfn reg reg' rip t pos ne taken other)
        ]
      ]

  -- While any slot is free, every record that was in the table stays as it was.
  pub get_reg_index_by_rip-keeps :
      (pfn : ℕ → ℕ) (reg : X86Reg) (rip : ℕ) (t : Table) (e k : ℕ)
      → e < len
      → is_free (t e) ≡ true
      → is_free (t k) ≡ false
      → (get_reg_index_by_rip len pfn reg rip t).1 k ≡ t k
  unfolding get_reg_index_by_rip
  get_reg_index_by_rip-keeps pfn reg rip t e k below free taken =
      let home : ℕ = pfn rip % len in
      let inside : home < len = grind arith in
      let met : is_free (t ((home + (e + len - home) % len) % len)) ≡ true =
        rw (distance_mod home e len inside below) free in
      let found : (probe len is_free t len home).0 ≢ 0 =
        probe-finds len is_free t len home ((e + len - home) % len) inside (grind arith) met in
      ground (arith, probe-stops len is_free t len home found)
