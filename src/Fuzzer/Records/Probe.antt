-- ===== src/Fuzzer/Records/Probe.antt =====
-- The probing loop.
use native.Mathlib.Nat.{mod-eq_of_lt}
use device_mon.Prelude.{
  ℕ, zero, suc, ◌+◌, ◌%◌, ◌<◌, ◌≡◌, refl, ◌≢◌, Bool, true, arith, update, shift_mod,
}
use device_mon.Fuzzer.Registers.{X86Reg}
use device_mon.Fuzzer.Records.{AccessRecord, Table, probe, holds, is_free, entry}

module _ (len : ℕ) where
  -- Where the loop stops before its last round, the test holds.
  pub probe-stops :
      (stop : AccessRecord → Bool) (t : Table) (left index : ℕ)
      → (probe len stop t left index).0 ≢ 0
      → stop (t (probe len stop t left index).1) ≡ true
  unfolding probe
  probe-stops stop t zero index h = absurd (h refl)
  probe-stops stop t (suc left) index h =
      ground (arith, probe-stops stop t left ((index + 1) % len))

  -- If the loop finds `rip` nowhere, it finds it after a write to the first free slot, there.
  pub probe-update :
      (rip : ℕ) (reg : X86Reg) (t : Table) (left index : ℕ)
      → (probe len (holds rip) t left index).0 ≡ 0
      → (probe len is_free t left index).0 ≢ 0
      → let slot = (probe len is_free t left index).1 in
        let t' = update t slot (entry rip reg) in
        ((probe len (holds rip) t' left index).0 ≢ 0)
        × ((probe len (holds rip) t' left index).1 ≡ slot)
  unfolding probe
  probe-update rip reg t zero index missed found = absurd (found refl)
  probe-update rip reg t (suc left) index missed found =
      ground (arith, probe-update rip reg t left ((index + 1) % len))

  -- A loop that runs out of rounds has moved on by one slot each time.
  pub probe-wraps :
      (stop : AccessRecord → Bool) (t : Table) (left index : ℕ)
      → index < len
      → (probe len stop t left index).0 ≡ 0
      → (probe len stop t left index).1 ≡ (index + left) % len
  unfolding probe
  probe-wraps stop t zero index below h = grind (arith, mod-eq_of_lt)
  probe-wraps stop t (suc left) index below h =
      ground
        (arith, shift_mod index left len, probe-wraps stop t left ((index + 1) % len) (omega arith))

  -- A slot that passes the test and is met in time ends the loop before its last round.
  pub probe-finds :
      (stop : AccessRecord → Bool) (t : Table) (left index m : ℕ)
      → index < len
      → m < left
      → stop (t ((index + m) % len)) ≡ true
      → (probe len stop t left index).0 ≢ 0
  unfolding probe
  probe-finds stop t zero index m below h hit = absurd (omega arith)
  probe-finds stop t (suc left) index zero below h hit =
      let here : (index + 0) % len ≡ index = grind (arith, mod-eq_of_lt) in
      let hit' : stop (t index) ≡ true = rw here at hit in rw hit' (omega arith)
  probe-finds stop t (suc left) index (suc m) below h hit =
      let next : stop (t (((index + 1) % len + m) % len)) ≡ true = rw (shift_mod index m len) hit in
      ground (arith, probe-finds stop t left ((index + 1) % len) m (omega arith))
