-- ===== src/Prelude/Arrays.antt =====
-- Fixed arrays and register files, as functions of the index.
use Prim.Native.Nat.{ℕ}
use device_mon.Prelude.Tests.{◌==◌, if◌then◌else◌}

abbrev pub update {ℓ} : {A : Type ℓ} → (ℕ → A) → ℕ → A → ℕ → A
update f i v j = if j == i then v else f j
