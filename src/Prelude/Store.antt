-- ===== src/Prelude/Store.antt =====
-- Memory as its bytes, and numbers of `n` bytes in it, the lowest byte first.
use Prim.Native.Nat.{ℕ, zero, suc, ◌+◌, ◌*◌, ◌/◌, ◌%◌, ◌^◌, ◌≤◌, ◌<◌}
use mathlib.Core.Path.{◌≡◌, refl}
use mathlib.Core.Logic.{◌⊎◌, inl, inr}
use native.Mathlib.Omega.{arith}
use device_mon.Prelude.Tests.{test_of_eq, test_of_ne}
use device_mon.Prelude.Arrays.{update}

abbrev pub Bytes : Type 0
Bytes = ℕ → ℕ

unfoldable pub load_bytes : (n a : ℕ) → Bytes → ℕ
load_bytes zero a m = 0
load_bytes (suc n) a m = m a % 256 + 256 * load_bytes n (a + 1) m

unfoldable pub store_bytes : (n a x : ℕ) → Bytes → Bytes
store_bytes zero a x m = m
store_bytes (suc n) a x m = update (store_bytes n (a + 1) (x / 256) m) a (x % 256)

pub store_bytes-other :
    (n a x b : ℕ) (m : Bytes) → (b < a) ⊎ (a + n ≤ b) → store_bytes n a x m b ≡ m b
unfolding store_bytes
store_bytes-other zero a x b m out = refl
store_bytes-other (suc n) a x b m out = ground (arith, store_bytes-other n (a + 1) (x / 256) b m)

-- What is loaded depends on the bytes of the range alone.
load_bytes-same :
    (n a : ℕ) (m m' : Bytes)
    → ((b : ℕ) → a ≤ b → b < a + n → m b ≡ m' b)
    → load_bytes n a m ≡ load_bytes n a m'
unfolding load_bytes
load_bytes-same zero a m m' same = refl
load_bytes-same (suc n) a m m' same =
    rw
      (
        same a (omega arith) (omega arith),
        load_bytes-same n (a + 1) m m' (λ b from below. same b (omega arith) (omega arith)),
      )
      refl

pub load_bytes-store_other :
    (n a k b x : ℕ) (m : Bytes)
    → (b + n ≤ a) ⊎ (a + k ≤ b)
    → load_bytes n b (store_bytes k a x m) ≡ load_bytes n b m
load_bytes-store_other n a k b x m apart =
    load_bytes-same n b (store_bytes k a x m) m (λ c from below.
      store_bytes-other k a x c m
        (elim apart [ inl before ↦ inl (omega arith) | inr after ↦ inr (omega arith) ]))

-- The number of `n` bytes that `x` ends in.
unfoldable pub last_bytes : ℕ → ℕ → ℕ
last_bytes zero x = 0
last_bytes (suc n) x = x % 256 + 256 * last_bytes n (x / 256)

pub load_bytes-store_bytes :
    (n a x : ℕ) (m : Bytes) → load_bytes n a (store_bytes n a x m) ≡ last_bytes n x
unfolding load_bytes store_bytes last_bytes
load_bytes-store_bytes zero a x m = refl
load_bytes-store_bytes (suc n) a x m =
    let rest = store_bytes n (a + 1) (x / 256) m in
    let after : load_bytes n (a + 1) (update rest a (x % 256)) ≡ load_bytes n (a + 1) rest =
      load_bytes-same n (a + 1) (update rest a (x % 256)) rest
        (λ b from below. rw (test_of_ne b a (omega arith)) refl) in
    rw (after, load_bytes-store_bytes n (a + 1) (x / 256) m, test_of_eq a a refl) (omega arith)

pub last_bytes-2 : (x : ℕ) → last_bytes 2 x ≡ x % 2 ^ 16
unfolding last_bytes
last_bytes-2 x = omega arith

pub last_bytes-8 : (x : ℕ) → last_bytes 8 x ≡ x % 2 ^ 64
unfolding last_bytes
last_bytes-8 x = omega arith
