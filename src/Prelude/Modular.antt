-- ===== src/Prelude/Modular.antt =====
-- Remainders by a variable.
use Prim.Native.Nat.{ℕ, suc, ◌+◌, ◌-◌, ◌%◌, ◌<◌}
use mathlib.Core.Path.{◌≡◌, ap, ◌∙◌}
use native.Mathlib.Omega.{arith}
use native.Mathlib.Nat.{mod-add-mod, add-mod-mod, mod-eq_of_lt, add-mod_right}

pub shift_mod : (a b n : ℕ) → ((a + 1) % n + b) % n ≡ (a + suc b) % n
shift_mod a b n = mod-add-mod (a + 1) n b ∙ ap (λ s. s % n) (omega arith)

pub wrap_mod : (a n : ℕ) → a < n → (a + n) % n ≡ a
wrap_mod a n h = add-mod_right a n ∙ mod-eq_of_lt h

-- From `a` on, the slot `e` is met after `(e + n - a) % n` steps.
pub distance_mod : (a e n : ℕ) → a < n → e < n → (a + (e + n - a) % n) % n ≡ e
distance_mod a e n ha he =
    add-mod-mod a (e + n - a) n
    ∙ ap (λ s. s % n) (let r : a + (e + n - a) ≡ e + n = omega arith in r)
    ∙ wrap_mod e n he
