-- ===== src/Prelude/Bits.antt =====
-- The operations & and | on words of `w` bits, bit by bit, and the bit `i` of a word.
use Prim.Native.Nat.{ℕ, zero, suc, ◌+◌, ◌*◌, ◌/◌, ◌%◌, ◌^◌, ◌<◌}
use mathlib.Core.Path.{◌≡◌, ap, ◌∙◌}
use native.Mathlib.Omega.{arith}
use device_mon.Prelude.Tests.{◌==◌, if◌then◌else◌}

unfoldable pub bits_and : ℕ → ℕ → ℕ → ℕ
bits_and zero a b = 0
bits_and (suc w) a b = (if a % 2 == 1 then b % 2 else 0) + 2 * bits_and w (a / 2) (b / 2)

unfoldable pub bits_or : ℕ → ℕ → ℕ → ℕ
bits_or zero a b = 0
bits_or (suc w) a b = (if a % 2 == 1 then 1 else b % 2) + 2 * bits_or w (a / 2) (b / 2)

unfoldable pub bit : ℕ → ℕ → ℕ
bit zero x = x % 2
bit (suc i) x = bit i (x / 2)

and_low : (w a b : ℕ) → bits_and (suc w) a b % 2 ≡ (if a % 2 == 1 then b % 2 else 0)
unfolding bits_and
and_low w a b = ground arith

and_high : (w a b : ℕ) → bits_and (suc w) a b / 2 ≡ bits_and w (a / 2) (b / 2)
unfolding bits_and
and_high w a b = ground arith

or_low : (w a b : ℕ) → bits_or (suc w) a b % 2 ≡ (if a % 2 == 1 then 1 else b % 2)
unfolding bits_or
or_low w a b = ground arith

or_high : (w a b : ℕ) → bits_or (suc w) a b / 2 ≡ bits_or w (a / 2) (b / 2)
unfolding bits_or
or_high w a b = ground arith

pub bit-bits_and :
    (i w a b : ℕ) → i < w → bit i (bits_and w a b) ≡ (if bit i a == 1 then bit i b else 0)
unfolding bit
bit-bits_and i zero a b h = absurd (omega arith)
bit-bits_and zero (suc w) a b h = and_low w a b
bit-bits_and (suc i) (suc w) a b h =
    ap (bit i) (and_high w a b) ∙ bit-bits_and i w (a / 2) (b / 2) (omega arith)

pub bit-bits_or :
    (i w a b : ℕ) → i < w → bit i (bits_or w a b) ≡ (if bit i a == 1 then 1 else bit i b)
unfolding bit
bit-bits_or i zero a b h = absurd (omega arith)
bit-bits_or zero (suc w) a b h = or_low w a b
bit-bits_or (suc i) (suc w) a b h =
    ap (bit i) (or_high w a b) ∙ bit-bits_or i w (a / 2) (b / 2) (omega arith)

pub bits_or-lt : (w a b : ℕ) → bits_or w a b < 2 ^ w
unfolding bits_or
bits_or-lt zero a b = omega arith
bits_or-lt (suc w) a b = ground (arith, bits_or-lt w (a / 2) (b / 2))

or_zero : (w x : ℕ) → x < 2 ^ w → bits_or w x 0 ≡ x
unfolding bits_or
or_zero zero x h = omega arith
or_zero (suc w) x h = ground (arith, or_zero w (x / 2))

-- Words that have no bit in common.
pub bits_or-add :
    (w k x b : ℕ)
    → b < 2 ^ k
    → x * 2 ^ k < 2 ^ w
    → b < 2 ^ w
    → bits_or w (x * 2 ^ k) b ≡ x * 2 ^ k + b
unfolding bits_or
bits_or-add zero k x b small fits below = omega arith
bits_or-add (suc w) zero x b small fits below =
    let none : b ≡ 0 = omega arith in
    let all : x * 1 ≡ x = omega arith in rw (none, all) (ground (arith, or_zero w (x / 2)))
bits_or-add (suc w) (suc k) x b small fits below =
    let power : 2 ^ suc k ≡ 2 * 2 ^ k = omega arith in
    let twice : x * 2 ^ suc k ≡ 2 * (x * 2 ^ k) = ap (λ p. x * p) power ∙ omega arith in
    let half : 2 * (x * 2 ^ k) / 2 ≡ x * 2 ^ k = omega arith in
    let rest = bits_or-add w k x (b / 2) (omega arith) (omega arith) (omega arith) in
    rw (twice, half) (ground (arith, rest))

pub bit-lt : (i x : ℕ) → bit i x < 2
unfolding bit
bit-lt zero x = omega arith
bit-lt (suc i) x = bit-lt i (x / 2)
