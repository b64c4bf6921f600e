-- ===== src/Prelude/Words.antt =====
-- Bit fields of machine words: the field of `w` bits from bit `lo` on, and a write to it.
use Prim.Native.Nat.{ℕ, ◌+◌, ◌*◌, ◌/◌, ◌%◌, ◌^◌}

abbrev pub field : ℕ → ℕ → ℕ → ℕ
field lo w x = x / 2 ^ lo % 2 ^ w

abbrev pub set_field : ℕ → ℕ → ℕ → ℕ → ℕ
set_field lo w v x = x % 2 ^ lo + v % 2 ^ w * 2 ^ lo + x / 2 ^ (lo + w) * 2 ^ (lo + w)

-- The low 32 bits, and those above them.
abbrev pub low_part : ℕ → ℕ
low_part x = x % 2 ^ 32

abbrev pub high_part : ℕ → ℕ
high_part x = x / 2 ^ 32 % 2 ^ 32

abbrev pub join_parts : ℕ → ℕ → ℕ
join_parts high low = high % 2 ^ 32 * 2 ^ 32 + low % 2 ^ 32
