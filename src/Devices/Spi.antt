-- ===== src/Devices/Spi.antt =====
-- The registers of the SPI controller, `SpiBarRegister` of DeviceMon/Spi.cpp, and the lookup of a
-- name. A name is the number of its row.
use device_mon.Prelude.{ℕ, ◌+◌, Option, none, some, List, [], ◌∷◌, ◌==◌, if◌then◌else◌}

-- Address and size of each row.
abbrev pub spi_bar_register : List (ℕ × ℕ)
spi_bar_register =
    (0x00, 4)
    ∷ (0x04, 2)
    ∷ (0x06, 2)
    ∷ (0x08, 4)
    ∷ (0x0c, 4)
    ∷ (0x10, 4)
    ∷ (0x14, 4)
    ∷ (0x18, 4)
    ∷ (0x1C, 4)
    ∷ (0x20, 4)
    ∷ (0x24, 4)
    ∷ (0x28, 4)
    ∷ (0x2C, 4)
    ∷ (0x30, 4)
    ∷ (0x34, 4)
    ∷ (0x38, 4)
    ∷ (0x3C, 4)
    ∷ (0x40, 4)
    ∷ (0x44, 4)
    ∷ (0x48, 4)
    ∷ (0x4C, 4)
    ∷ (0x50, 4)
    ∷ (0x54, 4)
    ∷ (0x58, 4)
    ∷ (0x5c, 4)
    ∷ (0x60, 4)
    ∷ (0x64, 4)
    ∷ (0x74, 4)
    ∷ (0x78, 4)
    ∷ (0x7c, 4)
    ∷ (0x80, 4)
    ∷ (0x84, 4)
    ∷ (0x90, 1)
    ∷ (0x91, 3)
    ∷ (0x94, 2)
    ∷ (0x96, 2)
    ∷ (0x98, 8)
    ∷ (0xa0, 1)
    ∷ (0xb0, 4)
    ∷ (0xb8, 4)
    ∷ (0xc0, 4)
    ∷ (0xc4, 4)
    ∷ (0xc8, 4)
    ∷ (0xd0, 4)
    ∷ []

-- The loop of `SpiGetNameByOffset` from row `i` on: the row of the first register at the offset.
unfoldable pub name_from : ℕ → List (ℕ × ℕ) → ℕ → Option ℕ
name_from i [] offset = none
name_from i ((addr, size) ∷ rows) offset =
    let later = name_from (i + 1) rows offset in if addr == offset then some i else later

unfoldable pub spi_get_name_by_offset : ℕ → Option ℕ
unfolding name_from
spi_get_name_by_offset offset = name_from 0 spi_bar_register offset
