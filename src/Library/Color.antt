-- ===== src/Library/Color.antt =====
-- library/shared/color.c.
use fern_night.Prelude.{ℕ, ◌+◌, ◌-◌, ◌*◌, ◌/◌, ◌%◌, ◌^◌, bit_and, bit_or}

-- All sums and products are of 32 bits.
pub lib_color_blend : ℕ → ℕ → ℕ
lib_color_blend background foreground =
    let a = bit_and foreground 0xFF000000 / 2 ^ 24 in
    let outer =
      bit_and
        (((255 - a) * bit_and background 0x00FF00FF + a * bit_and foreground 0x00FF00FF)
          % 2 ^ 32
          / 2 ^ 8)
        0x00FF00FF in
    let inner =
      bit_and
        (((255 - a) * (bit_and background 0xFF00FF00 / 2 ^ 8)
            + a * bit_or 0x01000000 (bit_and foreground 0x0000FF00 / 2 ^ 8))
          % 2 ^ 32)
        0xFF00FF00 in
    bit_or outer inner
