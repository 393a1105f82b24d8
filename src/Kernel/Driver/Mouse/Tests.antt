-- ===== src/Kernel/Driver/Mouse/Tests.antt =====
-- The theorems on the mouse, on a screen of 100 times 50 pixels.
use fern_night.Prelude.{◌+◌, ◌-◌, ◌^◌, ◌≤◌, ◌≡◌, refl, List, [], ◌∷◌, arith}
use fern_night.Kernel.Driver.Mouse.{Mouse, driver_ps2_mouse}
use fern_night.Kernel.Driver.Mouse.Packets.{
  Movement, plus, minus, byte_of, moved, opposite, IsStatus, IsPlaced, interrupts, interrupts_all,
  mouse_moves, mouse_stays, mouse_leaves,
}

abbrev still : Mouse
still = record {
  packet = 0;
  device_mouse_status = 8;
  device_mouse_x = 90;
  device_mouse_y = 10;
  framebuffer_width_pixel = 100;
  framebuffer_height_pixel = 50;
}

still-IsPlaced : IsPlaced still
still-IsPlaced = omega arith

-- To the right and up, and to the left and down
right_up : IsStatus 0x08 (plus 20) (plus 3)
right_up = record {
  one = refl;
  no_overflow_x = refl;
  no_overflow_y = refl;
  sign_x = refl;
  sign_y = refl;
}

left_down : IsStatus 0x38 (minus 100) (minus 5)
left_down = record {
  one = refl;
  no_overflow_x = refl;
  no_overflow_y = refl;
  sign_x = refl;
  sign_y = refl;
}

mouse_moves_example :
    interrupts still 0x20 0x38 (byte_of (minus 100)) (byte_of (minus 5)) ≡ record still {
      packet = 0;
      device_mouse_status = 0x38;
      device_mouse_x = moved 90 (minus 100) 100;
      device_mouse_y = moved 10 (opposite (minus 5)) 50;
    }
mouse_moves_example =
    mouse_moves still 0x20 0x38 (minus 100) (minus 5) still-IsPlaced refl refl left_down
      (omega arith) (omega arith)

abbrev movements : List Movement
movements =
    record { first = 0x08; way_x = plus 20; way_y = plus 3 }
    ∷ record { first = 0x38; way_x = minus 100; way_y = minus 5 }
    ∷ []

mouse_stays_example :
    IsPlaced (interrupts_all 0x20 still movements)
    × ((interrupts_all 0x20 still movements).packet ≡ 0)
mouse_stays_example = mouse_stays 0x20 still movements still-IsPlaced refl refl (
  right_up,
  omega arith,
  omega arith,
  (left_down, (omega arith, omega arith), (omega arith, omega arith), tt),
)

abbrev second_byte : Mouse
second_byte = record still { packet = 1 }

mouse_leaves_example :
    ((driver_ps2_mouse second_byte 0x20 0x80).device_mouse_x ≡ 90 + 2 ^ 16 + 0x80 - 0x100)
    × (100 ≤ (driver_ps2_mouse second_byte 0x20 0x80).device_mouse_x)
mouse_leaves_example =
    mouse_leaves second_byte 0x20 0x80 (omega arith) (omega arith) refl refl refl (omega arith)
      (omega arith)
