-- ===== src/Kernel/Driver/Mouse.antt =====
-- The mouse of kernel/driver/ps2.c: three bytes of the device move the pointer.
pub mod Packets
pub mod Tests
use fern_night.Prelude.{
  ℕ, ◌+◌, ◌-◌, ◌/◌, ◌%◌, ◌^◌, bit_and, Bool, true, false, not, ◌&&◌, ltb, ◌==◌, if◌then◌else◌,
}

-- `DRIVER_PS2_STATUS_output_second`
abbrev pub status_output_second : ℕ
status_output_second = 0x20

-- `DRIVER_PS2_DEVICE_MOUSE_PACKET_ALWAYS_ONE`, `_X_SIGNED`, `_Y_SIGNED`, `_OVERFLOW_x` and `_OVERFLOW_y`
abbrev pub always_one : ℕ
always_one = 0x08

abbrev pub x_signed : ℕ
x_signed = 0x10

abbrev pub y_signed : ℕ
y_signed = 0x20

abbrev pub overflow_x : ℕ
overflow_x = 0x40

abbrev pub overflow_y : ℕ
overflow_y = 0x80

-- The number of the next byte, and the fields of the kernel that the driver reads and writes.
pub record Mouse : Type 0 where
  pub packet : ℕ
  pub device_mouse_status : ℕ
  pub device_mouse_x : ℕ
  pub device_mouse_y : ℕ
  pub framebuffer_width_pixel : ℕ
  pub framebuffer_height_pixel : ℕ

-- A byte of `int8_t` in 16 bits.
abbrev pub extended : ℕ → ℕ
extended packet = if ltb packet 0x80 then packet else packet + 0xFF00

-- `packet = ~packet + 1`
abbrev pub negated : ℕ → ℕ
negated packet = (0x100 - packet) % 2 ^ 8

-- `if( at - packet < 0 ) at = EMPTY; else at -= packet;`
pub backward : ℕ → ℕ → ℕ
backward at packet =
    if ltb packet 0x80 && ltb at packet then 0 else (at + 2 ^ 16 - extended packet) % 2 ^ 16

-- `if( at + packet < size ) at += packet; else at = size - 1;`
pub forward : ℕ → ℕ → ℕ → ℕ
forward at packet size =
    if (if ltb packet 0x80 then ltb (at + packet) size else ltb at (size + (0x100 - packet)))
    then (at + extended packet) % 2 ^ 16
    else (size + 2 ^ 16 - 1) % 2 ^ 16

-- `case 0`
pub status_packet : Mouse → ℕ → Mouse
status_packet s packet =
    if bit_and packet always_one == 0
    then s
    else if not (bit_and packet overflow_x == 0)
    then s
    else if not (bit_and packet overflow_y == 0)
    then s
    else record s { device_mouse_status = packet; packet = 1 }

-- `case 1`
pub x_packet : Mouse → ℕ → Mouse
x_packet s packet = record s {
  device_mouse_x =
      if not (bit_and s.device_mouse_status x_signed == 0)
      then backward s.device_mouse_x (negated packet)
      else forward s.device_mouse_x packet s.framebuffer_width_pixel;
  packet = 2;
}

-- `case 2`
pub y_packet : Mouse → ℕ → Mouse
y_packet s packet = record s {
  device_mouse_y =
      if not (bit_and s.device_mouse_status y_signed == 0)
      then forward s.device_mouse_y (negated packet) s.framebuffer_height_pixel
      else backward s.device_mouse_y packet;
  packet = 0;
}

-- An interrupt, with the controller's status and the byte that it has.
unfoldable pub driver_ps2_mouse : Mouse → ℕ → ℕ → Mouse
driver_ps2_mouse s status packet =
    if bit_and status status_output_second == 0
    then s
    else if s.packet == 0
    then status_packet s packet
    else if s.packet == 1
    then x_packet s packet
    else if s.packet == 2
    then y_packet s packet
    else s
