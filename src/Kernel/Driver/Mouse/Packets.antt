-- ===== src/Kernel/Driver/Mouse/Packets.antt =====
-- What a movement that the device tells in three bytes does to the pointer.
use fern_night.Prelude.{
  ℕ, ◌+◌, ◌-◌, ◌%◌, ◌^◌, ◌≤◌, ◌<◌, min, bit_and, Bool, true, false, not, ◌≡◌, ap, ap₂, List, [],
  ◌∷◌, ◌==◌, if◌then◌else◌, arith,
}
use fern_night.Kernel.Driver.Mouse.{
  Mouse, negated, backward, forward, status_packet, x_packet, y_packet, driver_ps2_mouse,
  status_output_second, always_one, x_signed, y_signed, overflow_x, overflow_y,
}

-- A movement by some pixels, in the direction of growing numbers or the other.
pub data Way : Type 0 where
  plus minus : ℕ → Way

-- The byte of a movement, and its sign.
abbrev pub byte_of : Way → ℕ
byte_of (plus d) = d
byte_of (minus d) = (0x100 - d) % 2 ^ 8

abbrev pub is_plus : Way → Bool
is_plus (plus d) = true
is_plus (minus d) = false

-- A movement by at most 127 pixels; no movement has the sign of a positive one.
abbrev pub IsShort : Way → Type 0
IsShort (plus d) = d < 0x80
IsShort (minus d) = (d < 0x80) × (0 < d)

-- A coordinate below `size` after the movement.
abbrev pub moved : ℕ → Way → ℕ → ℕ
moved at (plus d) size = min (at + d) (size - 1)
moved at (minus d) size = at - d

abbrev pub opposite : Way → Way
opposite (plus d) = minus d
opposite (minus d) = plus d

forward-moved :
    (at d size : ℕ)
    → at < size
    → size < 2 ^ 16
    → d < 0x80
    → forward at d size ≡ min (at + d) (size - 1)
unfolding forward
forward-moved at d size l s h = ground arith

backward-moved : (at d : ℕ) → at < 2 ^ 16 → d < 0x80 → backward at d ≡ at - d
unfolding backward
backward-moved at d l h = ground arith

negated-minus : (d : ℕ) → d < 0x80 → negated ((0x100 - d) % 2 ^ 8) ≡ d
negated-minus d h = ground arith

-- What the first byte tells of the movements.
pub record IsStatus (status : ℕ) (x y : Way) : Type 0 where
  pub one : (bit_and status always_one == 0) ≡ false
  pub no_overflow_x : (bit_and status overflow_x == 0) ≡ true
  pub no_overflow_y : (bit_and status overflow_y == 0) ≡ true
  pub sign_x : (bit_and status x_signed == 0) ≡ is_plus x
  pub sign_y : (bit_and status y_signed == 0) ≡ is_plus y

-- The pointer is on the screen.
pub record IsPlaced (s : Mouse) : Type 0 where
  pub on_x : s.device_mouse_x < s.framebuffer_width_pixel
  pub on_y : s.device_mouse_y < s.framebuffer_height_pixel
  pub width : s.framebuffer_width_pixel < 2 ^ 16
  pub height : s.framebuffer_height_pixel < 2 ^ 16

x_moved :
    (at size : ℕ) (x : Way)
    → at < size
    → size < 2 ^ 16
    → IsShort x
    → (if not (is_plus x) then backward at (negated (byte_of x)) else forward at (byte_of x) size)
      ≡ moved at x size
x_moved at size (plus d) l s h = forward-moved at d size l s h
x_moved at size (minus d) l s (h, p) = rw (negated-minus d h) (backward-moved at d (omega arith) h)

y_moved :
    (at size : ℕ) (y : Way)
    → at < size
    → size < 2 ^ 16
    → IsShort y
    → (if not (is_plus y) then forward at (negated (byte_of y)) size else backward at (byte_of y))
      ≡ moved at (opposite y) size
y_moved at size (plus d) l s h = backward-moved at d (omega arith) h
y_moved at size (minus d) l s (h, p) = rw (negated-minus d h) (forward-moved at d size l s h)

-- The three interrupts of a movement, each with the controller's status `status`.
abbrev pub interrupts : Mouse → ℕ → ℕ → ℕ → ℕ → Mouse
interrupts s status first second third =
    driver_ps2_mouse (driver_ps2_mouse (driver_ps2_mouse s status first) status second) status third

-- Let the pointer be on a screen with sizes of 16 bits, let the next byte be a first one, and let the
-- controller say that its bytes are from the second port. The three bytes of a movement by at most
-- 127 pixels on each axis, whose first one has the bit that is always set, no overflow and the signs
-- of the movement, move the pointer by it, upwards for a positive movement on the Y axis, but not over
-- the edges of the screen; the next byte is a first one again.
pub mouse_moves :
    (s : Mouse) (status first : ℕ) (x y : Way)
    → IsPlaced s
    → s.packet ≡ 0
    → (bit_and status status_output_second == 0) ≡ false
    → IsStatus first x y
    → IsShort x
    → IsShort y
    → interrupts s status first (byte_of x) (byte_of y) ≡ record s {
      packet = 0;
      device_mouse_status = first;
      device_mouse_x = moved s.device_mouse_x x s.framebuffer_width_pixel;
      device_mouse_y = moved s.device_mouse_y (opposite y) s.framebuffer_height_pixel;
    }
unfolding driver_ps2_mouse status_packet x_packet y_packet
mouse_moves s status first x y p e c f hx hy =
    rw (c, e, f.one, f.no_overflow_x, f.no_overflow_y, f.sign_x, f.sign_y)
      (ap₂
        (λ (a b : ℕ). record s {
          packet = 0;
          device_mouse_status = first;
          device_mouse_x = a;
          device_mouse_y = b;
        })
        (x_moved s.device_mouse_x s.framebuffer_width_pixel x p.on_x p.width hx)
        (y_moved s.device_mouse_y s.framebuffer_height_pixel y p.on_y p.height hy))

moved-lt : (at size : ℕ) (x : Way) → at < size → moved at x size < size
moved-lt at size (plus d) l = omega arith
moved-lt at size (minus d) l = omega arith

-- A movement and its first byte.
pub record Movement : Type 0 where
  pub first : ℕ
  pub way_x : Way
  pub way_y : Way

-- The interrupts of movements, one after another.
unfoldable pub interrupts_all : ℕ → Mouse → List Movement → Mouse
interrupts_all status s [] = s
interrupts_all status s (m ∷ ms) =
    interrupts_all status (interrupts s status m.first (byte_of m.way_x) (byte_of m.way_y)) ms

abbrev pub AllShort : List Movement → Type 0
AllShort [] = Unit {0}
AllShort (m ∷ ms) =
    IsStatus m.first m.way_x m.way_y × IsShort m.way_x × IsShort m.way_y × AllShort ms

-- Let the pointer be on a screen with sizes of 16 bits, let the next byte be a first one, and let the
-- controller say that its bytes are from the second port. After any movements by at most 127 pixels
-- on each axis, each with a first byte that has the bit that is always set, no overflow and its signs,
-- the pointer is on the screen, and the next byte is a first one.
pub mouse_stays :
    (status : ℕ) (s : Mouse) (ms : List Movement)
    → IsPlaced s
    → s.packet ≡ 0
    → (bit_and status status_output_second == 0) ≡ false
    → AllShort ms
    → IsPlaced (interrupts_all status s ms) × ((interrupts_all status s ms).packet ≡ 0)
unfolding interrupts_all
mouse_stays status s [] p e c h = (p, e)
mouse_stays status s (m ∷ ms) p e c (f, hx, hy, rest) =
    let t = interrupts s status m.first (byte_of m.way_x) (byte_of m.way_y) in
    let k = mouse_moves s status m.first m.way_x m.way_y p e c f hx hy in
    let placed : IsPlaced t = rw k record {
      on_x = moved-lt s.device_mouse_x s.framebuffer_width_pixel m.way_x p.on_x;
      on_y = moved-lt s.device_mouse_y s.framebuffer_height_pixel (opposite m.way_y) p.on_y;
      width = p.width;
      height = p.height;
    } in
    mouse_stays status t ms placed (ap (λ (u : Mouse). u.packet) k) c rest

-- Let the pointer be on a screen of less than 2 ^ 15 columns, let the second byte of a movement be
-- next, let the first one have had no sign on the X axis, and let the controller say that the byte is
-- from the second port. A movement to the right by 128 pixels or more, whose end would be
-- a column below 256, moves the pointer to the left and off the screen.
pub mouse_leaves :
    (s : Mouse) (status d : ℕ)
    → IsPlaced s
    → s.framebuffer_width_pixel < 2 ^ 15
    → s.packet ≡ 1
    → (bit_and status status_output_second == 0) ≡ false
    → (bit_and s.device_mouse_status x_signed == 0) ≡ true
    → 0x80 ≤ d
    → s.device_mouse_x + d < 0x100
    → ((driver_ps2_mouse s status d).device_mouse_x ≡ s.device_mouse_x + 2 ^ 16 + d - 0x100)
      × (s.framebuffer_width_pixel ≤ (driver_ps2_mouse s status d).device_mouse_x)
unfolding driver_ps2_mouse x_packet forward
mouse_leaves s status d p w e c f l h =
    rw (c, e, f) (ground (arith, p.on_x), ground (arith, p.on_x))
