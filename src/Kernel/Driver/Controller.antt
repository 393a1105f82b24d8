-- ===== src/Kernel/Driver/Controller.antt =====
-- The controller in kernel/driver/ps2.c: its two ports and the set-up of the devices.
use fern_night.Prelude.{
  ℕ, ◌+◌, ◌/◌, ◌^◌, ◌<◌, bit_and, bit_or, Bool, true, false, not, ◌&&◌, ◌≡◌, refl, Option, none,
  some, List, [], ◌∷◌, ◌++◌, ◌==◌, if◌then◌else◌, Bool-cases, inl, inr, arith,
}
use fern_night.Kernel.Driver.Mouse.{Mouse}
use fern_night.Kernel.Driver.Mouse.Packets.{IsPlaced}

-- `DRIVER_PS2_STATUS_output` and `DRIVER_PS2_STATUS_input`
abbrev pub status_output : ℕ
status_output = 0x01

abbrev pub status_input : ℕ
status_input = 0x02

-- "wait for output data", on the states that the controller tells one after another; `none` where
-- the loop does not end. What is left are the later states.
unfoldable pub driver_ps2_check_read : List ℕ → Option (List ℕ)
driver_ps2_check_read [] = none
driver_ps2_check_read (status ∷ later) =
    let rest = driver_ps2_check_read later in
    if not (bit_and status status_output == 0) then some later else rest

-- "wait for input data"
unfoldable pub driver_ps2_check_write : List ℕ → Option (List ℕ)
driver_ps2_check_write [] = none
driver_ps2_check_write (status ∷ later) =
    let rest = driver_ps2_check_write later in
    if bit_and status status_input == 0 then some later else rest

-- "flush PS2 controller output buffer": how many bytes are dropped
unfoldable pub driver_ps2_drain : List ℕ → ℕ → Option (ℕ × List ℕ)
driver_ps2_drain [] dropped = none
driver_ps2_drain (status ∷ later) dropped =
    let rest = driver_ps2_drain later (dropped + 1) in
    if bit_and status status_output == 0 then some (dropped, later) else rest

-- What the set-up sends to the controller, and the interrupts that it connects: the number of the
-- interrupt, and the register of the I/O APIC.
pub data Action : Type 0 where
  command : ℕ → Action
  data_write : ℕ → Action
  connect : ℕ → ℕ → Action

-- `DRIVER_PS2_ANSWER_ACKNOWLEDGED` and `DRIVER_PS2_ANSWER_SELF_TEST_SUCCESS`
abbrev pub acknowledged : ℕ
acknowledged = 0xFA

abbrev pub self_test_success : ℕ
self_test_success = 0xAA

-- `driver_ps2_command( DRIVER_PS2_COMMAND_PORT_SECOND ); driver_ps2_data_write( ... );`
abbrev pub to_mouse : ℕ → List Action
to_mouse byte = command 0xD4 ∷ data_write byte ∷ []

-- `KERNEL_IDT_IRQ_offset + ..._IRQ_number`, and the registers `KERNEL_IO_APIC_iowin + ...`
abbrev pub connect_mouse : Action
connect_mouse = connect 0x2C 0x28

abbrev pub connect_keyboard : Action
connect_keyboard = connect 0x21 0x12

-- `(configuration | ..._SECOND_INTERRUPT) & ~..._SECOND_CLOCK`
abbrev pub configured : ℕ → ℕ
configured configuration = bit_and (bit_or configuration 0x02) 0xDF

-- The part about the mouse, and its type; `answer` are the bytes of `driver_ps2_data_read`, in order.
unfoldable pub init_mouse : (ℕ → ℕ) → ℕ → List Action × ℕ
init_mouse answer mouse_type =
    if not (answer 1 == acknowledged)
    then ([], mouse_type)
    else if not (answer 2 == self_test_success)
    then ([], mouse_type)
    else if not (answer 4 == acknowledged)
    then (to_mouse 0xF6, answer 3)
    else if not (answer 5 == acknowledged)
    then (to_mouse 0xF6 ++ to_mouse 0xF4, answer 3)
    else (to_mouse 0xF6 ++ to_mouse 0xF4 ++ connect_mouse ∷ [], answer 3)

-- The set-up once the buffer is drained, with the state of the pointer and the mouse's type.
unfoldable pub driver_ps2_init : (ℕ → ℕ) → ℕ → Mouse → List Action × ℕ × Mouse
driver_ps2_init answer mouse_type s =
    let (of_mouse, type) = init_mouse answer mouse_type in
    (
      command 0x20 ∷ command 0x60 ∷ data_write (configured (answer 0)) ∷ to_mouse 0xFF
          ++ of_mouse
          ++ connect_keyboard ∷ [],
      type,
      record s {
        device_mouse_x = s.framebuffer_width_pixel / 2;
        device_mouse_y = s.framebuffer_height_pixel / 2;
      },
    )

-- Whether an interrupt is connected.
unfoldable pub connects : ℕ → List Action → Bool
connects irq [] = false
connects irq (command c ∷ actions) = connects irq actions
connects irq (data_write d ∷ actions) = connects irq actions
connects irq (connect i r ∷ actions) = if i == irq then true else connects irq actions

-- The device is a mouse that works: it accepts its reset, passes its test, and accepts the commands
-- for defaults and for packets.
abbrev pub works : (ℕ → ℕ) → Bool
works answer =
    answer 1 == acknowledged
    && answer 2 == self_test_success
    && answer 4 == acknowledged
    && answer 5 == acknowledged

-- On a screen with sizes of 16 bits that are not 0, the set-up connects the keyboard in any case,
-- connects the mouse exactly if it works (it accepts its reset, passes its test, and accepts the
-- commands for defaults and for packets), and puts the pointer on the screen.
pub ps2_init_lem :
    (answer : ℕ → ℕ) (mouse_type : ℕ) (s : Mouse)
    → 0 < s.framebuffer_width_pixel
    → s.framebuffer_width_pixel < 2 ^ 16
    → 0 < s.framebuffer_height_pixel
    → s.framebuffer_height_pixel < 2 ^ 16
    → let (actions, _, t) = driver_ps2_init answer mouse_type s in
      (connects 0x21 actions ≡ true) × (connects 0x2C actions ≡ works answer) × IsPlaced t
unfolding driver_ps2_init init_mouse connects
ps2_init_lem answer mouse_type s w w' h h' =
    let placed : IsPlaced (driver_ps2_init answer mouse_type s).2 = record {
      on_x = omega arith;
      on_y = omega arith;
      width = w';
      height = h';
    } in
    elim (Bool-cases (answer 1 == acknowledged)) [
      | inr a ↦ rw a (refl, refl, placed)
      | inl a ↦ elim (Bool-cases (answer 2 == self_test_success)) [
        | inr b ↦ rw (a, b) (refl, refl, placed)
        | inl b ↦ elim (Bool-cases (answer 4 == acknowledged)) [
          | inr c ↦ rw (a, b, c) (refl, refl, placed)
          | inl c ↦ elim (Bool-cases (answer 5 == acknowledged)) [
            | inr d ↦ rw (a, b, c, d) (refl, refl, placed)
            | inl d ↦ rw (a, b, c, d) (refl, refl, placed)
          ]
        ]
      ]
    ]
