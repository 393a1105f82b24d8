-- ===== src/Kernel/Driver/Keyboard.antt =====
-- The keyboard of kernel/driver/ps2.c: scancodes become key codes, which wait in a buffer.
pub mod Matrix
pub mod Queue
pub mod Typed
pub mod Letters
pub mod Shift
pub mod Tests
use fern_night.Prelude.{
  ℕ, zero, suc, ◌+◌, ◌-◌, ◌*◌, ◌%◌, ◌^◌, bit_or, Bool, true, false, not, ◌||◌, List, [], ◌∷◌,
  get_or, set, replicate, ltb, leb, ◌==◌, if◌then◌else◌,
}
use Matrix.{driver_ps2_keyboard_matrix_low, driver_ps2_keyboard_matrix_high}

-- `DRIVER_PS2_KEYBOARD_CACHE_limit`
abbrev pub cache_limit : ℕ
cache_limit = 7

-- `DRIVER_PS2_KEYBOARD_sequence` and `DRIVER_PS2_KEYBOARD_sequence_alternative`
abbrev pub sequence : ℕ
sequence = 0xE0

abbrev pub sequence_alternative : ℕ
sequence_alternative = 0xE1

-- `DRIVER_PS2_KEYBOARD_key_release`
abbrev pub key_release : ℕ
key_release = 0x80

-- `DRIVER_PS2_KEYBOARD_PRESS_SHIFT_LEFT`, `_SHIFT_RIGHT` and `_CAPSLOCK`
abbrev pub press_shift_left : ℕ
press_shift_left = 0xE02A

abbrev pub press_shift_right : ℕ
press_shift_right = 0xE036

abbrev pub press_capslock : ℕ
press_capslock = 0xE03A

-- The variables of the driver: `storage` has one more entry than the limit.
pub record Keyboard : Type 0 where
  pub storage : List ℕ
  pub matrix : Bool
  pub scancode : ℕ

abbrev pub initial : Keyboard
initial = record { storage = replicate (cache_limit + 1) 0; matrix = false; scancode = 0 }

-- An entry of a matrix; `behind` is what the memory holds behind
-- each matrix.
abbrev pub matrix_at : (Bool → ℕ → ℕ) → Bool → ℕ → ℕ
matrix_at behind matrix index =
    if not matrix
    then get_or driver_ps2_keyboard_matrix_low index (behind false index)
    else get_or driver_ps2_keyboard_matrix_high index (behind true index)

-- "get ASCII code for key from matrix"
pub translated : (Bool → ℕ → ℕ) → Bool → ℕ → ℕ
translated behind matrix key =
    if leb key_release key
    then (matrix_at behind matrix (key - key_release) + key_release) % 2 ^ 16
    else matrix_at behind matrix key

-- "SHIFT or CAPSLOCK key?"
unfoldable pub is_toggle : ℕ → Bool
is_toggle key =
    key == press_capslock
    || (key == press_shift_left || key == press_shift_right)
    || (key == key_release + press_shift_left || key == key_release + press_shift_right)

-- "in first free space in keyboard buffer", for the entries that are left
unfoldable pub save : ℕ → List ℕ → ℕ → List ℕ
save zero storage key = storage
save (suc n) [] key = []
save (suc n) (k ∷ storage) key = if k == 0 then key ∷ storage else k ∷ save n storage key

-- A key code that is complete.
pub accept : Keyboard → ℕ → Keyboard
accept s key = record {
  storage = save cache_limit s.storage key;
  matrix = if is_toggle key then not s.matrix else s.matrix;
  scancode = 0;
}

-- The key code of a byte that starts no sequence.
pub composed : (Bool → ℕ → ℕ) → Keyboard → ℕ → ℕ
composed behind s key =
    if not (s.scancode == 0) then bit_or key s.scancode else translated behind s.matrix key

-- An interrupt, with the byte that the controller has.
unfoldable pub driver_ps2_keyboard : (Bool → ℕ → ℕ) → Keyboard → ℕ → Keyboard
driver_ps2_keyboard behind s key =
    if key == sequence
    then record s { scancode = key * 2 ^ 8 % 2 ^ 16 }
    else if key == sequence_alternative
    then record s { scancode = key * 2 ^ 8 % 2 ^ 16 }
    else accept s (composed behind s key)

-- "move all characters in buffer forward one position", for the rounds that are left
unfoldable pub forward : ℕ → ℕ → List ℕ → List ℕ
forward zero i storage = storage
forward (suc n) i storage = forward n (suc i) (set storage i (get_or storage (suc i) 0))

-- The key and the buffer, for the process that asks and the framebuffer's manager.
unfoldable pub driver_ps2_keyboard_key_read : ℕ → ℕ → Keyboard → ℕ × Keyboard
driver_ps2_keyboard_key_read pid framebuffer_pid s =
    if not (pid == framebuffer_pid)
    then (0, s)
    else (get_or s.storage 0 0, record s { storage = forward cache_limit 0 s.storage })
