-- ===== src/Kernel/Driver/Serial.antt =====
-- kernel/driver/serial.c and kernel/log.c. What is sent is the list of the characters, once the
-- controller is not busy.
pub mod Digits
pub mod Tests
use fern_night.Prelude.{
  ℕ, zero, suc, ◌+◌, ◌-◌, ◌*◌, ◌/◌, ◌%◌, ◌^◌, Bool, true, false, not, ◌&&◌, ◌||◌, List, [], ◌∷◌,
  Option, none, some, ◌>>=◌, ◌++◌, ltb, ◌==◌, if◌then◌else◌,
}
use fern_night.Kernel.Memory.{store}

-- `driver_port_out_byte` of the registers, in order
unfoldable pub driver_serial : List (ℕ × ℕ)
driver_serial =
    (0x3F9, 0x00)
    ∷ (0x3FB, 0x80)
    ∷ (0x3F8, 0x03)
    ∷ (0x3F9, 0x00)
    ∷ (0x3FB, 0x03)
    ∷ (0x3FA, 0xC7)
    ∷ (0x3FC, 0x0B)
    ∷ []

-- The characters of a string from `i` on, for the rounds that are left.
unfoldable pub driver_serial_string : ℕ → (ℕ → ℕ) → ℕ → List ℕ
driver_serial_string zero string i = []
driver_serial_string (suc n) string i = string i ∷ driver_serial_string n string (i + 1)

-- `if( digit < 10 ) array[ i ] = digit + STATIC_ASCII_DIGIT_0; else ... + STATIC_ASCII_DIGIT_7;`
abbrev pub ascii : ℕ → ℕ
ascii digit = (if ltb digit 10 then digit + 0x30 else digit + 0x37) % 2 ^ 8

-- "convert value to single digits", with the array and the 8-bit index. A value has at most 64 digits.
unfoldable pub digits : ℕ → ℕ → ℕ → ℕ → (ℕ → ℕ) → (ℕ → ℕ) × ℕ
digits zero value base i array = (array, i)
digits (suc fuel) value base i array =
    let rest =
      digits fuel (value / base) base ((i + 1) % 2 ^ 8)
        (store array i (ascii (value % base % 2 ^ 8))) in
    if value == 0 then (array, i) else rest

-- `for( ; i < prefix; i++ ) array[ i ] = STATIC_ASCII_DIGIT_0;`, for the rounds that are left
unfoldable pub pad : ℕ → ℕ → (ℕ → ℕ) → ℕ → ℕ
pad zero i array = array
pad (suc n) i array = pad n (suc i) (store array i 0x30)

-- `do { driver_serial_char( array[ --i ] ); } while( i );`
unfoldable pub backwards : ℕ → (ℕ → ℕ) → List ℕ
backwards zero array = []
backwards (suc i) array = array i ∷ backwards i array

-- The characters and the answer; the base and the prefix have 8 bits. `none`: with a prefix above 64 the
-- loop writes behind the 64 bytes of the array, over what the stack holds there.
unfoldable pub driver_serial_value : ℕ → ℕ → ℕ → ℕ → Option (List ℕ × ℕ)
driver_serial_value value base prefix character =
    if ltb base 2 || ltb 36 base
    then some ([], 0)
    else let (string, i) = digits 64 value base 0 (λ j. character) in
      let i' = if ltb i prefix then prefix else i in
      if ltb 64 i'
      then none
      else if i' == 0
      then some (0x30 ∷ [], 1)
      else some (backwards i' (pad (i' - i) i string), i')

-- "display 16 Bytes from current address", for those that are left
unfoldable pub dump_bytes : ℕ → (ℕ → ℕ) → ℕ → Option (List ℕ)
dump_bytes zero data' position = some []
dump_bytes (suc n) data' position = do
  (sent, _) ← driver_serial_value (data' position) 16 2 0x30
  later ← dump_bytes n data' (position + 1)
  some (0x20 ∷ sent ++ later)

-- The lines of driver_serial_memory, for as many as the length has; `data'` is read from `address` on.
unfoldable pub dump_lines : ℕ → ℕ → (ℕ → ℕ) → ℕ → Option (List ℕ)
dump_lines zero address data' position = some []
dump_lines (suc n) address data' position = do
  (sent, _) ← driver_serial_value ((address + position) % 2 ^ 64) 16 16 0x30
  bytes ← dump_bytes 16 data' position
  later ← dump_lines n address data' (position + 16)
  some ((0x0A ∷ 0x30 ∷ 0x78 ∷ []) ++ sent ++ bytes ++ later)

abbrev pub driver_serial_memory : ℕ → (ℕ → ℕ) → ℕ → Option (List ℕ)
driver_serial_memory address data' length =
    if ltb length (2 ^ 63) then dump_lines ((length + 15) / 16) address data' 0 else some []

-- What a sequence shows, by the character behind the percent sign.
unfoldable pub sequence : ℕ → ℕ → Option (List ℕ)
sequence type argument =
    if type == b'%'
    then some (b'%' ∷ [])
    else if type == b'c'
    then some ((argument % 2 ^ 8) ∷ [])
    else if type == b'd'
    then (driver_serial_value argument 10 1 0x30 >>= λ (sent, _). some sent)
    else if type == b's'
    then some (driver_serial_string 0 (λ i. 0) 0)
    else if type == b'x'
    then (driver_serial_value argument 16 1 0x30 >>= λ (sent, _). some sent)
    else some []

-- Whether a sequence takes an argument.
unfoldable pub takes_argument : ℕ → Bool
takes_argument type = type == b'c' || type == b'd' || type == b's' || type == b'x'

-- kernel_log, on the characters in front of the terminator and the arguments from `a` on.
unfoldable pub kernel_log : List ℕ → (ℕ → ℕ) → ℕ → Option (List ℕ)
kernel_log [] arguments a = some []
kernel_log (c ∷ []) arguments a = some (c ∷ [])
kernel_log (c ∷ d ∷ string) arguments a =
    let after = kernel_log string arguments (if takes_argument d then a + 1 else a) in
    let shown = sequence d (arguments a) >>= λ sent. after >>= λ later. some (sent ++ later) in
    let plain = kernel_log (d ∷ string) arguments a >>= λ later. some (c ∷ later) in
    if c == b'%' then shown else plain
