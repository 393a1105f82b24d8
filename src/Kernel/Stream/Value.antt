-- ===== src/Kernel/Stream/Value.antt =====
-- kernel_stream_out_value: a number printed into a stream.
pub mod Digits
use fern_night.Prelude.{
  ℕ, zero, suc, ◌+◌, ◌-◌, ◌/◌, ◌%◌, ◌^◌, Bool, true, false, ◌||◌, Option, some, ltb, ◌==◌,
  if◌then◌else◌,
}
use fern_night.Prelude.Machine.{add64, sub64}
use fern_night.Kernel.Memory.{store}
use fern_night.Kernel.Stream.{Stream, kernel_stream_out}

-- `uint8_t string[ 64 ] = { [0 ... 62] = character, [63] = STATIC_ASCII_DIGIT_0 }`, with what lies
-- behind it on the stack.
pub buffer : (ℕ → ℕ) → ℕ → ℕ → ℕ
buffer stack character j = if ltb j 63 then character else if j == 63 then 0x30 else stack j

-- `if( digit < 10 ) string[ i ] = digit + STATIC_ASCII_DIGIT_0; else ... + STATIC_ASCII_DIGIT_7;`
abbrev pub ascii : ℕ → ℕ
ascii digit = (if ltb digit 10 then digit + 0x30 else digit + 0x37) % 2 ^ 8

-- The loop over the digits, with the buffer and the 8-bit index. A value has at most 64 digits.
pub digits : ℕ → ℕ → ℕ → ℕ → (ℕ → ℕ) → (ℕ → ℕ) × ℕ
digits zero value base i string = (string, i)
digits (suc fuel) value base i string = elim (value == 0) [
  | true ↦ (string, i)
  | false ↦
      let at = (i + 255) % 2 ^ 8 in
      digits fuel (value / base) base at (store string at (ascii (value % base % 2 ^ 8)))
]

pub kernel_stream_out_value : Stream → (ℕ → ℕ) → ℕ → ℕ → ℕ → ℕ → Option Stream
kernel_stream_out_value s stack value base prefix character =
    let prefix' = if prefix == 0 then 1 else prefix in
    let empty = buffer stack character in
    let (string, i) = digits 64 value base 64 empty in
    let i' = if ltb prefix' i then prefix' else i in
    if ltb base 2 || ltb 36 base
    then some s
    else if value == 0
    then kernel_stream_out s (λ j. empty (add64 (sub64 64 prefix') j)) prefix'
    else kernel_stream_out s (λ j. string (i' + 1 + j)) i'
