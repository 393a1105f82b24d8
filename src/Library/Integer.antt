-- ===== src/Library/Integer.antt =====
-- library/shared/integer.c.
pub mod Digits
use fern_night.Prelude.{
  ℕ, zero, suc, ◌+◌, ◌-◌, ◌/◌, ◌%◌, ◌^◌, bit_or, Bool, true, false, ◌||◌, Option, none, some, ltb,
  ◌==◌, if◌then◌else◌,
}

-- "parse every digit from value": on fuel, with the digits so far in 8 bits.
pub count_digits : ℕ → ℕ → ℕ → ℕ → Option ℕ
count_digits zero value base digits = if value == 0 then some digits else none
count_digits (suc fuel) value base digits =
    let rest = count_digits fuel (value / base) base ((digits + 1) % 2 ^ 8) in
    if value == 0 then some digits else rest

-- A value of 64 bits has at most 64 digits.
pub lib_integer_digit_count : ℕ → ℕ → Option ℕ
lib_integer_digit_count value base =
    if ltb base 2 then some 0 else elim (count_digits 64 value base 0) [
      | none ↦ none
      | some digits ↦ some (if digits == 0 then digits + 1 else digits)
    ]

-- `STATIC_ASCII_DIGIT_0` is joined to the digit, and what then lies above
-- `STATIC_ASCII_DIGIT_9` is moved to the letters.
pub digit_character : ℕ → ℕ
digit_character digit =
    let character = bit_or digit 0x30 in if ltb 0x39 character then character + 0x07 else character

-- "store first digit from value" at `length - index`.
pub store_digits : ℕ → ℕ → ℕ → ℕ → ℕ → (ℕ → ℕ) → Option (ℕ → ℕ)
store_digits zero value base length index string = if value == 0 then some string else none
store_digits (suc fuel) value base length index string =
    let next = (index + 1) % 2 ^ 8 in
    let rest =
      store_digits fuel (value / base) base length next
        (λ x. if x == length - next then digit_character (value % base) else string x) in
    if value == 0 then some string else rest

-- The length, and the string.
pub lib_integer_to_string : ℕ → ℕ → (ℕ → ℕ) → Option (ℕ × (ℕ → ℕ))
lib_integer_to_string value base string =
    if ltb base 2 || ltb 36 base
    then some (0, string)
    else elim (lib_integer_digit_count value base) [
      | none ↦ none
      | some length ↦
          if value == 0
          then some (length, λ x. if x == 0 then 0x30 else string x)
          else elim (store_digits 64 value base length 0 string) [
            | none ↦ none
            | some string' ↦ some (length, string')
          ]
    ]
