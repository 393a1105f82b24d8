-- ===== src/Library/Text.antt =====
-- library/shared/string.c. A string is the memory from a pointer on.
pub mod Scan
pub mod Decimal
use fern_night.Prelude.{
  ℕ, zero, suc, ◌+◌, ◌-◌, ◌*◌, ◌%◌, ◌^◌, Bool, true, false, not, ◌&&◌, ◌||◌, Option, none, some,
  ltb, leb, ◌==◌, if◌then◌else◌,
}
use fern_night.Prelude.Machine.{add64, sub64, complement64}

-- The `left` characters from `i` on.
pub compare_from : (ℕ → ℕ) → (ℕ → ℕ) → ℕ → ℕ → Bool
compare_from source target zero i = true
compare_from source target (suc left) i =
    let rest = compare_from source target left (i + 1) in
    if source i == target i then rest else false

pub lib_string_compare : (ℕ → ℕ) → (ℕ → ℕ) → ℕ → Bool
lib_string_compare source target length = compare_from source target length 0

-- The number of characters, from `i` on, that pass a test; on fuel.
pub count_while : (ℕ → Bool) → ℕ → (ℕ → ℕ) → ℕ → Option ℕ
count_while test zero string i = none
count_while test (suc fuel) string i =
    let rest = count_while test fuel string (i + 1) in if test (string i) then rest else some i

abbrev pub is_character : ℕ → Bool
is_character c = not (c == 0)

pub lib_string_length : ℕ → (ℕ → ℕ) → Option ℕ
lib_string_length fuel string = count_while is_character fuel string 0

-- Neither the terminator nor `STATIC_ASCII_NEW_LINE`.
abbrev pub is_in_line : ℕ → Bool
is_in_line c = not (c == 0) && not (c == 0x0A)

pub lib_string_length_line : ℕ → (ℕ → ℕ) → Option ℕ
lib_string_length_line fuel string = count_while is_in_line fuel string 0

-- `STATIC_ASCII_MINUS`, or between `STATIC_ASCII_DIGIT_0` and `STATIC_ASCII_DIGIT_9`
abbrev pub is_digit : ℕ → Bool
is_digit c = (c == 0x2D) || (leb 0x30 c && leb c 0x39)

pub lib_string_length_scope_digit : ℕ → (ℕ → ℕ) → Option ℕ
lib_string_length_scope_digit fuel string = count_while is_digit fuel string 0

-- The value of a digit, in 8 bits; none for what is no digit of any base.
pub digit_value : ℕ → Option ℕ
digit_value digit =
    if leb 0x30 digit && leb digit 0x39
    then some (digit - 0x30)
    else if leb 0x41 digit && leb digit 0x5A
    then some (digit - 0x38)
    else if leb 0x61 digit && leb digit 0x7A
    then some (digit - 0x61)
    else none

-- "calculate": the characters below `index`, the last first.
pub convert : (ℕ → ℕ) → ℕ → ℕ → ℕ → ℕ → ℕ
convert string base zero value order = value
convert string base (suc index) value order =
    let digit = string index in
    elim (digit_value digit) [
      | none ↦ if (digit == 0x2D) && (base == 10) then add64 (complement64 value) 1 else 0
      | some d ↦
          convert string base index (add64 value (d * order % 2 ^ 64)) (order * base % 2 ^ 64)
    ]

-- `none`: the string of digits is longer than the fuel.
pub lib_string_to_integer : ℕ → (ℕ → ℕ) → ℕ → Option ℕ
lib_string_to_integer fuel string base =
    if ltb base 2 || ltb 36 base then some 0 else elim (lib_string_length_scope_digit fuel string) [
      | none ↦ none
      | some index ↦ some (if index == 2 ^ 64 - 1 then 0 else convert string base index 0 1)
    ]

-- Between `STATIC_ASCII_SPACE` and `STATIC_ASCII_DELETE`.
abbrev pub is_printable : ℕ → Bool
is_printable c = ltb 0x20 c && ltb c 0x7F

-- "check beginning": `left` characters from `i` on.
pub skip_front : (ℕ → ℕ) → ℕ → ℕ → ℕ
skip_front string zero i = i
skip_front string (suc left) i =
    let rest = skip_front string left (i + 1) in if is_printable (string i) then i else rest

-- "check end": from `i + left` down to `i`. The result is the new length.
pub skip_back : (ℕ → ℕ) → ℕ → ℕ → ℕ
skip_back string i zero = i
skip_back string i (suc left) =
    let rest = skip_back string i left in
    if is_printable (string (i + left)) then i + suc left else rest

-- `string[ k ] = string[ k + i ]` for the `left` characters from `k` on.
pub move_down : (ℕ → ℕ) → ℕ → ℕ → ℕ → ℕ → ℕ
move_down string i zero k = string
move_down string i (suc left) k =
    move_down (λ x. if x == k then string (k + i) else string x) i left (k + 1)

-- The new length, and the string.
pub lib_string_trim : (ℕ → ℕ) → ℕ → Bool → ℕ × (ℕ → ℕ)
lib_string_trim string length move =
    let i = skip_front string length 0 in
    let size = skip_back string i (length - i) - i in
    (size, if move && not (i == 0) then move_down string i size 0 else string)

-- `left` characters from `i` on.
pub word_from : (ℕ → ℕ) → ℕ → ℕ → ℕ
word_from string zero i = i
word_from string (suc left) i =
    let rest = word_from string left (i + 1) in
    if leb (string i) 0x20 || leb 0x7F (string i) then i else rest

pub lib_string_word : (ℕ → ℕ) → ℕ → ℕ
lib_string_word string length = word_from string length 0
