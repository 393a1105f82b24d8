-- ===== src/Library/Terminal/Value.antt =====
-- lib_terminal_value of library/shared/terminal.c.
use fern_night.Prelude.{
  ℕ, zero, suc, ◌+◌, ◌/◌, ◌%◌, ◌||◌, true, false, Option, none, some, List, [], ◌∷◌, ◌++◌, length,
  ltb, ◌==◌, if◌then◌else◌,
}
use fern_night.Library.Terminal.{Font, Terminal, show_all}

-- "convert digit to ASCII"
pub digit_character : ℕ → ℕ
digit_character digit = if ltb digit 10 then digit + 0x30 else digit + 0x37

-- "convert value to individual digits", behind those that are there, the last digit first; a value of
-- 64 bits has at most 64.
pub digits_from : ℕ → ℕ → ℕ → List ℕ
digits_from zero value base = []
digits_from (suc fuel) value base = elim (value == 0) [
  | true ↦ []
  | false ↦ digit_character (value % base) ∷ digits_from fuel (value / base) base
]

-- "display generated digits from value", from the last that was stored
pub backwards : List ℕ → List ℕ
backwards [] = []
backwards (c ∷ string) = backwards string ++ (c ∷ [])

-- The loop is left after the index -1: the byte `before` in front of the array is shown too. `none`:
-- the digits do not fit in its 20 bytes.
pub lib_terminal_value : Font → Terminal → ℕ → ℕ → ℕ → Option Terminal
lib_terminal_value font t before value base =
    let string = if value == 0 then b'0' ∷ [] else digits_from 64 value base in
    if ltb base 2 || ltb 36 base
    then some t
    else if ltb 20 (length string)
    then none
    else some (show_all font t (backwards string ++ (before ∷ [])))
