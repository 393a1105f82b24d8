-- ===== src/Library/Text/Decimal.antt =====
-- lib_string_to_integer in base 10.
use fern_night.Prelude.{
  ℕ, zero, suc, ◌+◌, ◌-◌, ◌*◌, ◌/◌, ◌%◌, ◌^◌, ◌≤◌, ◌<◌, true, false, some, ◌≡◌, ap, arith,
}
use fern_night.Prelude.Machine.{add64}
use fern_night.Library.Text.{
  is_digit, lib_string_length_scope_digit, digit_value, convert, lib_string_to_integer,
}
use fern_night.Library.Text.Scan.{count_while-first}

-- The number that `n` decimal digits stand for.
unfoldable pub number : (ℕ → ℕ) → ℕ → ℕ
number string zero = 0
number string (suc n) = number string n * 10 + (string n - 0x30)

abbrev pub IsDecimal : (ℕ → ℕ) → ℕ → Type 0
IsDecimal string n = (x : ℕ) → x < n → (0x30 ≤ string x) × (string x ≤ 0x39)

mod_step :
    (value order d n : ℕ)
    → (add64 value (d * order % 2 ^ 64) + order * 10 % 2 ^ 64 * n) % 2 ^ 64
      ≡ (value + order * (n * 10 + d)) % 2 ^ 64
mod_step value order d n =
    let carried : order * 10 * n ≡ (order * 10 % 2 ^ 64 + order * 10 / 2 ^ 64 * 2 ^ 64) * n =
      ap (λ (t : ℕ). t * n) (omega arith) in
    omega (arith, carried)

convert-number :
    (string : ℕ → ℕ) (n value order : ℕ)
    → IsDecimal string n
    → value < 2 ^ 64
    → convert string 10 n value order ≡ (value + order * number string n) % 2 ^ 64
unfolding convert number digit_value
convert-number string zero value order digits h = omega arith
convert-number string (suc n) value order digits h = ground (
  arith,
  digits n (omega arith),
  convert-number string n (add64 value ((string n - 0x30) * order % 2 ^ 64)) (order * 10 % 2 ^ 64)
      (λ x l. digits x (omega arith)) (omega arith),
  mod_step value order (string n - 0x30) (number string n),
)

-- The digits behind a minus sign.
abbrev pub behind : (ℕ → ℕ) → ℕ → ℕ
behind string x = string (suc x)

convert-minus :
    (string : ℕ → ℕ) (n value order : ℕ)
    → string 0 ≡ 0x2D
    → IsDecimal (behind string) n
    → value < 2 ^ 64
    → convert string 10 (suc n) value order
      ≡ (2 ^ 64 - (value + order * number (behind string) n) % 2 ^ 64) % 2 ^ 64
unfolding convert number digit_value
convert-minus string zero value order minus digits h = ground (arith, minus)
convert-minus string (suc n) value order minus digits h = ground (
  arith,
  digits n (omega arith),
  convert-minus string n (add64 value ((string (suc n) - 0x30) * order % 2 ^ 64))
      (order * 10 % 2 ^ 64) minus (λ x l. digits x (omega arith)) (omega arith),
  mod_step value order (string (suc n) - 0x30) (number (behind string) n),
)

scope-digits :
    (fuel : ℕ) (string : ℕ → ℕ) (n : ℕ)
    → ((x : ℕ) → x < n → is_digit (string x) ≡ true)
    → is_digit (string n) ≡ false
    → n < fuel
    → lib_string_length_scope_digit fuel string ≡ some n
unfolding lib_string_length_scope_digit
scope-digits fuel string n digits end l =
    count_while-first is_digit fuel string 0 n (omega arith) (omega arith) (λ x a b. digits x b) end

-- `n` decimal digits before a character that is neither a digit nor a minus sign, with `n` below 2
-- ^ 64 - 1, are read as their number modulo 2 ^ 64.
pub string_to_integer-decimal :
    (fuel : ℕ) (string : ℕ → ℕ) (n : ℕ)
    → n < fuel
    → n < 2 ^ 64 - 1
    → IsDecimal string n
    → is_digit (string n) ≡ false
    → lib_string_to_integer fuel string 10 ≡ some (number string n % 2 ^ 64)
unfolding lib_string_to_integer
string_to_integer-decimal fuel string n enough small digits end = ground (
  arith,
  scope-digits fuel string n (λ x l. ground (arith, digits x l)) end (omega arith),
  convert-number string n 0 1 digits (omega arith),
)

signed_scope :
    (string : ℕ → ℕ) (n : ℕ)
    → string 0 ≡ 0x2D
    → IsDecimal (behind string) n
    → (x : ℕ) → x < suc n
    → is_digit (string x) ≡ true
signed_scope string n minus digits zero l = ground (arith, minus)
signed_scope string n minus digits (suc x) l = ground (arith, digits x (omega arith))

-- `n` decimal digits between a minus sign at the start and a character that is neither a digit nor
-- a minus sign, with `n + 2` below 2 ^ 64, are read as the opposite of their number, in two's
-- complement of 64 bits.
pub string_to_integer-negative :
    (fuel : ℕ) (string : ℕ → ℕ) (n : ℕ)
    → n + 1 < fuel
    → n + 2 < 2 ^ 64
    → string 0 ≡ 0x2D
    → IsDecimal (behind string) n
    → is_digit (string (suc n)) ≡ false
    → lib_string_to_integer fuel string 10
      ≡ some ((2 ^ 64 - number (behind string) n % 2 ^ 64) % 2 ^ 64)
unfolding lib_string_to_integer
string_to_integer-negative fuel string n enough small minus digits end = ground (
  arith,
  scope-digits fuel string (suc n) (signed_scope string n minus digits) end (omega arith),
  convert-minus string n 0 1 minus digits (omega arith),
)
