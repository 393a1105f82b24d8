-- ===== src/Library/Tests.antt =====
-- The theorems on library/ at concrete strings, numbers and packages.
use fern_night.Prelude.{ℕ, ◌≤◌, some, ◌≡◌, refl, arith}
use fern_night.Library.Text.{lib_string_to_integer}
use fern_night.Library.Text.Decimal.{IsDecimal}
use fern_night.Library.Integer.{lib_integer_to_string}
use fern_night.Library.Integer.Digits.{to_integer-to_string}

abbrev cleared : ℕ → ℕ
cleared x = 0

to_integer-to_string_example :
    (length : ℕ) × (string' : ℕ → ℕ) × (lib_integer_to_string 1024 10 cleared
      ≡ some (length, string'))
    × (length ≤ 64)
    × IsDecimal string' length
    × ((x : ℕ) → length ≤ x → string' x ≡ 0)
    × (lib_string_to_integer 65 string' 10 ≡ some 1024)
to_integer-to_string_example =
    to_integer-to_string 65 1024 cleared (omega arith) (omega arith) (λ x. refl)
