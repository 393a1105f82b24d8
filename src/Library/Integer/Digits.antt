-- ===== src/Library/Integer/Digits.antt =====
-- lib_integer_to_string in base 10, and its inverse.
use fern_night.Prelude.{
  ℕ, zero, suc, ◌+◌, ◌-◌, ◌*◌, ◌/◌, ◌%◌, ◌^◌, ◌≤◌, ◌<◌, some, ◌==◌, if◌then◌else◌, ◌≡◌, ◌≢◌, refl,
  ap, sym, subst, ◌∙◌, arith, pow-suc,
}
use native.Mathlib.Decide.{ℕ_discrete}
use fern_night.Prelude.Bits.{bit_or-disjoint}
use fern_night.Library.Text.{is_digit, lib_string_to_integer}
use fern_night.Library.Text.Decimal.{number, IsDecimal, string_to_integer-decimal}
use fern_night.Library.Integer.{
  count_digits, lib_integer_digit_count, digit_character, store_digits, lib_integer_to_string,
}

-- The number of decimal digits, for a value below `2 ^ fuel`.
pub digits_of : ℕ → ℕ → ℕ
digits_of zero value = 0
digits_of (suc fuel) value =
    let rest = digits_of fuel (value / 10) in if value == 0 then 0 else rest + 1

digits_of-bound : (fuel value : ℕ) → digits_of fuel value ≤ fuel
unfolding digits_of
digits_of-bound zero value = omega arith
digits_of-bound (suc fuel) value = ground (arith, digits_of-bound fuel (value / 10))

count_digits-digits_of :
    (fuel value digits : ℕ)
    → value < 2 ^ fuel
    → digits + fuel < 256
    → count_digits fuel value 10 digits ≡ some (digits + digits_of fuel value)
unfolding count_digits digits_of
count_digits-digits_of zero value digits h l = ground arith
count_digits-digits_of (suc fuel) value digits h l = ground (
  arith,
  count_digits-digits_of fuel (value / 10) (digits + 1) (omega (arith, pow-suc 2 fuel))
      (omega arith),
)

digit_character-decimal : (d : ℕ) → d < 10 → digit_character d ≡ d + 0x30
unfolding digit_character
digit_character-decimal d h = ground (arith, bit_or-disjoint 4 3 d)

-- The string that `store_digits` leaves: the digits of the value before `n`, the rest as it was.
record Stored (value n : ℕ) (string string' : ℕ → ℕ) : Type 0 where
  pub decimal : IsDecimal string' n
  pub value_is : number string' n ≡ value
  pub rest : (x : ℕ) → n ≤ x → string' x ≡ string x

-- One digit more, at `at`, where the digits of the rest end.
Stored-next :
    (value n at : ℕ) (string string' : ℕ → ℕ)
    → at ≡ n
    → Stored
        (value / 10)
        n
        (λ x. if x == at then digit_character (value % 10) else string x)
        string'
    → Stored value (n + 1) string string'
unfolding number
Stored-next value n at string string' e s =
    let last : string' n ≡ value % 10 + 0x30 =
      ground (arith, s.rest n, digit_character-decimal (value % 10)) in
    record {
      decimal = λ x l. elim (ℕ_discrete x n) [
        | yes t ↦ rw t (omega arith, omega arith)
        | no m ↦ s.decimal x (omega arith)
      ];
      value_is =
          number-next string' n
          ∙ ap (λ (v : ℕ). v * 10 + (string' n - 0x30)) s.value_is
          ∙ (omega arith);
      rest = λ x l. ground (arith, s.rest x);
    }
  where
    next : (n : ℕ) → n + 1 ≡ suc n
    next n = omega arith

    number-next :
        (string : ℕ → ℕ) (n : ℕ) → number string (n + 1) ≡ number string n * 10 + (string n - 0x30)
    number-next string n = ap (number string) (next n)

digits_of-zero : (fuel value : ℕ) → value ≡ 0 → digits_of (suc fuel) value ≡ 0
unfolding digits_of
digits_of-zero fuel value z = ground arith

digits_of-next :
    (fuel value : ℕ) → value ≢ 0 → digits_of (suc fuel) value ≡ digits_of fuel (value / 10) + 1
unfolding digits_of
digits_of-next fuel value n = ground arith

store_digits-Stored :
    (fuel value length index : ℕ) (string : ℕ → ℕ)
    → value < 2 ^ fuel
    → index + fuel < 256
    → length ≡ index + digits_of fuel value
    → (string' : ℕ → ℕ) × (store_digits fuel value 10 length index string ≡ some string')
      × Stored value (digits_of fuel value) string string'
unfolding store_digits number digits_of
store_digits-Stored zero value length index string h l e = (
  string,
  ground arith,
  record { decimal = λ x m. absurd (omega arith); value_is = ground arith; rest = λ x m. refl },
)
store_digits-Stored (suc fuel) value length index string h l e = elim (ℕ_discrete value 0) [
  | yes z ↦ (
    string,
    ground arith,
    subst (λ (n : ℕ). Stored value n string string) (sym (digits_of-zero fuel value z))
        (record { decimal = λ x m. absurd (omega arith); value_is = sym z; rest = λ x m. refl }),
  )
  | no n ↦
      let (string', runs, s) =
        store_digits-Stored fuel (value / 10) length (index + 1)
          (λ x. if x == length - (index + 1) then digit_character (value % 10) else string x)
          (omega (arith, pow-suc 2 fuel)) (omega arith) (ground arith) in
      (
        string',
        ground (arith, runs),
        subst (λ (k : ℕ). Stored value k string string') (sym (digits_of-next fuel value n))
            (Stored-next value (digits_of fuel (value / 10)) (length - (index + 1)) string string'
              (ground arith) s),
      )
]

count_digits-decimal :
    (value : ℕ) → value < 2 ^ 64 → count_digits 64 value 10 0 ≡ some (digits_of 64 value)
count_digits-decimal value h =
    count_digits-digits_of 64 value 0 h (omega arith) ∙ ap some (omega arith)

digits_of-positive : (value : ℕ) → value ≢ 0 → 0 < digits_of 64 value
unfolding digits_of
digits_of-positive value n = ground arith

-- The character of the value 0.
Stored-zero : (string : ℕ → ℕ) → Stored 0 1 string (λ x. if x == 0 then 0x30 else string x)
unfolding number
Stored-zero string = record {
  decimal = λ x l. ground arith;
  value_is = refl;
  rest = λ x l. ground arith;
}

to_string_zero :
    (string : ℕ → ℕ)
    → lib_integer_to_string 0 10 string ≡ some (1, λ x. if x == 0 then 0x30 else string x)
unfolding lib_integer_to_string lib_integer_digit_count count_digits
to_string_zero string = refl

to_string_positive :
    (value : ℕ) (string string' : ℕ → ℕ)
    → value < 2 ^ 64
    → value ≢ 0
    → store_digits 64 value 10 (digits_of 64 value) 0 string ≡ some string'
    → lib_integer_to_string value 10 string ≡ some (digits_of 64 value, string')
unfolding lib_integer_to_string lib_integer_digit_count
to_string_positive value string string' h n e =
    ground (arith, count_digits-decimal value h, digits_of-positive value n, e)

to_string-Stored :
    (value : ℕ) (string : ℕ → ℕ)
    → value < 2 ^ 64
    → (length : ℕ) × (string' : ℕ → ℕ) × (lib_integer_to_string value 10 string
        ≡ some (length, string'))
      × (length ≤ 64)
      × Stored value length string string'
to_string-Stored value string h = elim (ℕ_discrete value 0) [
  | yes z ↦ (
    1,
    _,
    ap (λ (v : ℕ). lib_integer_to_string v 10 string) z ∙ to_string_zero string,
    omega arith,
    subst (λ (v : ℕ). Stored v 1 string (λ x. if x == 0 then 0x30 else string x)) (sym z)
        (Stored-zero string),
  )
  | no n ↦
      let (string', runs, s) =
        store_digits-Stored 64 value (digits_of 64 value) 0 string h (omega arith) (omega arith) in
      (
        digits_of 64 value,
        string',
        to_string_positive value string string' h n runs,
        digits_of-bound 64 value,
        s,
      )
]

-- In base 10, `lib_integer_to_string` returns, and of what it writes to a cleared string
-- `lib_string_to_integer` gives back the value, for every value of 64 bits.
pub to_integer-to_string :
    (fuel value : ℕ) (string : ℕ → ℕ)
    → value < 2 ^ 64
    → 64 < fuel
    → ((x : ℕ) → string x ≡ 0)
    → (length : ℕ) × (string' : ℕ → ℕ) × (lib_integer_to_string value 10 string
        ≡ some (length, string'))
      × (length ≤ 64)
      × IsDecimal string' length
      × ((x : ℕ) → length ≤ x → string' x ≡ 0)
      × (lib_string_to_integer fuel string' 10 ≡ some value)
to_integer-to_string fuel value string h enough clear =
    let (length, string', runs, bound, s) = to_string-Stored value string h in
    let end : string' length ≡ 0 = s.rest length (omega arith) ∙ clear length in
    (
      length,
      string',
      runs,
      bound,
      s.decimal,
      (λ x l. s.rest x l ∙ clear x),
      string_to_integer-decimal fuel string' length (omega arith) (omega arith) s.decimal
            (ap is_digit end)
          ∙ ap some (reduced string' length s.value_is),
    )
  where
    reduced :
        (string' : ℕ → ℕ) (n : ℕ) → number string' n ≡ value → number string' n % 2 ^ 64 ≡ value
    reduced string' n e = omega arith
