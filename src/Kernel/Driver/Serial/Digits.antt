-- ===== src/Kernel/Driver/Serial/Digits.antt =====
-- The characters of driver_serial_value are the digits of the value.
use native.Mathlib.Nat.{div-add-mod, mod-lt, div-lt_iff_lt-mul, mul-le-mul_left}
use native.Mathlib.Decide.{ℕ_discrete}
use fern_night.Prelude.{
  ◌⊎◌, some, ℕ, zero, suc, ◌+◌, ◌-◌, ◌*◌, ◌/◌, ◌%◌, ◌^◌, ◌≤◌, ◌<◌, false, ◌||◌, ◌≡◌, refl, ap, ◌∙◌,
  List, [], ◌∷◌, ltb, ◌==◌, if◌then◌else◌, max, length, Bool-cases, inl, inr, arith, pow-suc,
}
use fern_night.Kernel.Memory.{store}
use fern_night.Kernel.Driver.Serial.{ascii, digits, pad, backwards, driver_serial_value}

-- The digit of a character.
abbrev pub digit_of : ℕ → ℕ
digit_of c = if ltb c 0x3A then c - 0x30 else c - 0x37

-- Characters read as a number, the first of them the highest; `n` is what was read before.
unfoldable pub number : ℕ → ℕ → List ℕ → ℕ
number base n [] = n
number base n (c ∷ cs) = number base (n * base + digit_of c) cs

digit-ascii : (d : ℕ) → d < 36 → digit_of (ascii d) ≡ d
digit-ascii d h = ground arith

-- What stands from `n` on does not matter to the first `n` characters.
number-store :
    (base n acc j c : ℕ) (array : ℕ → ℕ)
    → n ≤ j
    → number base acc (backwards n (store array j c)) ≡ number base acc (backwards n array)
unfolding number backwards
number-store base zero acc j c array h = refl
number-store base (suc n) acc j c array h =
    let e : (j == n) ≡ false = ground arith in
    rw e (number-store base n (acc * base + digit_of (array n)) j c array (omega arith))

-- The quotient and the remainder by the base.
whole : (value base : ℕ) → value / base * base + value % base ≡ value
whole value base = grind (arith, div-add-mod value base)

half-lt : (value base fuel : ℕ) → 1 < base → value < 2 ^ suc fuel → value / base < 2 ^ fuel
half-lt value base fuel l v =
    let p : 2 ≤ base = omega arith in
    (div-lt_iff_lt-mul (omega arith)).1
      (omega (arith, pow-suc 2 fuel, mul-le-mul_left (2 ^ fuel) p))

-- The loop leaves the digits of the value above those that were there.
number-digits :
    (fuel value base i : ℕ) (array : ℕ → ℕ)
    → 1 < base
    → base ≤ 36
    → value < 2 ^ fuel
    → i + fuel < 2 ^ 8
    → let (string, i') = digits fuel value base i array in
      number base 0 (backwards i' string) ≡ number base value (backwards i array)
unfolding digits number backwards
number-digits zero value base i array l h v f = let e : value ≡ 0 = omega arith in rw e refl
number-digits (suc fuel) value base i array l h v f = elim (Bool-cases (value == 0)) [
  | inl e ↦ let z : value ≡ 0 = ground arith in rw z refl
  | inr e ↦
      let at : (i + 1) % 2 ^ 8 ≡ suc i = omega arith in
      let m : value % base < base = mod-lt value (omega arith) in
      let small : value % base % 2 ^ 8 ≡ value % base = omega arith in
      let half : value / base < 2 ^ fuel = half-lt value base fuel l v in
      let array' = store array i (ascii (value % base)) in
      let self : array' i ≡ ascii (value % base) = ground arith in
      rw (e, at, small)
        (number-digits fuel (value / base) base (suc i) array' l h half (omega arith)
          ∙ ap (λ (k : ℕ). number base k (backwards i array'))
              (rw (self, digit-ascii (value % base) (omega arith)) (whole value base))
          ∙ number-store base i value i (ascii (value % base)) array (omega arith))
]

number-pad :
    (base n i : ℕ) (array : ℕ → ℕ)
    → number base 0 (backwards (n + i) (pad n i array)) ≡ number base 0 (backwards i array)
unfolding pad number backwards
number-pad base zero i array = let e : 0 + i ≡ i = omega arith in rw e refl
number-pad base (suc n) i array =
    let e : suc n + i ≡ n + suc i = omega arith in
    let array' = store array i 0x30 in
    let self : array' i ≡ 0x30 = ground arith in
    rw e (
      number-pad base n (suc i) array'
      ∙ ap (λ (k : ℕ). number base k (backwards i array')) (rw self (omega arith))
      ∙ number-store base i 0 i 0x30 array (omega arith))

length-backwards : (i : ℕ) (array : ℕ → ℕ) → length (backwards i array) ≡ i
unfolding backwards
length-backwards zero array = refl
length-backwards (suc i) array = ap suc (length-backwards i array)

-- A character from "0" to "9" or from "A" to "Z" that stands for a digit of the base.
abbrev pub IsDigit : ℕ → ℕ → Type 0
IsDigit base c = ((0x30 ≤ c) × (c < 0x3A) ⊎ (0x41 ≤ c) × (c ≤ 0x5A)) × (digit_of c < base)

abbrev pub AllDigits : ℕ → List ℕ → Type 0
AllDigits base [] = Unit {0}
AllDigits base (c ∷ cs) = IsDigit base c × AllDigits base cs

ascii-IsDigit : (base d : ℕ) → base ≤ 36 → d < base → IsDigit base (ascii d)
ascii-IsDigit base d l h = ground arith

-- Arrays whose first `i` bytes are digits.
abbrev HasDigits : ℕ → ℕ → (ℕ → ℕ) → Type 0
HasDigits base i array = (j : ℕ) → j < i → IsDigit base (array j)

store-HasDigits :
    (base i c : ℕ) (array : ℕ → ℕ)
    → HasDigits base i array
    → IsDigit base c
    → HasDigits base (suc i) (store array i c)
store-HasDigits base i c array h k j l = elim (ℕ_discrete j i) [
  | yes e ↦ rw e (let self : store array i c i ≡ c = ground arith in rw self k)
  | no n ↦ let other : store array i c j ≡ array j = ground arith in rw other (h j (ground arith))
]

-- The loop stores digits, and its index stays within the number of digits.
digits-HasDigits :
    (fuel value base i : ℕ) (array : ℕ → ℕ)
    → 1 < base
    → base ≤ 36
    → i + fuel < 2 ^ 8
    → HasDigits base i array
    → let (string, i') = digits fuel value base i array in
      HasDigits base i' string × (i' ≤ i + fuel)
unfolding digits
digits-HasDigits zero value base i array l h f a = (a, omega arith)
digits-HasDigits (suc fuel) value base i array l h f a = elim (Bool-cases (value == 0)) [
  | inl e ↦ rw e (a, omega arith)
  | inr e ↦
      let at : (i + 1) % 2 ^ 8 ≡ suc i = omega arith in
      let m : value % base < base = mod-lt value (omega arith) in
      let small : value % base % 2 ^ 8 ≡ value % base = omega arith in
      let c = ascii (value % base) in
      rw (e, at, small)
        (let (k, n) =
            digits-HasDigits fuel (value / base) base (suc i) (store array i c) l h (omega arith)
              (store-HasDigits base i c array a (ascii-IsDigit base (value % base) h m)) in
          (k, omega (arith, n)))
]

pad-HasDigits :
    (base n i k : ℕ) (array : ℕ → ℕ)
    → 1 < base
    → k ≡ n + i
    → HasDigits base i array
    → HasDigits base k (pad n i array)
unfolding pad
pad-HasDigits base zero i k array l e h = λ j b. h j (omega (arith, e, b))
pad-HasDigits base (suc n) i k array l e h =
    pad-HasDigits base n (suc i) k (store array i 0x30) l (omega (arith, e))
      (store-HasDigits base i 0x30 array h (ground arith))

backwards-AllDigits :
    (base i : ℕ) (array : ℕ → ℕ) → HasDigits base i array → AllDigits base (backwards i array)
unfolding backwards
backwards-AllDigits base zero array h = tt
backwards-AllDigits base (suc i) array h =
    (h i (omega arith), backwards-AllDigits base i array (λ j l. h j (omega (arith, l))))

-- For a base from 2 to 36, a value of 64 bits and a prefix of at most 64, driver_serial_value sends
-- digits of the base, "0" to "9" and "A" to "Z", which give the value when they are read in the base.
-- The answer is how many there are, at most 64, and there are at least one and at least `prefix`. The
-- character to pad with does not matter.
pub serial_value_lem :
    (value base prefix character : ℕ)
    → 1 < base
    → base ≤ 36
    → value < 2 ^ 64
    → prefix ≤ 64
    → (sent : List ℕ) × (answer : ℕ) × (driver_serial_value value base prefix character
        ≡ some (sent, answer))
      × AllDigits base sent
      × (number base 0 sent ≡ value)
      × (length sent ≡ answer)
      × (max 1 prefix ≤ answer)
      × (answer ≤ 64)
unfolding driver_serial_value number backwards
serial_value_lem value base prefix character l h v p =
    let e : (ltb base 2 || ltb 36 base) ≡ false = ground arith in
    let array = λ (j : ℕ). character in
    let (string, i) = digits 64 value base 0 array in
    let i' = if ltb i prefix then prefix else i in
    let d : number base 0 (backwards i string) ≡ value =
      number-digits 64 value base 0 array l h v (omega arith) in
    let (stored, most) =
      digits-HasDigits 64 value base 0 array l h (omega arith) (λ j b. absurd (omega arith)) in
    let whole_length : i' ≡ i' - i + i = ground arith in
    let inside : ltb 64 i' ≡ false = ground (arith, most) in
    let padded : HasDigits base i' (pad (i' - i) i string) =
      pad-HasDigits base (i' - i) i i' string l whole_length stored in
    elim (Bool-cases (i' == 0)) [
      | inl z ↦
          rw (e, inside, z)
            (let zi : i ≡ 0 = ground arith in
              let zv : 0 ≡ value = rw zi at d in
              (
                _,
                _,
                refl,
                ((inl (omega arith, omega arith), omega arith), tt),
                omega (arith, zv),
                refl,
                ground arith,
                omega arith,
              ))
      | inr z ↦
          rw (e, inside, z)
            (
              _,
              _,
              refl,
              backwards-AllDigits base i' (pad (i' - i) i string) padded,
              ap (λ (k : ℕ). number base 0 (backwards k (pad (i' - i) i string))) whole_length
                  ∙ number-pad base (i' - i) i string
                  ∙ d,
              length-backwards i' (pad (i' - i) i string),
              ground arith,
              ground (arith, most),
            )
    ]
