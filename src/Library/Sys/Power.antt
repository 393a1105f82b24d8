-- ===== src/Library/Sys/Power.antt =====
-- pow against the power of numbers.
use fern_night.Prelude.{
  ℕ, zero, suc, ◌+◌, ◌*◌, ◌/◌, ◌%◌, ◌^◌, ◌<◌, some, ◌≡◌, ap, sym, ◌∙◌, arith, pow-suc,
}
use native.Mathlib.Decide.{ℕ_discrete}
use native.Mathlib.Nat.{pow-zero}
use fern_night.Library.Sys.{power, pow}

-- Factors may be reduced modulo 2 ^ 64.
reduced_factor : (c a : ℕ) → c * (a % 2 ^ 64) % 2 ^ 64 ≡ c * a % 2 ^ 64
reduced_factor c a =
    let parts : c * a ≡ c * (a / 2 ^ 64 * 2 ^ 64 + a % 2 ^ 64) =
      ap (λ (t : ℕ). c * t) (omega arith) in
    omega (arith, parts)

same_factor : (c a b : ℕ) → a % 2 ^ 64 ≡ b % 2 ^ 64 → c * a % 2 ^ 64 ≡ c * b % 2 ^ 64
same_factor c a b e =
    sym (reduced_factor c a) ∙ ap (λ (t : ℕ). c * t % 2 ^ 64) e ∙ reduced_factor c b

swapped : (a b : ℕ) → a * b ≡ b * a
swapped a b = omega arith

reduced_base : (k x : ℕ) → (x % 2 ^ 64) ^ k % 2 ^ 64 ≡ x ^ k % 2 ^ 64
reduced_base zero x = omega (arith, pow-zero (x % 2 ^ 64), pow-zero x)
reduced_base (suc k) x =
    let y = x % 2 ^ 64 in
    ap (λ (t : ℕ). t % 2 ^ 64) (pow-suc y k)
    ∙ reduced_factor (y ^ k) x
    ∙ ap (λ (t : ℕ). t % 2 ^ 64) (swapped (y ^ k) x)
    ∙ same_factor x (y ^ k) (x ^ k) (reduced_base k x)
    ∙ ap (λ (t : ℕ). t % 2 ^ 64) (swapped x (x ^ k) ∙ sym (pow-suc x k))

associated : (a b : ℕ) → a * (b * b) ≡ a * b * b
associated a b = omega arith

square_power : (b k : ℕ) → (b * b) ^ k ≡ b ^ (2 * k)
square_power b zero = pow-zero (b * b) ∙ sym (pow-zero b)
square_power b (suc k) =
    let twice : 2 * suc k ≡ suc (suc (2 * k)) = omega arith in
    let unfolded : b ^ (2 * suc k) ≡ b ^ (2 * k) * b * b =
      ap (λ (t : ℕ). b ^ t) twice
      ∙ pow-suc b (suc (2 * k))
      ∙ ap (λ (t : ℕ). t * b) (pow-suc b (2 * k)) in
    pow-suc (b * b) k
    ∙ ap (λ (t : ℕ). t * (b * b)) (square_power b k)
    ∙ associated (b ^ (2 * k)) b
    ∙ sym unfolded

-- A round with an even, and one with an odd exponent.
even_round :
    (result b e : ℕ)
    → e % 2 ≡ 0
    → result * (b * b % 2 ^ 64) ^ (e / 2) % 2 ^ 64 ≡ result * b ^ e % 2 ^ 64
even_round result b e h =
    same_factor result ((b * b % 2 ^ 64) ^ (e / 2)) ((b * b) ^ (e / 2))
      (reduced_base (e / 2) (b * b))
    ∙ ap (λ (t : ℕ). result * t % 2 ^ 64) (square_power b (e / 2))
    ∙ ap (λ (t : ℕ). result * b ^ t % 2 ^ 64) (omega_even e h)
  where
    omega_even : (e : ℕ) → e % 2 ≡ 0 → 2 * (e / 2) ≡ e
    omega_even e h = omega arith

odd_round :
    (result b e : ℕ)
    → e % 2 ≡ 1
    → (result * b % 2 ^ 64) * (b * b % 2 ^ 64) ^ (e / 2) % 2 ^ 64 ≡ result * b ^ e % 2 ^ 64
odd_round result b e h =
    let half : (2 * (e / 2)) / 2 ≡ e / 2 = omega arith in
    let rest = b ^ (2 * (e / 2)) in
    ap (λ (t : ℕ). result * b % 2 ^ 64 * (b * b % 2 ^ 64) ^ t % 2 ^ 64) (sym half)
    ∙ even_round (result * b % 2 ^ 64) b (2 * (e / 2)) (omega arith)
    ∙ ap (λ (t : ℕ). t % 2 ^ 64) (swapped (result * b % 2 ^ 64) rest)
    ∙ reduced_factor rest (result * b)
    ∙ ap (λ (t : ℕ). t % 2 ^ 64)
        (regrouped rest result b ∙ ap (λ (t : ℕ). result * t) (last_factor b e h))
  where
    regrouped : (p r b : ℕ) → p * (r * b) ≡ r * (p * b)
    regrouped p r b = omega arith

    next : (e : ℕ) → e % 2 ≡ 1 → suc (2 * (e / 2)) ≡ e
    next e h = omega arith

    last_factor : (b e : ℕ) → e % 2 ≡ 1 → b ^ (2 * (e / 2)) * b ≡ b ^ e
    last_factor b e h = sym (pow-suc b (2 * (e / 2))) ∙ ap (λ (t : ℕ). b ^ t) (next e h)

without : (result base : ℕ) → result < 2 ^ 64 → result ≡ result * base ^ 0 % 2 ^ 64
without result base l =
    sym (ap (λ (t : ℕ). result * t % 2 ^ 64) (pow-zero base) ∙ one_time result l)
  where
    one_time : (r : ℕ) → r < 2 ^ 64 → r * 1 % 2 ^ 64 ≡ r
    one_time r l = omega arith

power-pow :
    (fuel result base exponent : ℕ)
    → exponent < 2 ^ fuel
    → result < 2 ^ 64
    → power fuel result base exponent ≡ some (result * base ^ exponent % 2 ^ 64)
unfolding power
power-pow zero result base exponent h l = elim (ℕ_discrete exponent 0) [
  | yes z ↦ rw z (ap some (without result base l))
  | no n ↦ absurd (omega arith)
]
power-pow (suc fuel) result base exponent h l = elim (ℕ_discrete exponent 0) [
  | yes z ↦ rw z (ap some (without result base l))
  | no n ↦ elim (ℕ_discrete (exponent % 2) 1) [
    | yes odd ↦ ground (
      arith,
      power-pow fuel (result * base % 2 ^ 64) (base * base % 2 ^ 64) (exponent / 2)
          (omega (arith, pow-suc 2 fuel)) (omega arith),
      odd_round result base exponent odd,
    )
    | no even ↦ ground (
      arith,
      power-pow fuel result (base * base % 2 ^ 64) (exponent / 2) (omega (arith, pow-suc 2 fuel)) l,
      even_round result base exponent (omega arith),
    )
  ]
]

-- `pow` of 64-bit numbers returns the power modulo 2 ^ 64.
pub pow_lem :
    (base exponent : ℕ) → exponent < 2 ^ 64 → pow base exponent ≡ some (base ^ exponent % 2 ^ 64)
unfolding pow
pow_lem base exponent h = power-pow 64 1 base exponent h (omega arith) ∙ ap some (omega arith)
