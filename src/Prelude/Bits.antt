-- ===== src/Prelude/Bits.antt =====
-- The bits of a number: `&`, `|` and `~` bit by bit, at every width.
mod Step
use Step.{bit_or_step, bit_and_step}
use Prim.Native.Nat.{
  ℕ, zero, suc, ◌+◌, ◌-◌, ◌*◌, ◌/◌, ◌%◌, ◌^◌, ◌≤◌, ◌<◌, min, max, bit_and, bit_or,
}
use mathlib.Core.Path.{◌≡◌, refl, ap, ◌∙◌}
use mathlib.Core.Logic.{◌≢◌}
use native.Mathlib.Omega.{arith}
use native.Mathlib.Nat.{pow-suc, one-le-pow, mod-lt, div-add-mod, div-div-eq-div-mul}

-- The bit at place `k`, 0 or 1.
unfoldable pub bit_at : ℕ → ℕ → ℕ
bit_at a zero = a % 2
bit_at a (suc k) = bit_at (a / 2) k

pub bit_at-lt : (a k : ℕ) → bit_at a k < 2
unfolding bit_at
bit_at-lt a zero = omega arith
bit_at-lt a (suc k) = bit_at-lt (a / 2) k

pub bit_at_zero : (k : ℕ) → bit_at 0 k ≡ 0
unfolding bit_at
bit_at_zero zero = refl
bit_at_zero (suc k) = bit_at_zero k

pub bit_at-bit_and : (a b k : ℕ) → bit_at (bit_and a b) k ≡ min (bit_at a k) (bit_at b k)
unfolding bit_at
bit_at-bit_and a b zero = omega (arith, bit_and_step a b)
bit_at-bit_and a b (suc k) =
    let e : bit_and a b / 2 ≡ bit_and (a / 2) (b / 2) = omega (arith, bit_and_step a b) in
    ap (λ (t : ℕ). bit_at t k) e ∙ bit_at-bit_and (a / 2) (b / 2) k

pub bit_at-bit_or : (a b k : ℕ) → bit_at (bit_or a b) k ≡ max (bit_at a k) (bit_at b k)
unfolding bit_at
bit_at-bit_or a b zero = omega (arith, bit_or_step a b)
bit_at-bit_or a b (suc k) =
    let e : bit_or a b / 2 ≡ bit_or (a / 2) (b / 2) = omega (arith, bit_or_step a b) in
    ap (λ (t : ℕ). bit_at t k) e ∙ bit_at-bit_or (a / 2) (b / 2) k

two-pow-half : (k : ℕ) → 2 ^ suc k / 2 ≡ 2 ^ k
two-pow-half k = omega (arith, pow-suc 2 k)

pub bit_at-pow_self : (k : ℕ) → bit_at (2 ^ k) k ≡ 1
unfolding bit_at
bit_at-pow_self zero = refl
bit_at-pow_self (suc k) = rw (two-pow-half k) (bit_at-pow_self k)

pub bit_at-pow_ne : (k j : ℕ) → k ≢ j → bit_at (2 ^ k) j ≡ 0
unfolding bit_at
bit_at-pow_ne zero zero h = absurd (h refl)
bit_at-pow_ne zero (suc j) h = bit_at_zero j
bit_at-pow_ne (suc k) zero h = omega (arith, pow-suc 2 k)
bit_at-pow_ne (suc k) (suc j) h = rw (two-pow-half k) (bit_at-pow_ne k j (λ e. h (ap suc e)))

-- `~a` on a word of `n` bits.
pub bit_at-complement : (n a k : ℕ) → a < 2 ^ n → k < n → bit_at (2 ^ n - 1 - a) k + bit_at a k ≡ 1
unfolding bit_at
bit_at-complement zero a k h l = absurd (omega arith)
bit_at-complement (suc n) a zero h l = omega (arith, pow-suc 2 n, one-le-pow n 2)
bit_at-complement (suc n) a (suc k) h l =
    let e : (2 ^ suc n - 1 - a) / 2 ≡ 2 ^ n - 1 - a / 2 =
      omega (arith, pow-suc 2 n, one-le-pow n 2) in
    rw e (bit_at-complement n (a / 2) k (omega (arith, pow-suc 2 n)) (omega arith))

bit_and_zero_fuel : (n a : ℕ) → a ≤ n → bit_and a 0 ≡ 0
bit_and_zero_fuel n zero h = refl
bit_and_zero_fuel zero (suc a) h = absurd (omega arith)
bit_and_zero_fuel (suc n) (suc a) h =
    omega (arith, bit_and_step (suc a) 0, bit_and_zero_fuel n (suc a / 2) (omega arith))

-- `a & (1 << k)`.
pub bit_and-pow : (a k : ℕ) → bit_and a (2 ^ k) ≡ bit_at a k * 2 ^ k
unfolding bit_at
bit_and-pow a zero =
    omega (arith, bit_and_step a 1, bit_and_zero_fuel (a / 2) (a / 2) (omega arith))
bit_and-pow a (suc k) =
    let e : bit_and (a / 2) (2 ^ suc k / 2) ≡ bit_at (a / 2) k * 2 ^ k =
      rw (two-pow-half k) (bit_and-pow (a / 2) k) in
    omega (
      arith,
      bit_and_step a (2 ^ suc k),
      e,
      pow-suc 2 k,
      ap (λ (t : ℕ). bit_at (a / 2) k * t) (pow-suc 2 k),
    )

-- The remainder by a power, one binary digit at a time.
mod-two-mul : (a p : ℕ) → 0 < p → a % (2 * p) ≡ a / 2 % p * 2 + a % 2
mod-two-mul a p h = grind (arith, div-add-mod (a / 2) p, mod-lt (a / 2) h)

-- A mask of `k` low bits is the remainder by `2 ^ k`.
pub bit_and-low_mask : (k a : ℕ) → bit_and a (2 ^ k - 1) ≡ a % 2 ^ k
bit_and-low_mask zero a = omega (arith, bit_and_zero_fuel a a (omega arith))
bit_and-low_mask (suc k) a =
    let e : (2 ^ suc k - 1) / 2 ≡ 2 ^ k - 1 = omega (arith, pow-suc 2 k, one-le-pow k 2) in
    let ih : bit_and (a / 2) ((2 ^ suc k - 1) / 2) ≡ a / 2 % 2 ^ k =
      rw e (bit_and-low_mask k (a / 2)) in
    let p : 2 ^ suc k ≡ 2 * 2 ^ k = omega (arith, pow-suc 2 k) in
    omega (
      arith,
      ih,
      bit_and_step a (2 ^ suc k - 1),
      ap (λ (t : ℕ). a % t) p,
      mod-two-mul a (2 ^ k) (omega (arith, one-le-pow k 2)),
      p,
      one-le-pow k 2,
    )

-- Numbers of `n` bits with the same bits are equal.
pub bit_at_ext :
    (n a b : ℕ) → a < 2 ^ n → b < 2 ^ n → ((k : ℕ) → k < n → bit_at a k ≡ bit_at b k) → a ≡ b
unfolding bit_at
bit_at_ext zero a b ha hb h = omega arith
bit_at_ext (suc n) a b ha hb h =
    let halves : a / 2 ≡ b / 2 =
      bit_at_ext n (a / 2) (b / 2) (omega (arith, pow-suc 2 n)) (omega (arith, pow-suc 2 n))
        (λ k l. h (suc k) (omega arith)) in
    omega (arith, halves, h 0 (omega arith))

bit_or_zero_fuel : (n a : ℕ) → a ≤ n → bit_or a 0 ≡ a
bit_or_zero_fuel n zero h = refl
bit_or_zero_fuel zero (suc a) h = absurd (omega arith)
bit_or_zero_fuel (suc n) (suc a) h =
    omega (arith, bit_or_step (suc a) 0, bit_or_zero_fuel n (suc a / 2) (omega arith))

zero-bit_or_fuel : (n b : ℕ) → b ≤ n → bit_or 0 b ≡ b
zero-bit_or_fuel n zero h = refl
zero-bit_or_fuel zero (suc b) h = absurd (omega arith)
zero-bit_or_fuel (suc n) (suc b) h =
    omega (arith, bit_or_step 0 (suc b), zero-bit_or_fuel n (suc b / 2) (omega arith))

-- `r | (q << k)` is a sum where `r` fits `k` bits.
pub bit_or-disjoint : (k q r : ℕ) → r < 2 ^ k → bit_or r (q * 2 ^ k) ≡ r + q * 2 ^ k
bit_or-disjoint zero q r h = ground (arith, zero-bit_or_fuel q q (omega arith))
bit_or-disjoint (suc k) q r h =
    let e : q * 2 ^ suc k ≡ 2 * (q * 2 ^ k) = omega (arith, ap (λ (t : ℕ). q * t) (pow-suc 2 k)) in
    ground (
      arith,
      bit_or_step r (q * 2 ^ suc k),
      e,
      pow-suc 2 k,
      bit_or-disjoint k q (r / 2) (omega (arith, pow-suc 2 k)),
    )

pub pow-lt : (k n : ℕ) → k < n → 2 ^ k < 2 ^ n
pow-lt k zero h = absurd (omega arith)
pow-lt zero (suc n) h = omega (arith, pow-suc 2 n, one-le-pow n 2)
pow-lt (suc k) (suc n) h = omega (arith, pow-suc 2 n, pow-suc 2 k, pow-lt k n (omega arith))

-- `(q << k) | r` likewise.
pub bit_or-disjoint_left : (k q r : ℕ) → r < 2 ^ k → bit_or (q * 2 ^ k) r ≡ q * 2 ^ k + r
bit_or-disjoint_left zero q r h = ground (arith, bit_or_zero_fuel q q (omega arith))
bit_or-disjoint_left (suc k) q r h =
    let e : q * 2 ^ suc k ≡ 2 * (q * 2 ^ k) = omega (arith, ap (λ (t : ℕ). q * t) (pow-suc 2 k)) in
    ground (
      arith,
      bit_or_step (q * 2 ^ suc k) r,
      e,
      pow-suc 2 k,
      bit_or-disjoint_left k q (r / 2) (omega (arith, pow-suc 2 k)),
    )

-- A mask with `k` low zeros.
pub bit_and-shifted : (k a m : ℕ) → bit_and a (m * 2 ^ k) ≡ bit_and (a / 2 ^ k) m * 2 ^ k
bit_and-shifted zero a m =
    let x : a / 2 ^ 0 ≡ a = omega arith in
    let y : m * 2 ^ 0 ≡ m = omega arith in rw (x, y) (omega arith)
bit_and-shifted (suc k) a m =
    let e : m * 2 ^ suc k ≡ 2 * (m * 2 ^ k) = omega (arith, ap (λ (t : ℕ). m * t) (pow-suc 2 k)) in
    let half : m * 2 ^ suc k / 2 ≡ m * 2 ^ k = omega (arith, e) in
    let quotient : a / 2 / 2 ^ k ≡ a / 2 ^ suc k =
      div-div-eq-div-mul a 2 (2 ^ k) ∙ ap (λ (t : ℕ). a / t) (omega (arith, pow-suc 2 k)) in
    let ih : bit_and (a / 2) (m * 2 ^ suc k / 2) ≡ bit_and (a / 2 ^ suc k) m * 2 ^ k =
      rw (half, ← quotient) (bit_and-shifted k (a / 2) m) in
    omega (
      arith,
      ih,
      e,
      bit_and_step a (m * 2 ^ suc k),
      ap (λ (t : ℕ). bit_and (a / 2 ^ suc k) m * t) (pow-suc 2 k),
    )
