-- ===== src/Software/Wm/Flags.antt =====
-- The flags of objects in software/wm/config.h, bit by bit.
use fern_night.Prelude.{
  ℕ, ◌-◌, ◌^◌, ◌<◌, true, false, not, ◌==◌, ◌≡◌, ◌≢◌, ◌∙◌, arith, one-le-pow, Bool-cases, inl, inr,
}
use fern_night.Prelude.Bits.{
  bit_at, bit_at-lt, bit_at-bit_and, bit_at-bit_or, bit_at-pow_self, bit_at-pow_ne,
  bit_at-complement, bit_and-pow, pow-lt,
}
use fern_night.Software.Wm.{Object, has_flag, set_flag, clear_flag, toggle_flag}

has_flag-bit : (o : Object) (k : ℕ) → has_flag o (2 ^ k) ≡ (bit_at o.flags k == 1)
has_flag-bit o k = rw (bit_and-pow o.flags k) (grind (arith, bit_at-lt o.flags k, one-le-pow k 2))

pub has_flag-set_self : (o : Object) (k : ℕ) → has_flag (set_flag (2 ^ k) o) (2 ^ k) ≡ true
has_flag-set_self o k =
    rw (has_flag-bit (set_flag (2 ^ k) o) k)
      (ground (arith, bit_at-bit_or o.flags (2 ^ k) k, bit_at-pow_self k, bit_at-lt o.flags k))

pub has_flag-set_ne :
    (o : Object) (k j : ℕ) → k ≢ j → has_flag (set_flag (2 ^ k) o) (2 ^ j) ≡ has_flag o (2 ^ j)
has_flag-set_ne o k j h =
    has_flag-bit (set_flag (2 ^ k) o) j
    ∙ ground (arith, bit_at-bit_or o.flags (2 ^ k) j, bit_at-pow_ne k j h, has_flag-bit o j)

-- The other bits of `~(1 << k)` are set.
pub has_flag-clear_self :
    (o : Object) (k : ℕ) → k < 16 → has_flag (clear_flag (2 ^ k) o) (2 ^ k) ≡ false
has_flag-clear_self o k h =
    has_flag-bit (clear_flag (2 ^ k) o) k
    ∙ ground (
      arith,
      bit_at-bit_and o.flags (2 ^ 16 - 1 - 2 ^ k) k,
      bit_at-complement 16 (2 ^ k) k (pow-lt k 16 h) h,
      bit_at-pow_self k,
    )

pub has_flag-clear_ne :
    (o : Object) (k j : ℕ)
    → k < 16
    → j < 16
    → k ≢ j
    → has_flag (clear_flag (2 ^ k) o) (2 ^ j) ≡ has_flag o (2 ^ j)
has_flag-clear_ne o k j h l n =
    has_flag-bit (clear_flag (2 ^ k) o) j
    ∙ ground (
      arith,
      bit_at-bit_and o.flags (2 ^ 16 - 1 - 2 ^ k) j,
      bit_at-complement 16 (2 ^ k) j (pow-lt k 16 h) l,
      bit_at-pow_ne k j n,
      bit_at-lt o.flags j,
      has_flag-bit o j,
    )

pub has_flag-toggle_ne :
    (o : Object) (k j : ℕ)
    → k < 16
    → j < 16
    → k ≢ j
    → has_flag (toggle_flag (2 ^ k) o) (2 ^ j) ≡ has_flag o (2 ^ j)
has_flag-toggle_ne o k j h l n = elim (Bool-cases (has_flag o (2 ^ k))) [
  | inl e ↦ rw e (has_flag-clear_ne o k j h l n)
  | inr e ↦ rw e (has_flag-set_ne o k j n)
]

pub has_flag-toggle_self :
    (o : Object) (k : ℕ)
    → k < 16
    → has_flag (toggle_flag (2 ^ k) o) (2 ^ k) ≡ not (has_flag o (2 ^ k))
has_flag-toggle_self o k h = elim (Bool-cases (has_flag o (2 ^ k))) [
  | inl e ↦ rw e (has_flag-clear_self o k h)
  | inr e ↦ rw e (has_flag-set_self o k)
]
