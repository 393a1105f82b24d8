-- ===== src/Kernel/Memory/Map.antt =====
-- The bits of a memory map after one write, and after the loops.
use fern_night.Prelude.{
  ℕ, zero, suc, ◌+◌, ◌-◌, ◌/◌, ◌%◌, ◌^◌, ◌<◌, bit_and, bit_or, Bool, true, false, ◌&&◌, ltb, leb,
  ◌==◌, if◌then◌else◌, ◌≡◌, arith, one-le-pow,
}
use fern_night.Prelude.Bits.{
  bit_at, bit_at-lt, bit_at-bit_and, bit_at-bit_or, bit_at-pow_self, bit_at-pow_ne,
  bit_at-complement, bit_and-pow, pow-lt,
}
use fern_night.Kernel.Memory.{Map, available, clear_bit, set_bit, reserve, dispose}

-- The test of the code is a bit of the word.
pub available-bit_at : (m : Map) (c : ℕ) → available m c ≡ (bit_at (m (c / 32)) (c % 32) == 1)
unfolding available
available-bit_at m c = ground (
  arith,
  bit_and-pow (m (c / 32)) (c % 32),
  bit_at-lt (m (c / 32)) (c % 32),
  one-le-pow (c % 32) 2,
)

bit_of_clear :
    (w k j : ℕ)
    → k < 32
    → j < 32
    → bit_at (bit_and w (2 ^ 32 - 1 - 2 ^ k)) j ≡ (if k == j then 0 else bit_at w j)
bit_of_clear w k j hk hj = ground (
  arith,
  bit_at-bit_and w (2 ^ 32 - 1 - 2 ^ k) j,
  bit_at-complement 32 (2 ^ k) j,
  pow-lt k 32,
  bit_at-pow_self k,
  bit_at-pow_ne k j,
  bit_at-lt w j,
)

bit_of_set : (w k j : ℕ) → bit_at (bit_or w (2 ^ k)) j ≡ (if k == j then 1 else bit_at w j)
bit_of_set w k j =
    ground (arith, bit_at-bit_or w (2 ^ k) j, bit_at-pow_self k, bit_at-pow_ne k j, bit_at-lt w j)

-- Clearing a bit makes its page, and no other, unavailable.
pub available-clear_bit :
    (m : Map) (r c : ℕ) → available (clear_bit m r) c ≡ (if r == c then false else available m c)
unfolding clear_bit
available-clear_bit m r c = ground (
  arith,
  available-bit_at m c,
  available-bit_at (clear_bit m r) c,
  bit_of_clear (m (r / 32)) (r % 32) (c % 32),
)

-- Setting a bit makes its page available, and changes no other.
pub available-set_bit :
    (m : Map) (f c : ℕ) → available (set_bit m f) c ≡ (if f == c then true else available m c)
unfolding set_bit
available-set_bit m f c = ground (
  arith,
  available-bit_at m c,
  available-bit_at (set_bit m f) c,
  bit_of_set (m (f / 32)) (f % 32) (c % 32),
)

-- Whether `c` is one of the `n` pages from `p` on.
abbrev pub in_run : ℕ → ℕ → ℕ → Bool
in_run p n c = leb p c && ltb c (p + n)

pub available-reserve :
    (m : Map) (n r c : ℕ)
    → available (reserve m n r) c ≡ (if in_run r n c then false else available m c)
unfolding reserve
available-reserve m zero r c = ground arith
available-reserve m (suc n) r c =
    ground (arith, available-reserve (clear_bit m r) n (r + 1) c, available-clear_bit m r c)

pub available-dispose :
    (m : Map) (n f c : ℕ)
    → available (dispose m n f) c ≡ (if in_run f n c then true else available m c)
unfolding dispose
available-dispose m zero f c = ground arith
available-dispose m (suc n) f c =
    ground (arith, available-dispose (set_bit m f) n (f + 1) c, available-set_bit m f c)
