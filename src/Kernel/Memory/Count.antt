-- ===== src/Kernel/Memory/Count.antt =====
-- The number of available pages: what `page_available` counts.
use fern_night.Prelude.{ℕ, zero, suc, ◌+◌, ◌≤◌, ◌<◌, true, false, if◌then◌else◌, ◌≡◌, refl, arith}
use native.Mathlib.Decide.{dec_lt}
use fern_night.Kernel.Memory.{Map, available}
use fern_night.Kernel.Memory.Map.{in_run}

-- How many of the `n` pages from `p` on are available.
unfoldable pub count : Map → ℕ → ℕ → ℕ
count m zero p = 0
count m (suc n) p = (if available m p then 1 else 0) + count m n (p + 1)

pub count-le : (m : Map) (n p : ℕ) → count m n p ≤ n
unfolding count
count-le m zero p = omega arith
count-le m (suc n) p = ground (arith, count-le m n (p + 1))

-- Only the pages that are counted matter.
pub count_ext :
    (m m' : Map) (n p : ℕ)
    → ((c : ℕ) → p ≤ c → c < p + n → available m' c ≡ available m c)
    → count m' n p ≡ count m n p
unfolding count
count_ext m m' zero p h = refl
count_ext m m' (suc n) p h =
    ground (arith, h p, count_ext m m' n (p + 1) (λ c a b. h c (omega arith) (omega arith)))

-- Making the `k` available pages from `r` on unavailable takes `k` from the count of a range
-- that holds them.
pub count_remove :
    (m m' : Map) (n p r k : ℕ)
    → p ≤ r
    → r + k ≤ p + n
    → ((c : ℕ) → r ≤ c → c < r + k → available m c ≡ true)
    → ((c : ℕ) → p ≤ c → available m' c ≡ (if in_run r k c then false else available m c))
    → count m' n p + k ≡ count m n p
unfolding count
count_remove m m' zero p r k h l free after = omega arith
count_remove m m' (suc n) p r zero h l free after =
    omega (arith, count_ext m m' (suc n) p (λ c a b. ground (arith, after c)))
count_remove m m' (suc n) p r (suc k) h l free after = elim (dec_lt p r) [
  | yes below ↦ ground (
    arith,
    after p,
    count_remove m m' n (p + 1) r (suc k) (omega arith) (omega arith) free
        (λ c a. after c (omega arith)),
  )
  | no above ↦ ground (
    arith,
    after p,
    free p,
    count_remove m m' n (p + 1) (r + 1) k (omega arith) (omega arith)
        (λ c a b. free c (omega arith) (omega arith)) (λ c a. ground (arith, after c)),
  )
]
