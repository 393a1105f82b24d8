-- ===== src/Kernel/Memory/Alloc.antt =====
-- kernel_memory_alloc and kernel_memory_release: the count of available pages, and addresses.
use fern_night.Prelude.{
  ℕ, ◌+◌, ◌-◌, ◌*◌, ◌/◌, ◌^◌, ◌≤◌, ◌<◌, bit_and, bit_or, true, false, some, if◌then◌else◌, ◌≡◌,
  refl, ap, ◌⊎◌, inl, inr, arith,
}
use fern_night.Prelude.Bits.{bit_and-low_mask, bit_or-disjoint}
use fern_night.Prelude.Machine.{sub64, shl64, complement64, mirror}
use native.Mathlib.Decide.{dec_lt}
use fern_night.Kernel.Memory.{Kernel, available, kernel_memory_acquire, kernel_memory_alloc}
use fern_night.Kernel.Memory.Map.{in_run}
use fern_night.Kernel.Memory.Acquire.{IsFree, acquire_first_fit}
use fern_night.Kernel.Memory.Count.{count}

-- The map describes the pages below the limit, page 0 is never given away, and the counter is
-- the number of available pages. The limit is that of 48-bit addresses in the mirror's half.
pub record IsValid (k : Kernel) : Type 0 where
  pub small : k.page_limit ≤ 2 ^ 35
  pub inside : (c : ℕ) → k.page_limit ≤ c → available k.memory_map c ≡ false
  pub zero_page : available k.memory_map 0 ≡ false
  pub counted : k.page_available ≡ count k.memory_map k.page_limit 0

-- The logical address of a page.
abbrev pub page_address : ℕ → ℕ
page_address p = p * 4096 + mirror

page_address_lem : (p : ℕ) → p < 2 ^ 35 → bit_or (shl64 p 12) mirror ≡ page_address p
page_address_lem p h = omega (
  arith,
  bit_or-disjoint 47 0x1FFFF (p * 4096) (omega arith),
  ap (λ t. bit_or t mirror) (shl p h),
)
  where
    shl : (p : ℕ) → p < 2 ^ 35 → shl64 p 12 ≡ p * 4096
    shl p h = omega arith

pub page_of_address :
    (p : ℕ) → p < 2 ^ 35 → bit_and (page_address p) (complement64 mirror) / 4096 ≡ p
page_of_address p h = omega (arith, bit_and-low_mask 47 (page_address p))

-- What a call with success did.
pub record Allocated (k : Kernel) (n page : ℕ) (k' : Kernel) : Type 0 where
  pub below : page + n ≤ k.page_limit
  pub positive : 0 < page
  pub free : IsFree k.memory_map page n
  pub lowest : (q : ℕ) → q < page → ¬ (IsFree k.memory_map q n)
  pub limit : k'.page_limit ≡ k.page_limit
  pub counter : k'.page_available ≡ sub64 k.page_available n
  pub after :
      (c : ℕ)
      → available k'.memory_map c ≡ (if in_run page n c then false else available k.memory_map c)

-- A run of available pages lies below the limit and above page 0.
free_below :
    {k : Kernel} {p n : ℕ}
    → IsValid k
    → p < k.page_limit
    → 0 < n
    → IsFree k.memory_map p n
    → (p + n ≤ k.page_limit) × (0 < p)
free_below {k} {p} {n} v l pos free = (
  elim (dec_lt k.page_limit (p + n)) [
    | yes over ↦ absurd (
        clash (p + n - 1) (free (p + n - 1) (omega arith) (omega arith))
          (v.inside (p + n - 1) (omega arith)))
    | no within ↦ omega arith
  ],
  elim (dec_lt 0 p) [
    | yes above ↦ above
    | no zero_p ↦ absurd (clash 0 (free 0 (omega arith) (omega arith)) v.zero_page)
  ],
)
  where
    clash : (c : ℕ) → available k.memory_map c ≡ true → available k.memory_map c ≡ false → ⊥
    clash c a b = cc

-- With the semaphore free, `kernel_memory_alloc` of 1 to 2 ^ 35 pages on a valid state answers:
-- either with the address of the first run of available pages, which lies above page 0 and below
-- the limit, reserved and counted off, and no other page changed; or with EMPTY and no change but
-- to the semaphore, where no run fits.
pub alloc_lem :
    (k : Kernel) (n : ℕ)
    → IsValid k
    → 0 < n
    → n ≤ 2 ^ 35
    → k.memory_page_semaphore ≡ false
    → (k' : Kernel) × (((page : ℕ) × (kernel_memory_alloc k n ≡ some (page_address page, k'))
          × Allocated k n page k')
        ⊎ ((kernel_memory_alloc k n ≡ some (0, k'))
            × (k'.memory_map ≡ k.memory_map)
            × (k'.page_available ≡ k.page_available)
            × (k'.page_limit ≡ k.page_limit)
            × ((q : ℕ) → q < k.page_limit → ¬ (IsFree k.memory_map q n))))
unfolding kernel_memory_alloc
alloc_lem k n v pos small open_lock =
    let (page, m) = kernel_memory_acquire k.memory_map k.page_limit n in
    elim (acquire_first_fit k.memory_map k.page_limit n (omega arith)) [
      | inr (e, same, none_fits) ↦ (
        record k { memory_map = m; memory_page_semaphore = false },
        inr (ground arith, same, refl, refl, none_fits),
      )
      | inl (l, free, first, after) ↦
          let bounds : (page + n ≤ k.page_limit) × (0 < page) = free_below v l pos free in
          (
            record k {
              memory_map = m;
              memory_page_semaphore = false;
              page_available = sub64 k.page_available n;
            },
            inl (
              page,
              ground (arith, page_address_lem page),
              record {
                below = bounds.0;
                positive = bounds.1;
                free = free;
                lowest = first;
                limit = refl;
                counter = refl;
                after = after;
              },
            ),
          )
    ]
