-- ===== src/Kernel/Memory/Tests.antt =====
-- The theorems on kernel/memory.c at a memory of 32 pages, of which all but page 0 are available.
use fern_night.Prelude.{ℕ, ◌%◌, ◌≤◌, ◌<◌, false, some, ◌==◌, if◌then◌else◌, ◌≡◌, refl, ◌⊎◌, arith}
use fern_night.Prelude.Bits.{bit_at_zero}
use fern_night.Kernel.Memory.{
  Map, Kernel, available, reserve, kernel_memory_acquire, kernel_memory_alloc,
  kernel_memory_release, check, search, clear_bit,
}
use fern_night.Kernel.Memory.Map.{available-bit_at}
use fern_night.Kernel.Memory.Acquire.{IsFree}
use fern_night.Kernel.Memory.Alloc.{IsValid, Allocated, page_address, alloc_lem}
use fern_night.Kernel.Memory.Count.{count}
use fern_night.Kernel.Memory.Valid.{alloc-IsValid, release-alloc}
use fern_night.Kernel.Memory.Clean.{in_words, ram-release}

abbrev pub small_map : Map
small_map i = if i == 0 then 0xFFFFFFFE else 0

abbrev pub small_kernel : Kernel
small_kernel = record {
  memory_map = small_map;
  memory_page_semaphore = false;
  page_available = 31;
  page_limit = 32;
  ram = λ x. x;
}

abbrev pub next_kernel : Kernel
next_kernel = record small_kernel { memory_map = reserve small_map 1 1; page_available = 30 }

small_map-outside : (c : ℕ) → 32 ≤ c → available small_map c ≡ false
small_map-outside c h = ground (arith, available-bit_at small_map c, bit_at_zero (c % 32))

pub small_kernel-IsValid : IsValid small_kernel
unfolding count available
small_kernel-IsValid = record {
  small = omega arith;
  inside = small_map-outside;
  zero_page = refl;
  counted = refl;
}

pub small_kernel-alloc : kernel_memory_alloc small_kernel 1 ≡ some (page_address 1, next_kernel)
unfolding kernel_memory_alloc kernel_memory_acquire search check available reserve clear_bit
small_kernel-alloc = refl

alloc_lem_example :
    (k' : Kernel) × (((page : ℕ) × (kernel_memory_alloc small_kernel 2
          ≡ some (page_address page, k'))
        × Allocated small_kernel 2 page k')
      ⊎ ((kernel_memory_alloc small_kernel 2 ≡ some (0, k'))
          × (k'.memory_map ≡ small_map)
          × (k'.page_available ≡ 31)
          × (k'.page_limit ≡ 32)
          × ((q : ℕ) → q < 32 → ¬ (IsFree small_map q 2))))
alloc_lem_example = alloc_lem small_kernel 2 small_kernel-IsValid (omega arith) (omega arith) refl

alloc-IsValid_example : IsValid next_kernel
alloc-IsValid_example =
    alloc-IsValid small_kernel 1 (page_address 1) next_kernel small_kernel-IsValid (omega arith)
      (omega arith) small_kernel-alloc

release-alloc_example :
    let k'' = kernel_memory_release next_kernel (page_address 1) 1 in
    (available k''.memory_map 1 ≡ available small_map 1) × (k''.page_available ≡ 31)
release-alloc_example =
    release-alloc small_kernel 1 (page_address 1) 1 next_kernel small_kernel-IsValid (omega arith)
      (omega arith) small_kernel-alloc (λ e. absurd (omega arith))

ram-release_example :
    (kernel_memory_release small_kernel (page_address 1) 1).ram (page_address 1)
    ≡ (if in_words (page_address 1) 512 (page_address 1) then 0 else page_address 1)
ram-release_example = ram-release small_kernel (page_address 1) 1 (page_address 1) (omega arith)

pub small_map-acquire : kernel_memory_acquire small_map 32 1 ≡ (1, reserve small_map 1 1)
unfolding kernel_memory_acquire search check available reserve clear_bit
small_map-acquire = refl

-- A memory without available pages.
abbrev pub used_kernel : Kernel
used_kernel = record small_kernel { memory_map = λ i. 0; page_available = 0 }

pub used_kernel-alloc : kernel_memory_alloc used_kernel 1 ≡ some (0, used_kernel)
unfolding kernel_memory_alloc kernel_memory_acquire search check available reserve clear_bit
used_kernel-alloc = refl
