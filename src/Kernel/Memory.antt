-- ===== src/Kernel/Memory.antt =====
-- kernel/memory.c: the binary memory map, in which a set bit is an available page. Its
-- kernel_memory_share works on a process and is in Kernel/Service.
-- A map is read and written by words of 32 bits, as raw memory: every index has a word.
pub mod Map
pub mod Acquire
pub mod Alloc
pub mod Valid
pub mod Clean
pub mod Count
pub mod Tests
use fern_night.Prelude.{
  ℕ, zero, suc, ◌+◌, ◌-◌, ◌*◌, ◌/◌, ◌%◌, ◌^◌, bit_and, bit_or, Bool, true, false, not, Option, none,
  some, ltb, ◌==◌, if◌then◌else◌,
}
use fern_night.Prelude.Machine.{add64, sub64, shl64, complement64, mirror}

abbrev pub Map : Type 0
Map = ℕ → ℕ

abbrev pub store : Map → ℕ → ℕ → Map
store m i v j = if i == j then v else m j

-- `memory_map[ c / 32 ] & 1 << c % 32`
pub available : Map → ℕ → Bool
available m c = not (bit_and (m (c / 32)) (2 ^ (c % 32)) == 0)

-- `memory_map[ r / 32 ] &= ~(1 << r % 32)`
pub clear_bit : Map → ℕ → Map
clear_bit m r = store m (r / 32) (bit_and (m (r / 32)) (2 ^ 32 - 1 - 2 ^ (r % 32)))

-- `memory_map[ f / 32 ] |= 1 << f % 32`
pub set_bit : Map → ℕ → Map
set_bit m f = store m (f / 32) (bit_or (m (f / 32)) (2 ^ (f % 32)))

-- The rounds of `for( c = p; c < p + N; c++ )`, whose bound wraps at 64 bits.
abbrev pub rounds : ℕ → ℕ → ℕ
rounds p n = add64 p n - p

-- The first page of `left` pages from `c` on that is not available.
pub check : Map → ℕ → ℕ → Option ℕ
check m zero c = none
check m (suc left) c = let rest = check m left (c + 1) in if available m c then rest else some c

-- The loop that marks pages as reserved.
pub reserve : Map → ℕ → ℕ → Map
reserve m zero r = m
reserve m (suc left) r = reserve (clear_bit m r) left (r + 1)

-- The loop over `p`. `p` grows in every round, so the limit is fuel enough.
pub search : ℕ → Map → ℕ → ℕ → ℕ → Option ℕ
search zero m limit n p = none
search (suc fuel) m limit n p = elim (ltb p limit) [
  | false ↦ none
  | true ↦ elim (check m (rounds p n) p) [ none ↦ some p | some c ↦ search fuel m limit n (c + 1) ]
]

-- The page, or EMPTY, which is 0, and the map afterwards.
pub kernel_memory_acquire : Map → ℕ → ℕ → ℕ × Map
kernel_memory_acquire m limit n = elim (search limit m limit n 0) [
  | none ↦ (0, m)
  | some p ↦ (p, reserve m (rounds p n) p)
]

-- The loop that marks pages as free.
pub dispose : Map → ℕ → ℕ → Map
dispose m zero f = m
dispose m (suc left) f = dispose (set_bit m f) left (f + 1)

pub kernel_memory_dispose : Map → ℕ → ℕ → Map
kernel_memory_dispose m p n = dispose m (rounds p n) p

-- The part of `struct KERNEL` that page management keeps, and the memory that it cleans:
-- `ram` holds the 64-bit word at each (logical) address.
pub record Kernel : Type 0 where
  pub memory_map : Map
  pub memory_page_semaphore : Bool
  pub page_available : ℕ
  pub page_limit : ℕ
  pub ram : ℕ → ℕ

-- `none`: the loop on the semaphore spins, as another processor holds it.
pub kernel_memory_alloc : Kernel → ℕ → Option (ℕ × Kernel)
kernel_memory_alloc k pages =
    let (page, m) = kernel_memory_acquire k.memory_map k.page_limit pages in
    if k.memory_page_semaphore
    then none
    else some (
        if page == 0 then (0, record k { memory_map = m; memory_page_semaphore = false }) else (
          bit_or (shl64 page 12) mirror,
          record k {
            memory_map = m;
            memory_page_semaphore = false;
            page_available = sub64 k.page_available pages;
          },
        ))

pub kernel_memory_alloc_page : Kernel → Option (ℕ × Kernel)
kernel_memory_alloc_page k = elim (kernel_memory_alloc k 1) [
  | none ↦ none
  | some (address, k') ↦ some (bit_and address (complement64 mirror), k')
]

-- `kernel_page_clean` of kernel/page.c: the words of the pages, one by one.
pub clean : (ℕ → ℕ) → ℕ → ℕ → ℕ → ℕ
clean ram zero a = ram
clean ram (suc left) a = clean (store ram a 0) left (add64 a 8)

pub kernel_page_clean : (ℕ → ℕ) → ℕ → ℕ → ℕ → ℕ
kernel_page_clean ram address pages = clean ram (shl64 pages 9) address

-- The semaphore is not taken here.
pub kernel_memory_release : Kernel → ℕ → ℕ → Kernel
kernel_memory_release k address n = record k {
  ram = kernel_page_clean k.ram address n;
  memory_map = kernel_memory_dispose k.memory_map (bit_and address (complement64 mirror) / 4096) n;
  page_available = add64 k.page_available n;
}

pub kernel_memory_release_page : Kernel → ℕ → Kernel
kernel_memory_release_page k address = kernel_memory_release k (bit_or address mirror) 1
