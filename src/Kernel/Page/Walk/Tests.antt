-- ===== src/Kernel/Page/Walk/Tests.antt =====
-- The theorems on kernel/page.c at four tables in the pages 1 to 4.
use fern_night.Prelude.{ℕ, ◌+◌, ◌*◌, true, some, ◌==◌, if◌then◌else◌, ◌≡◌, refl, arith}
use fern_night.Prelude.Machine.{add64, mirror}
use fern_night.Kernel.Memory.{Kernel}
use fern_night.Kernel.Memory.Tests.{small_kernel}
use fern_night.Kernel.Page.{
  index1, index2, index3, index4, leaf_slot, kernel_page_address, kernel_page_remove,
}
use fern_night.Kernel.Page.Walk.{
  kernel_page_alloc, kernel_page_map, walk1, walk2, walk3, walk4, level, level1, ensure, place_page,
  result,
}
use fern_night.Kernel.Page.Walk.Mapping.{IsPresent}
use fern_night.Kernel.Page.Walk.Resolve.{physical, first_slot, page_address-map}
use fern_night.Kernel.Page.Remove.{IsApart, is_shared, page_address-remove}

abbrev pub pml4 : ℕ
pml4 = mirror + 0x1000

-- The first entries of the tables; the page table has the pages 5 and 6.
abbrev pub tables : ℕ → ℕ
tables x =
    if x == mirror + 0x1000
    then 0x2003
    else if x == mirror + 0x2000
    then 0x3003
    else if x == mirror + 0x3000
    then 0x4003
    else if x == mirror + 0x4000
    then 0x5003
    else if x == mirror + 0x4008
    then 0x6003
    else 0

abbrev pub paged : Kernel
paged = record small_kernel { ram = tables }

tables-IsPresent : IsPresent tables pml4 0 (first_slot tables pml4 0) 2
unfolding index1 index2 index3 index4
tables-IsPresent = record {
  entry4 = λ e. absurd (omega arith);
  entry3 = λ e. absurd (omega arith);
  entry2 = λ e. absurd (omega arith);
  apart4 = refl;
  apart3 = refl;
  apart2 = refl;
}

page_address-map_example :
    (k' : Kernel) × (kernel_page_map paged pml4 0x10000 0 2 3 ≡ some (true, k'))
    × (kernel_page_address k'.ram pml4 (0 + 4096 * 1) ≡ add64 (physical 0x10000) (4096 * 1))
unfolding index1 index2 index3 index4
page_address-map_example =
    page_address-map paged pml4 0x10000 0 2 3 1 (omega arith) (omega arith) tables-IsPresent
      (omega arith) (omega arith) (omega arith) (omega arith)

other-IsApart : IsApart tables pml4 4096 (leaf_slot tables pml4 0)
unfolding index1 index2 index3 index4 leaf_slot
other-IsApart = record {
  apart4 = λ e. absurd (omega arith);
  apart3 = λ e. absurd (omega arith);
  apart2 = λ e. absurd (omega arith);
}

page_address-remove_example :
    ((kernel_page_remove tables pml4 0).0
      ≡ (if is_shared tables pml4 0 then 0 else kernel_page_address tables pml4 0))
    × (kernel_page_address ((kernel_page_remove tables pml4 0).1) pml4 4096 ≡ (
        if is_shared tables pml4 0
        then kernel_page_address tables pml4 4096
        else if leaf_slot tables pml4 4096 == leaf_slot tables pml4 0
        then 0
        else kernel_page_address tables pml4 4096))
page_address-remove_example = page_address-remove tables pml4 0 4096 other-IsApart

-- The page at 4096 is there.
pub paged-alloc : kernel_page_alloc paged pml4 4096 1 0x207 ≡ some (true, paged)
unfolding kernel_page_alloc walk1 walk2 walk3 walk4 level level1 ensure place_page result index1
    index2 index3 index4
paged-alloc = refl
