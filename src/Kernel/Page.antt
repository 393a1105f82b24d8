-- ===== src/Kernel/Page.antt =====
-- kernel/page.c: paging tables in memory. A table is 512 words of 64 bits, and its slot `p` lies at
-- its address and 8 times `p`.
pub mod Walk
pub mod Merge
pub mod Release
pub mod Index
pub mod Remove
use fern_night.Prelude.{
  ℕ, zero, suc, ◌+◌, ◌-◌, ◌*◌, ◌/◌, ◌%◌, ◌^◌, bit_and, bit_or, Bool, true, false, ◌==◌,
  if◌then◌else◌,
}
use fern_night.Prelude.Machine.{add64, complement64, mirror, page_align_down}
use fern_night.Kernel.Memory.{Kernel, store}

-- `KERNEL_PAGE_SIZE_entry`
abbrev pub entries : ℕ
entries = 512

-- `address & ~KERNEL_PAGE_PML5_mask`
abbrev pub low_part : ℕ → ℕ
low_part address = bit_and address (complement64 0xFFFF000000000000)

-- The indices of an address: `KERNEL_PAGE_PML3_SIZE_byte` is 2 ^ 39, and so on down. They are
-- kept in 16 bits.
pub index4 : ℕ → ℕ
index4 address = low_part address / 2 ^ 39 % 2 ^ 16

pub index3 : ℕ → ℕ
index3 address = low_part address % 2 ^ 39 / 2 ^ 30 % 2 ^ 16

pub index2 : ℕ → ℕ
index2 address = low_part address % 2 ^ 39 % 2 ^ 30 / 2 ^ 21 % 2 ^ 16

pub index1 : ℕ → ℕ
index1 address = low_part address % 2 ^ 39 % 2 ^ 30 % 2 ^ 21 / 2 ^ 12 % 2 ^ 16

-- The address of a slot.
abbrev pub slot : ℕ → ℕ → ℕ
slot table p = add64 table (8 * p)

-- The table that an entry points to: `MACRO_PAGE_ALIGN_DOWN( entry ) | KERNEL_PAGE_mirror`
abbrev pub table_of : ℕ → ℕ
table_of entry = bit_or (page_align_down entry) mirror

-- The slot of the page table that describes an address.
pub leaf_slot : (ℕ → ℕ) → ℕ → ℕ → ℕ
leaf_slot ram pml4 address =
    let pml3 = table_of (ram (slot pml4 (index4 address))) in
    let pml2 = table_of (ram (slot pml3 (index3 address))) in
    let pml1 = table_of (ram (slot pml2 (index2 address))) in slot pml1 (index1 address)

pub kernel_page_address : (ℕ → ℕ) → ℕ → ℕ → ℕ
kernel_page_address ram pml4 address = page_align_down (ram (leaf_slot ram pml4 address))

-- `KERNEL_PAGE_FLAG_shared`
abbrev pub flag_shared : ℕ
flag_shared = 2 ^ 10

-- `KERNEL_PAGE_FLAG_process`
abbrev pub flag_process : ℕ
flag_process = 2 ^ 9

-- `KERNEL_PAGE_FLAG_write`
abbrev pub flag_write : ℕ
flag_write = 2

-- The page that was removed, or EMPTY, and the memory.
pub kernel_page_remove : (ℕ → ℕ) → ℕ → ℕ → ℕ × (ℕ → ℕ)
kernel_page_remove ram pml4 address =
    let at = leaf_slot ram pml4 address in
    let removed = ram at in
    if bit_and removed flag_shared == 0 then (page_align_down removed, store ram at 0) else (0, ram)
