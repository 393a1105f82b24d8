-- ===== src/Library/Sys/Heap.antt =====
-- malloc, realloc and free of library/shared/sys.c, on the bytes of a process. Where the system call
-- for memory puts an area is an argument.
pub mod Words
pub mod Contents
pub mod Tests
use fern_night.Prelude.{
  ℕ, zero, suc, ◌+◌, ◌-◌, ◌*◌, ◌/◌, ◌%◌, ◌^◌, Bool, true, false, Option, none, some, ltb,
  if◌then◌else◌,
}
use fern_night.Prelude.Machine.{add64, sub64, shl64, page_align_up, page_align_down}
use fern_night.Library.Sys.{memcpy}
use Words.{store64, load64}

-- `lib_sys_memory_release`: the address and the bytes.
pub record Released : Type 0 where
  pub address : ℕ
  pub bytes : ℕ

-- `byte + (STATIC_PTR_SIZE_byte << STATIC_MULTIPLE_BY_2_shift)`, what malloc asks for
abbrev pub with_header : ℕ → ℕ
with_header byte = add64 byte 16

-- The pointer and the memory; the area is at `address`.
unfoldable pub malloc : (ℕ → ℕ) → ℕ → ℕ → ℕ × (ℕ → ℕ)
malloc memory address byte =
    (add64 address 16, store64 memory address (page_align_up (with_header byte) / 4096))

-- What is given back.
unfoldable pub free : (ℕ → ℕ) → ℕ → Released
free memory address =
    let size = sub64 address 16 in record { address = size; bytes = shl64 (load64 memory size) 12 }

-- The pointer, the memory, and what is given back; the new area, if there is one, is at `address`.
unfoldable pub realloc : (ℕ → ℕ) → ℕ → ℕ → ℕ → ℕ × (ℕ → ℕ) × Option Released
realloc memory address source byte =
    let space = page_align_down source in
    let length = sub64 (shl64 (load64 memory space) 12) 16 in
    if ltb (sub64 length 16) byte
    then (let (new, memory') = malloc memory address (with_header byte) in
        let copied = memcpy memory' new source length in (new, copied, some (free copied source)))
    else (source, memory, none)
