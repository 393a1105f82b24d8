-- ===== src/Prelude/Machine.antt =====
-- Machine words of `default.h` and `kernel/page.h`: 64-bit sums, pages, the mirror of physical memory.
pub mod Align
use fern_night.Prelude.{ℕ, ◌+◌, ◌-◌, ◌*◌, ◌/◌, ◌%◌, ◌^◌, bit_and, bit_or}

abbrev pub add64 : ℕ → ℕ → ℕ
add64 a b = (a + b) % 2 ^ 64

abbrev pub sub64 : ℕ → ℕ → ℕ
sub64 a b = (a + 2 ^ 64 - b) % 2 ^ 64

abbrev pub shl64 : ℕ → ℕ → ℕ
shl64 a k = a * 2 ^ k % 2 ^ 64

-- `~a` of a 64-bit word.
abbrev pub complement64 : ℕ → ℕ
complement64 a = 2 ^ 64 - 1 - a

-- `STATIC_PAGE_SIZE_byte`, `STATIC_PAGE_SIZE_shift`
abbrev pub page_size : ℕ
page_size = 4096

-- `KERNEL_PAGE_mirror`
abbrev pub mirror : ℕ
mirror = 0xFFFF800000000000

-- `MACRO_PAGE_ALIGN_UP` and `MACRO_PAGE_ALIGN_DOWN`
abbrev pub page_align_up : ℕ → ℕ
page_align_up value = bit_and (sub64 (add64 value 4096) 1) 0xFFFFFFFFFFFFF000

abbrev pub page_align_down : ℕ → ℕ
page_align_down value = bit_and value 0xFFFFFFFFFFFFF000
