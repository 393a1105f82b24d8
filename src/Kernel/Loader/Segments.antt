-- ===== src/Kernel/Loader/Segments.antt =====
-- The segments of a library or a program, and the stack of a program.
pub mod Placed
use fern_night.Prelude.{
  ℕ, zero, suc, ◌+◌, ◌-◌, ◌*◌, ◌/◌, ◌%◌, ◌^◌, bit_and, Bool, true, false, not, ◌&&◌, ◌||◌, List, [],
  ◌∷◌, ◌==◌, if◌then◌else◌,
}
use fern_night.Prelude.Machine.{add64, sub64, page_align_up, page_align_down, complement64}
use fern_night.Library.Sys.Heap.Words.{store64}
use fern_night.Kernel.Loader.Elf.{Header}

-- "ignore blank entries"
unfoldable pub is_blank : Header → Bool
is_blank h = h.type == 0 || h.memory_size == 0

-- `LIB_ELF_HEADER_TYPE_load`
unfoldable pub is_loadable : Header → Bool
is_loadable h = not (is_blank h) && h.type == 1

-- "set farthest point of loadable segment of library", in 16 bits
unfoldable pub library_pages : List Header → ℕ → ℕ
library_pages [] size_page = size_page
library_pages (h ∷ headers) size_page = library_pages headers (
    if is_loadable h
    then page_align_up (add64 h.virtual_address h.segment_size) / 4096 % 2 ^ 16
    else size_page)

-- The same in kernel_exec, from KERNEL_EXEC_BASE_address on.
unfoldable pub program_pages : List Header → ℕ → ℕ
program_pages [] size_page = size_page
program_pages (h ∷ headers) size_page = program_pages headers (
    if is_loadable h
    then sub64 (page_align_up (add64 h.virtual_address h.segment_size)) 0x100000 / 4096
    else size_page)

-- `for( j = 0; j < segment_size; j++ ) target[ j ] = source[ j ];`, for the rounds that are left
unfoldable pub copy_segment : ℕ → ℕ → ℕ → ℕ → (ℕ → ℕ) → ℕ → ℕ
copy_segment zero target source j ram = ram
copy_segment (suc left) target source j ram =
    copy_segment left target source (suc j)
      (λ x. if x == target + j then ram (source + j) else ram x)

-- Segments of a library, whose file is at `file` and which is loaded to `content`.
unfoldable pub load_library : ℕ → ℕ → List Header → (ℕ → ℕ) → ℕ → ℕ
load_library file content [] ram = ram
load_library file content (h ∷ headers) ram = load_library file content headers (
    if is_loadable h
    then copy_segment h.segment_size (add64 content h.virtual_address) (add64 file h.segment_offset)
        0 ram
    else ram)

-- Segments of a program: all that are not blank.
unfoldable pub load_program : ℕ → ℕ → List Header → (ℕ → ℕ) → ℕ → ℕ
load_program file content [] ram = ram
load_program file content (h ∷ headers) ram = load_program file content headers (
    if is_blank h
    then ram
    else copy_segment h.segment_size (add64 (sub64 h.virtual_address 0x100000) content)
        (add64 file h.segment_offset) 0 ram)

-- `KERNEL_EXEC_STACK_pointer`
abbrev pub stack_pointer : ℕ
stack_pointer = 0x700000000000

-- "length of string to process": `(length & ~STATIC_BYTE_HALF_mask) + 0x18`
unfoldable pub args_size : ℕ → ℕ
args_size length = bit_and length (complement64 0x0F) + 0x18

-- Where the stack of the program starts, for a string of `length` bytes.
unfoldable pub stack_of : ℕ → ℕ
stack_of length = stack_pointer - args_size length

-- "length of args in Bytes", "and string itself", in the pages at `process_stack`
unfoldable pub put_arguments : (ℕ → ℕ) → ℕ → ℕ → ℕ → ℕ → ℕ
put_arguments ram process_stack path length =
    let args = args_size length in
    let at = process_stack + (page_align_up args - args) in
    copy_segment length (at + 8) path 0 (store64 ram at length)

-- The address and the number of the pages that are mapped for the stack.
unfoldable pub stack_mapping : ℕ → ℕ × ℕ
stack_mapping length = (page_align_down (stack_of length), page_align_up (args_size length) / 4096)
