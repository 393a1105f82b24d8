-- ===== src/Kernel/Loader.antt =====
-- Program loading: kernel/library.c, the linking, the segments and the stack of kernel/exec.c.
-- Memory is bytes; the addresses of tables do not wrap. Strings are scanned on fuel.
pub mod Elf
pub mod Segments
pub mod Link
pub mod Function
pub mod Tests
use fern_night.Prelude.{
  ℕ, zero, suc, ◌+◌, ◌-◌, ◌*◌, ◌/◌, ◌%◌, ◌^◌, bit_and, bit_or, Bool, true, false, not, ◌&&◌, ◌||◌,
  Option, none, some, ltb, leb, ◌==◌, if◌then◌else◌, ◌>>=◌,
}
use fern_night.Prelude.Machine.{add64}
use fern_night.Library.Text.{lib_string_compare, lib_string_length}
use Elf.{symbol_at}

-- `KERNEL_LIBRARY_limit`, `KERNEL_LIBRARY_FLAG_reserved` and `KERNEL_LIBRARY_FLAG_active`
abbrev pub library_limit : ℕ
library_limit = 16

abbrev pub flag_reserved : ℕ
flag_reserved = 1

abbrev pub flag_active : ℕ
flag_active = 2

-- `struct KERNEL_LIBRARY_STRUCTURE`
pub record Library : Type 0 where
  pub address : ℕ
  pub dynsym : ℕ
  pub dynsym_limit : ℕ
  pub strtab : ℕ
  pub size_page : ℕ
  pub flags : ℕ
  pub length : ℕ
  pub name : ℕ → ℕ

-- The table of libraries, by index.
abbrev pub Libraries : Type 0
Libraries = ℕ → Library

-- The first of `left` entries from `i` on that passes a test.
unfoldable pub first_library : (Library → Bool) → Libraries → ℕ → ℕ → Option ℕ
first_library test libraries zero i = none
first_library test libraries (suc left) i =
    let rest = first_library test libraries left (i + 1) in
    if test (libraries i) then some i else rest

abbrev pub set_library : Libraries → ℕ → Library → Libraries
set_library libraries i l j = if j == i then l else libraries j

abbrev pub is_empty : Library → Bool
is_empty l = l.flags == 0

unfoldable pub kernel_library_add : Libraries → Option ℕ × Libraries
kernel_library_add libraries = elim (first_library is_empty libraries library_limit 0) [
  | none ↦ (none, libraries)
  | some i ↦ (
    some i,
    set_library libraries i
        (record (libraries i) { flags = bit_or (libraries i).flags flag_reserved }),
  )
]

abbrev pub is_active : Library → Bool
is_active l = not (bit_and l.flags flag_active == 0)

-- "library name with exact length and name?"
unfoldable pub is_named : (ℕ → ℕ) → ℕ → Library → Bool
is_named string length l =
    is_active l && l.length == length && lib_string_compare string l.name length

unfoldable pub kernel_library_find : Libraries → (ℕ → ℕ) → ℕ → Option ℕ
kernel_library_find libraries string length =
    first_library (is_named string length) libraries library_limit 0

-- `strtab[ dynsym[ j ].name_offset ]`, the memory from there on
unfoldable pub symbol_name : (ℕ → ℕ) → Library → ℕ → ℕ → ℕ
symbol_name ram l j k = ram (l.strtab + (symbol_at ram (l.dynsym + j * 24)).name_offset + k)

-- "function we are looking for?"; `none` where the fuel does not reach the end of the name.
unfoldable pub is_function : ℕ → (ℕ → ℕ) → (ℕ → ℕ) → ℕ → Library → ℕ → Option Bool
is_function fuel ram string length l j = do
  n ← lib_string_length fuel (symbol_name ram l j)
  some (n == length && lib_string_compare string (symbol_name ram l j) length)

-- The address of the function in one library, among `left` symbols from `j` on.
unfoldable pub function_in : ℕ → (ℕ → ℕ) → (ℕ → ℕ) → ℕ → Library → ℕ → ℕ → Option (Option ℕ)
function_in fuel ram string length l zero j = some none
function_in fuel ram string length l (suc left) j =
    let rest = function_in fuel ram string length l left (j + 1) in
    elim (is_function fuel ram string length l j) [
      | none ↦ none
      | some true ↦ some (some (add64 l.address (symbol_at ram (l.dynsym + j * 24)).address))
      | some false ↦ rest
    ]

-- "search in every loaded library", in `left` entries from `i` on
unfoldable pub function_from : ℕ → (ℕ → ℕ) → Libraries → (ℕ → ℕ) → ℕ → ℕ → ℕ → Option (Option ℕ)
function_from fuel ram libraries string length zero i = some none
function_from fuel ram libraries string length (suc left) i =
    let rest = function_from fuel ram libraries string length left (i + 1) in
    let l = libraries i in
    elim (is_active l) [
      | false ↦ rest
      | true ↦ elim (function_in fuel ram string length l (l.dynsym_limit / 24) 0) [
        | none ↦ none
        | some none ↦ rest
        | some (some a) ↦ some (some a)
      ]
    ]

-- The address, or EMPTY.
unfoldable pub kernel_library_function : ℕ → (ℕ → ℕ) → Libraries → (ℕ → ℕ) → ℕ → Option ℕ
kernel_library_function fuel ram libraries string length =
    elim (function_from fuel ram libraries string length library_limit 0) [
      | none ↦ none
      | some none ↦ some 0
      | some (some a) ↦ some a
    ]
