-- ===== src/Kernel/Loader/Link.antt =====
-- kernel_library_link of kernel/library.c and kernel_exec_link of kernel/exec.c.
use fern_night.Prelude.{ℕ, zero, suc, ◌+◌, ◌*◌, ◌/◌, Option, none, some, ◌==◌, if◌then◌else◌, ◌>>=◌}
use fern_night.Library.Text.{lib_string_length}
use fern_night.Library.Sys.Heap.Words.{store64}
use fern_night.Kernel.Loader.{Libraries, kernel_library_function}
use fern_night.Prelude.Machine.{add64, sub64}
use fern_night.Kernel.Loader.Elf.{elf_at, Section, section_at, Symbol, symbol_at, relocation_index}

-- `LIB_ELF_SECTION_TYPE_...`
abbrev pub type_progbits : ℕ
type_progbits = 1

abbrev pub type_strtab : ℕ
type_strtab = 3

abbrev pub type_rela : ℕ
type_rela = 4

abbrev pub type_dynsym : ℕ
type_dynsym = 0x0B

-- `KERNEL_EXEC_BASE_address`
abbrev pub exec_base : ℕ
exec_base = 0x100000

-- What the sections tell; 0 for EMPTY.
pub record Tables : Type 0 where
  pub got : ℕ
  pub strtab : ℕ
  pub rela : ℕ
  pub rela_size_byte : ℕ
  pub dynsym : ℕ

abbrev pub no_tables : Tables
no_tables = record { got = 0; strtab = 0; rela = 0; rela_size_byte = 0; dynsym = 0 }

-- Where a section of the file at `elf` is found: its place in memory after loading, and the table of
-- symbols, which a library has in its space and a program in its file.
pub record Places : Type 0 where
  pub loaded : Section → ℕ
  pub symbols : Section → ℕ

abbrev pub library_places : ℕ → Places
library_places space = record {
  loaded = λ e. add64 e.virtual_address space;
  symbols = λ e. add64 e.virtual_address space;
}

abbrev pub program_places : ℕ → ℕ → Places
program_places elf space = record {
  loaded = λ e. add64 (sub64 e.virtual_address exec_base) space;
  symbols = λ e. add64 elf e.file_offset;
}

-- "check each entry of section", for one; the first two entries of the offset table are not used.
unfoldable pub note_section : ℕ → Places → Section → Tables → Tables
note_section elf places e t =
    if e.type == type_strtab
    then (if t.strtab == 0 then record t { strtab = elf + e.file_offset } else t)
    else if e.type == type_progbits
    then record t { got = places.loaded e + 24 }
    else if e.type == type_rela
    then record t { rela = elf + e.file_offset; rela_size_byte = e.size_byte }
    else if e.type == type_dynsym
    then record t { dynsym = places.symbols e }
    else t

-- `left` sections, the next of which is at `at`.
unfoldable pub note_sections : (ℕ → ℕ) → ℕ → Places → ℕ → ℕ → Tables → Tables
note_sections ram elf places zero at t = t
note_sections ram elf places (suc left) at t =
    note_sections ram elf places left (at + 64) (note_section elf places (section_at ram at) t)

abbrev pub tables_of : (ℕ → ℕ) → ℕ → Places → Tables
tables_of ram elf places =
    let e = elf_at ram elf in
    note_sections ram elf places e.section_entry_count (elf + e.section_table_position) no_tables

-- `dynsym[ rela[ i ].index ]`
abbrev pub symbol_of : (ℕ → ℕ) → Tables → ℕ → Symbol
symbol_of ram t i = symbol_at ram (t.dynsym + relocation_index ram (t.rela + i * 24) * 24)

-- The address of a function of another library.
unfoldable pub imported : ℕ → (ℕ → ℕ) → Libraries → Tables → ℕ → Option ℕ
imported fuel ram libraries t i =
    let name = λ (k : ℕ). ram (t.strtab + (symbol_of ram t i).name_offset + k) in
    do n ← lib_string_length fuel name; kernel_library_function fuel ram libraries name n

-- What is written into an entry of the offset table, if anything: a library's own functions move to
-- its space (`some`), a program's stay as they are (`none`).
unfoldable pub entry : ℕ → (ℕ → ℕ) → Libraries → Tables → Option ℕ → ℕ → Option (Option ℕ)
entry fuel ram libraries t own i =
    let outside = imported fuel ram libraries t i >>= λ a. some (some a) in
    if (symbol_of ram t i).address == 0 then outside else elim own [
      | none ↦ some none
      | some space ↦ some (some (add64 (symbol_of ram t i).address space))
    ]

-- `left` relocations from `i` on.
unfoldable pub link_from : ℕ → Libraries → Tables → Option ℕ → ℕ → ℕ → (ℕ → ℕ) → Option (ℕ → ℕ)
link_from fuel libraries t own zero i ram = some ram
link_from fuel libraries t own (suc left) i ram = do
  a ← entry fuel ram libraries t own i
  link_from fuel libraries t own left (i + 1)
      (elim a [ none ↦ ram | some v ↦ store64 ram (t.got + i * 8) v ])

abbrev pub linked : ℕ → Libraries → Tables → Option ℕ → (ℕ → ℕ) → Option (ℕ → ℕ)
linked fuel libraries t own ram =
    if t.rela == 0 then some ram else link_from fuel libraries t own (t.rela_size_byte / 24) 0 ram

unfoldable pub kernel_library_link : ℕ → Libraries → ℕ → ℕ → (ℕ → ℕ) → Option (ℕ → ℕ)
kernel_library_link fuel libraries elf space ram =
    linked fuel libraries (tables_of ram elf (library_places space)) (some space) ram

unfoldable pub kernel_exec_link : ℕ → Libraries → ℕ → ℕ → (ℕ → ℕ) → Option (ℕ → ℕ)
kernel_exec_link fuel libraries elf space ram =
    linked fuel libraries (tables_of ram elf (program_places elf space)) none ram
