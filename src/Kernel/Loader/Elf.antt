-- ===== src/Kernel/Loader/Elf.antt =====
-- The structures of library/shared/elf.h as they lie in memory, the lowest byte first, and
-- lib_elf_identify of library/shared/elf.c.
use fern_night.Prelude.{ℕ, ◌+◌, Bool, ◌==◌}
use fern_night.Library.Sys.Heap.Words.{load_bytes}

abbrev pub u16 : (ℕ → ℕ) → ℕ → ℕ
u16 = load_bytes 2

abbrev pub u32 : (ℕ → ℕ) → ℕ → ℕ
u32 = load_bytes 4

abbrev pub u64 : (ℕ → ℕ) → ℕ → ℕ
u64 = load_bytes 8

-- The fields of `struct LIB_ELF_STRUCTURE` that are used.
pub record Elf : Type 0 where
  pub type : ℕ
  pub program_entry_position : ℕ
  pub header_table_position : ℕ
  pub section_table_position : ℕ
  pub header_entry_count : ℕ
  pub section_entry_count : ℕ

unfoldable pub elf_at : (ℕ → ℕ) → ℕ → Elf
elf_at ram a = record {
  type = u16 ram (a + 16);
  program_entry_position = u64 ram (a + 24);
  header_table_position = u64 ram (a + 32);
  section_table_position = u64 ram (a + 40);
  header_entry_count = u16 ram (a + 56);
  section_entry_count = u16 ram (a + 60);
}

-- `struct LIB_ELF_STRUCTURE_HEADER`
pub record Header : Type 0 where
  pub type : ℕ
  pub segment_offset : ℕ
  pub virtual_address : ℕ
  pub segment_size : ℕ
  pub memory_size : ℕ

unfoldable pub header_at : (ℕ → ℕ) → ℕ → Header
header_at ram a = record {
  type = u32 ram a;
  segment_offset = u64 ram (a + 8);
  virtual_address = u64 ram (a + 16);
  segment_size = u64 ram (a + 32);
  memory_size = u64 ram (a + 40);
}

-- `struct LIB_ELF_STRUCTURE_SECTION`
pub record Section : Type 0 where
  pub type : ℕ
  pub virtual_address : ℕ
  pub file_offset : ℕ
  pub size_byte : ℕ

unfoldable pub section_at : (ℕ → ℕ) → ℕ → Section
section_at ram a = record {
  type = u32 ram (a + 4);
  virtual_address = u64 ram (a + 16);
  file_offset = u64 ram (a + 24);
  size_byte = u64 ram (a + 32);
}

-- `struct LIB_ELF_STRUCTURE_DYNAMIC_SYMBOL`, of 24 bytes
pub record Symbol : Type 0 where
  pub name_offset : ℕ
  pub address : ℕ

unfoldable pub symbol_at : (ℕ → ℕ) → ℕ → Symbol
symbol_at ram a = record { name_offset = u32 ram a; address = u64 ram (a + 8) }

-- `index` of `struct LIB_ELF_STRUCTURE_DYNAMIC_RELOCATION`, of 24 bytes
unfoldable pub relocation_index : (ℕ → ℕ) → ℕ → ℕ
relocation_index ram a = u32 ram (a + 12)

-- `LIB_ELF_HEADER_magic_number`
abbrev pub magic_number : ℕ
magic_number = 0x464C457F

unfoldable pub lib_elf_identify : (ℕ → ℕ) → ℕ → Bool
lib_elf_identify ram address = u32 ram address == magic_number
