-- ===== src/Kernel/Page/Merge.antt =====
-- kernel_page_merge: the entries of one table structure that another lacks.
use fern_night.Prelude.{ℕ, zero, suc, ◌+◌, Bool, false, ◌||◌, ◌==◌, if◌then◌else◌}
use fern_night.Kernel.Memory.{store}
use fern_night.Kernel.Page.{entries, slot, table_of}

-- The lowest level: every empty entry of the process is reloaded.
pub merge1 : ℕ → ℕ → ℕ → ℕ → (ℕ → ℕ) → ℕ → ℕ
merge1 zero kernel process p ram = ram
merge1 (suc left) kernel process p ram =
    let copied = store ram (slot process p) (ram (slot kernel p)) in
    merge1 left kernel process (p + 1) (if ram (slot process p) == 0 then copied else ram)

-- An upper level, over what is done where both entries exist; some entries are skipped.
pub merge_level : (ℕ → Bool) → (ℕ → ℕ → (ℕ → ℕ) → ℕ → ℕ) → ℕ → ℕ → ℕ → ℕ → (ℕ → ℕ) → ℕ → ℕ
merge_level skip lower zero kernel process p ram = ram
merge_level skip lower (suc left) kernel process p ram =
    let source = ram (slot kernel p) in
    let target = ram (slot process p) in
    let ram' =
      if skip p || (source == 0)
      then ram
      else if target == 0
      then store ram (slot process p) source
      else lower (table_of source) (table_of target) ram in
    merge_level skip lower left kernel process (p + 1) ram'

-- `KERNEL_PAGE_ENTRY_stack` and `KERNEL_PAGE_ENTRY_stack_context`
pub is_redundant : ℕ → Bool
is_redundant p = (p == 223) || (p == 510)

abbrev pub keep_all : ℕ → Bool
keep_all p = false

pub merge_pml2 : ℕ → ℕ → (ℕ → ℕ) → ℕ → ℕ
merge_pml2 kernel process =
    merge_level keep_all (λ k p. merge1 entries k p 0) entries kernel process 0

pub merge_pml3 : ℕ → ℕ → (ℕ → ℕ) → ℕ → ℕ
merge_pml3 kernel process = merge_level keep_all merge_pml2 entries kernel process 0

pub kernel_page_merge : (ℕ → ℕ) → ℕ → ℕ → ℕ → ℕ
kernel_page_merge ram kernel process =
    merge_level is_redundant merge_pml3 entries kernel process 0 ram
