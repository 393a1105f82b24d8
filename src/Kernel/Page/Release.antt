-- ===== src/Kernel/Page/Release.antt =====
-- kernel_page_deconstruction: the pages and tables of a process go back to the memory map.
use fern_night.Prelude.{ℕ, zero, suc, ◌+◌, bit_and, Bool, not, ◌&&◌, ◌==◌, if◌then◌else◌}
use fern_night.Prelude.Machine.{page_align_down}
use fern_night.Kernel.Memory.{Kernel, store, kernel_memory_release_page}
use fern_night.Kernel.Page.{entries, slot, table_of, flag_shared, flag_process}

-- The page of an entry is released, and the entry removed.
pub release_entry : ℕ → Kernel → Kernel
release_entry at k =
    let k' = kernel_memory_release_page k (page_align_down (k.ram at)) in
    record k' { ram = store k'.ram at 0 }

pub has_flag : ℕ → ℕ → Bool
has_flag entry flag = not (bit_and entry flag == 0)

pub deconstruct1 : ℕ → ℕ → ℕ → Kernel → Kernel
deconstruct1 zero table p k = k
deconstruct1 (suc left) table p k =
    let at = slot table p in
    deconstruct1 left table (p + 1) (
      if has_flag (k.ram at) flag_process && not (has_flag (k.ram at) flag_shared)
      then release_entry at k
      else k)

pub deconstruct_level : (ℕ → Kernel → Kernel) → ℕ → ℕ → ℕ → Kernel → Kernel
deconstruct_level lower zero table p k = k
deconstruct_level lower (suc left) table p k =
    let at = slot table p in
    let below = lower (table_of (k.ram at)) k in
    let k' =
      if k.ram at == 0
      then k
      else if has_flag (below.ram at) flag_process
      then release_entry at below
      else below in
    deconstruct_level lower left table (p + 1) k'

pub deconstruct2 : ℕ → Kernel → Kernel
deconstruct2 table = deconstruct_level (λ pml1. deconstruct1 entries pml1 0) entries table 0

pub deconstruct3 : ℕ → Kernel → Kernel
deconstruct3 table = deconstruct_level deconstruct2 entries table 0

pub kernel_page_deconstruction : ℕ → Kernel → Kernel
kernel_page_deconstruction pml4 k =
    kernel_memory_release_page (deconstruct_level deconstruct3 entries pml4 0 k) pml4
