-- ===== src/Kernel/Service.antt =====
-- The memory calls of kernel/service.c (kernel_service_memory_alloc, kernel_service_memory_release,
-- kernel_service_memory_share), and kernel_memory_share of kernel/memory.c.
pub mod Release
pub mod Tests
use fern_night.Prelude.{
  ℕ, zero, suc, ◌+◌, ◌-◌, ◌/◌, ◌^◌, bit_and, Bool, true, false, Option, none, some, ◌==◌,
  if◌then◌else◌,
}
use fern_night.Prelude.Machine.{add64, sub64, shl64, complement64, mirror, page_align_up}
use fern_night.Kernel.Memory.{
  Map, rounds, Kernel, search, reserve, kernel_memory_acquire, kernel_memory_dispose,
  kernel_memory_release_page,
}
use fern_night.Kernel.Page.{kernel_page_remove}
use fern_night.Kernel.Page.Walk.{kernel_page_alloc, kernel_page_clang, kernel_page_map}

-- What `struct KERNEL_STRUCTURE_TASK` keeps of the memory of a process.
pub record Process : Type 0 where
  pub cr3 : ℕ
  pub memory_map : Map
  pub page : ℕ

-- `MACRO_PAGE_ALIGN_UP( bytes ) >> STATIC_PAGE_SIZE_shift`
abbrev pub pages_of : ℕ → ℕ
pages_of bytes = page_align_up bytes / 4096

-- `KERNEL_PAGE_FLAG_present`, `_write`, `_user` and `_process`, and with `_shared`
abbrev pub process_flags : ℕ
process_flags = 0x207

abbrev pub shared_flags : ℕ
shared_flags = 0x607

-- The address, or EMPTY. `none`: the kernel stops for good ("No enough memory."), or spins.
pub kernel_service_memory_alloc : Kernel → Process → ℕ → Option (ℕ × Kernel × Process)
kernel_service_memory_alloc k task bytes =
    let pages = pages_of bytes in
    let (first, m) = kernel_memory_acquire task.memory_map k.page_limit pages in
    let allocated = shl64 first 12 in
    if allocated == 0
    then some (0, k, record task { memory_map = m })
    else elim (kernel_page_alloc k task.cr3 allocated pages process_flags) [
      | none ↦ none
      | some (answer, k') ↦
          if answer
          then some (allocated, k', record task { memory_map = m; page = add64 task.page pages })
          else none
    ]

-- "if released": the page goes back, and the process uses one less.
pub give_back : ℕ → Kernel → Process → Kernel × Process
give_back page k task =
    if page == 0
    then (k, task)
    else (kernel_memory_release_page k page, record task { page = sub64 task.page 1 })

-- `left` pages from page `i` on.
pub release_pages : ℕ → ℕ → Kernel → Process → Kernel × Process
release_pages zero i k task = (k, task)
release_pages (suc left) i k task =
    let (page, ram) = kernel_page_remove k.ram task.cr3 (shl64 i 12) in
    let (k', task') = give_back page (record k { ram = ram }) task in
    release_pages left (i + 1) k'
      (record task' { memory_map = kernel_memory_dispose task'.memory_map i 1 })

pub kernel_service_memory_release : Kernel → Process → ℕ → ℕ → Kernel × Process
kernel_service_memory_release k task address bytes =
    let first = bit_and address (complement64 mirror) / 4096 in
    release_pages (rounds first (pages_of bytes)) first k task

-- `cr3` is that of the active task, and `target` the task of the given pid.
pub kernel_service_memory_share : Kernel → ℕ → Process → ℕ → ℕ → Option (ℕ × Kernel × Process)
kernel_service_memory_share k cr3 target source bytes =
    let pages = pages_of bytes in
    let (first, m) = kernel_memory_acquire target.memory_map k.page_limit pages in
    let address = shl64 first 12 in
    elim (kernel_page_clang k cr3 target.cr3 source address pages shared_flags) [
      | none ↦ none
      | some (answer, k') ↦ some (address, k', record target { memory_map = m })
    ]

-- `KERNEL_VIRTUAL_SIZE_byte << STATIC_MULTIPLE_BY_8_shift`
abbrev pub virtual_limit : ℕ
virtual_limit = 32768

-- The address of the space in the active task, or EMPTY. The result of `kernel_page_map` is not
-- looked at.
pub kernel_memory_share : Kernel → Process → ℕ → ℕ → Option (ℕ × Kernel × Process)
kernel_memory_share k task physical_address size_byte =
    let pages = pages_of size_byte in
    elim (search virtual_limit task.memory_map virtual_limit pages 0) [
      | none ↦ some (0, k, task)
      | some i ↦
          elim (kernel_page_map k task.cr3 physical_address (shl64 i 12) pages process_flags) [
            | none ↦ none
            | some (answer, k') ↦ some (
              shl64 i 12,
              k',
              record task { memory_map = reserve task.memory_map (rounds i pages) i },
            )
          ]
    ]
