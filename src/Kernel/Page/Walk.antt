-- ===== src/Kernel/Page/Walk.antt =====
-- The four nested loops of kernel_page_alloc, kernel_page_clang, kernel_page_flags and
-- kernel_page_map, which differ in what they do at a slot.
pub mod Mapping
pub mod Resolve
pub mod Tests
use fern_night.Prelude.{
  ℕ, zero, suc, ◌+◌, ◌-◌, ◌*◌, ◌^◌, bit_and, bit_or, Bool, true, false, Option, none, some, ◌==◌,
  if◌then◌else◌,
}
use fern_night.Prelude.Machine.{add64, sub64, complement64, mirror}
use fern_night.Kernel.Memory.{Kernel, store, kernel_memory_alloc_page}
use fern_night.Kernel.Page.{
  entries, index1, index2, index3, index4, slot, table_of, kernel_page_address, flag_write,
}

-- The variables that the loops change: the pages left, and the source address.
pub record Job : Type 0 where
  pub kernel : Kernel
  pub pages : ℕ
  pub source : ℕ

-- A loop spins on the semaphore of the memory map, makes the function return, or goes on.
pub data Flow : Type 0 where
  spins : Flow
  returns : Bool → Job → Flow
  continues : Job → Flow

-- A slot of an upper table gives the next table, or ends the function in one of these ways.
pub data Entered : Type 0 where
  spins : Entered
  fails : Job → Entered
  enters : ℕ → Job → Entered

abbrev pub write : Job → ℕ → ℕ → Job
write job at value = record job {
  kernel = record job.kernel { ram = store job.kernel.ram at value };
}

-- "PML3 array doesn't exist?": a new table is registered with its flags.
pub ensure : ℕ → ℕ → Job → Entered
ensure flags at job =
    let entry = job.kernel.ram at in
    if entry == 0
    then elim (kernel_memory_alloc_page job.kernel) [
      | none ↦ Entered.spins
      | some (page, k) ↦
          let job' = write (record job { kernel = k }) at page in
          if page == 0
          then fails job'
          else enters (bit_or page mirror) (write job' at (bit_or page flags))
    ]
    else enters (table_of entry) job

-- `for( ; p1 < KERNEL_PAGE_SIZE_entry; p1++ )`: the slots of a page table.
pub level1 : ℕ → (ℕ → Job → Flow) → ℕ → ℕ → Job → Flow
level1 zero place table p job = continues job
level1 (suc left) place table p job = elim (place (slot table p) job) [
  | Flow.spins ↦ Flow.spins
  | returns answer job' ↦ returns answer job'
  | continues job' ↦
      let counted = record job' { pages = sub64 job'.pages 1 } in
      let rest = level1 left place table (p + 1) counted in
      if counted.pages == 0 then returns true counted else rest
]

-- The loop of an upper level. Only its first round starts inside the lower table.
pub level : ℕ → (ℕ → Job → Entered) → (Bool → ℕ → Job → Flow) → Bool → ℕ → ℕ → Job → Flow
level zero enter body first table p job = continues job
level (suc left) enter body first table p job = elim (enter (slot table p) job) [
  | Entered.spins ↦ Flow.spins
  | fails job' ↦ returns false job'
  | enters lower job' ↦ elim (body first lower job') [
    | Flow.spins ↦ Flow.spins
    | returns answer job'' ↦ returns answer job''
    | continues job'' ↦ level left enter body false table (p + 1) job''
  ]
]

-- Where a loop starts: at the index of the address in its first round, later at 0.
abbrev pub from : Bool → ℕ → ℕ
from first p = if first then p else 0

module _ (enter : ℕ → Job → Entered) (place : ℕ → Job → Flow) (address : ℕ) where
  pub walk1 : Bool → ℕ → Job → Flow
  walk1 first table =
      level1 (entries - from first (index1 address)) place table (from first (index1 address))

  pub walk2 : Bool → ℕ → Job → Flow
  walk2 first table =
      level (entries - from first (index2 address)) enter walk1 first table
        (from first (index2 address))

  pub walk3 : Bool → ℕ → Job → Flow
  walk3 first table =
      level (entries - from first (index3 address)) enter walk2 first table
        (from first (index3 address))

  pub walk4 : ℕ → Job → Flow
  walk4 pml4 = level (entries - index4 address) enter walk3 true pml4 (index4 address)

-- The result and the kernel; `none`: a loop spins. `default` is what the function returns behind
-- its loops.
pub result : Bool → Flow → Option (Bool × Kernel)
result default Flow.spins = none
result default (returns answer job) = some (answer, job.kernel)
result default (continues job) = some (default, job.kernel)

-- "empty entry?": a page is allocated to it.
pub place_page : ℕ → ℕ → Job → Flow
place_page flags at job =
    let entry = job.kernel.ram at in
    if entry == 0
    then elim (kernel_memory_alloc_page job.kernel) [
      | none ↦ Flow.spins
      | some (page, k) ↦
          let job' = write (record job { kernel = k }) at page in
          if page == 0 then returns false job' else continues (write job' at (bit_or page flags))
    ]
    else continues job

pub kernel_page_alloc : Kernel → ℕ → ℕ → ℕ → ℕ → Option (Bool × Kernel)
kernel_page_alloc k pml4 address pages flags = result false (
    walk4 (ensure flags) (place_page flags) address pml4
      (record { kernel = k; pages = pages; source = 0 }))

-- The next page of the source, physical or of a task's space.
pub place_source : ℕ → ℕ → Job → Flow
place_source flags at job =
    continues (write (record job { source = add64 job.source 4096 }) at (bit_or job.source flags))

pub place_clang : ℕ → ℕ → ℕ → Job → Flow
place_clang cr3 flags at job = continues (
    write (record job { source = add64 job.source 4096 }) at
      (bit_or (kernel_page_address job.kernel.ram cr3 job.source) flags))

-- `cr3` is that of the active task.
pub kernel_page_clang : Kernel → ℕ → ℕ → ℕ → ℕ → ℕ → ℕ → Option (Bool × Kernel)
kernel_page_clang k cr3 pml4 source target pages flags = result true (
    walk4 (ensure flags) (place_clang cr3 flags) target pml4
      (record { kernel = k; pages = pages; source = source }))

pub kernel_page_map : Kernel → ℕ → ℕ → ℕ → ℕ → ℕ → Option (Bool × Kernel)
kernel_page_map k pml4 source target count flags = result false (
    walk4 (ensure (bit_or flags flag_write)) (place_source flags) target pml4
      (record { kernel = k; pages = count; source = bit_and source (complement64 mirror) }))

-- Tables are entered without a look at whether they exist.
pub descend : ℕ → Job → Entered
descend at job = enters (table_of (job.kernel.ram at)) job

pub place_flags : ℕ → ℕ → Job → Flow
place_flags flags at job =
    continues (write job at (bit_or (bit_and (job.kernel.ram at) 0xFFFFFFFFFFFFF000) flags))

pub kernel_page_flags : Kernel → ℕ → ℕ → ℕ → ℕ → Option (Bool × Kernel)
kernel_page_flags k pml4 address pages flags = result false (
    walk4 descend (place_flags flags) address pml4
      (record { kernel = k; pages = pages; source = 0 }))
