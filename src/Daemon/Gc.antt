-- ===== src/Daemon/Gc.antt =====
-- daemon/gc.d.c: the collector, which frees the entries of closed tasks. `while( flags & exec )` ends
-- when the processor that runs the task puts it aside, which clears the flag (kernel_task).
pub mod Family
pub mod Outcome
pub mod Child
pub mod Freed
pub mod Collect
pub mod Tests
use fern_night.Prelude.{
  ℕ, zero, suc, ◌+◌, ◌-◌, ◌*◌, ◌/◌, ◌^◌, bit_and, bit_or, Bool, true, false, not, ◌&&◌, Option,
  none, some, List, [], ◌∷◌, ◌==◌, if◌then◌else◌,
}
use fern_night.Prelude.Machine.{sub64}

-- `struct KERNEL_STRUCTURE_TASK`, by the fields that the collector uses.
pub record Entry : Type 0 where
  pub cr3 : ℕ
  pub pid : ℕ
  pub pid_parent : ℕ
  pub stream_in : ℕ
  pub stream_out : ℕ
  pub memory_map : ℕ
  pub flags : ℕ

-- `KERNEL_TASK_limit`
abbrev pub limit : ℕ
limit = 22

-- `KERNEL_TASK_FLAG_*`
abbrev pub flag_active : ℕ
flag_active = 2 ^ 0

abbrev pub flag_exec : ℕ
flag_exec = 2 ^ 1

abbrev pub flag_close : ℕ
flag_close = 2 ^ 2

abbrev pub flag_thread : ℕ
flag_thread = 2 ^ 4

-- `~flag` of 16 bits
abbrev pub without : ℕ → ℕ → ℕ
without flag flags = bit_and flags (2 ^ 16 - 1 - flag)

abbrev pub is_live : Entry → Bool
is_live e = not (e.flags == 0)

abbrev pub is_closed : Entry → Bool
is_closed e = not (bit_and e.flags flag_close == 0)

abbrev pub is_active : Entry → Bool
is_active e = not (bit_and e.flags flag_active == 0)

abbrev pub put : (ℕ → Entry) → ℕ → Entry → ℕ → Entry
put entries i e j = if j == i then e else entries j

-- "mark task as not active anymore", the wait, "mark task as closed"
unfoldable pub marked : Entry → Entry
marked e = record e { flags = bit_or (without flag_exec (without flag_active e.flags)) flag_close }

-- The `left` entries from `i` on, with the recursive call `visit`.
unfoldable pub children :
    ((ℕ → Entry) → ℕ → Option (ℕ → Entry)) → ℕ → ℕ → (ℕ → Entry) → ℕ → Option (ℕ → Entry)
children visit zero i entries pid = some entries
children visit (suc left) i entries pid =
    elim (is_live (entries i) && (entries i).pid_parent == pid) [
      | false ↦ children visit left (i + 1) entries pid
      | true ↦ elim (visit entries (entries i).pid) [
        | none ↦ none
        | some closed ↦ children visit left (i + 1) (put closed i (marked (closed i))) pid
      ]
    ]

-- `none`: there are more than `fuel` calls inside one another.
unfoldable pub child : ℕ → (ℕ → Entry) → ℕ → Option (ℕ → Entry)
child zero entries pid = none
child (suc fuel) entries pid = children (child fuel) limit 0 entries pid

-- The state of the collector: the queue, and the calls of the kernel's functions, the last one first:
-- stream_release, memory_release for a memory map, page_deconstruction for paging tables; and the
-- tables of threads from which all entries but those of the two stacks were removed.
pub record Kernel : Type 0 where
  pub entries : ℕ → Entry
  pub task_count : ℕ
  pub streams : List ℕ
  pub maps : List ℕ
  pub tables : List ℕ
  pub thread_tables : List ℕ

-- "task released"
pub freed : (ℕ → Entry) → ℕ → ℕ → Entry
freed entries i = put entries i (record (entries i) { flags = 0 })

-- A closed task after its children were closed
pub released : Kernel → ℕ → Kernel
released k i =
    let e = k.entries i in
    let is_thread = not (bit_and e.flags flag_thread == 0) in
    record {
      entries = freed k.entries i;
      task_count = sub64 k.task_count 1;
      streams = e.stream_out ∷ e.stream_in ∷ k.streams;
      maps = if is_thread then k.maps else e.memory_map ∷ k.maps;
      tables = e.cr3 ∷ k.tables;
      thread_tables = if is_thread then e.cr3 ∷ k.thread_tables else k.thread_tables;
    }

-- "search in task queue for closed tasks", the `left` entries from `i` on
pub search_closed : ℕ → ℕ → ℕ → Kernel → Option Kernel
search_closed fuel zero i k = some k
search_closed fuel (suc left) i k = elim (is_closed (k.entries i)) [
  | false ↦ search_closed fuel left (i + 1) k
  | true ↦ elim (child fuel k.entries (k.entries i).pid) [
    | none ↦ none
    | some entries ↦ search_closed fuel left (i + 1) (released (record k { entries = entries }) i)
  ]
]

-- One round of the endless loop.
pub collect : ℕ → Kernel → Option Kernel
collect fuel k = search_closed fuel limit 0 k
