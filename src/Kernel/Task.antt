-- ===== src/Kernel/Task.antt =====
-- kernel/task.c: the job queue. `kernel_task` itself switches stacks and paging tables in assembly
-- and is not here. The clock stands still while the queue is searched.
pub mod Secured
pub mod Add
pub mod Select
pub mod Leave
pub mod Tests
use fern_night.Prelude.{
  ℕ, zero, suc, ◌+◌, ◌-◌, ◌*◌, ◌/◌, ◌^◌, bit_and, bit_or, Bool, true, false, not, ◌&&◌, Option,
  none, some, List, set, ltb, leb, ◌==◌, if◌then◌else◌,
}
use fern_night.Prelude.Machine.{add64}

-- `struct KERNEL_STRUCTURE_TASK`, by the fields that the queue uses. `name` has 255 bytes.
pub record Task : Type 0 where
  pub cr3 : ℕ
  pub pid : ℕ
  pub pid_parent : ℕ
  pub sleep : ℕ
  pub page : ℕ
  pub flags : ℕ
  pub name_length : ℕ
  pub name : List ℕ

-- `KERNEL_TASK_limit`: 8192 bytes for records of 371.
abbrev pub task_limit : ℕ
task_limit = 22

-- `KERNEL_TASK_FLAG_*`
abbrev pub flag_active : ℕ
flag_active = 1

abbrev pub flag_exec : ℕ
flag_exec = 2

abbrev pub flag_close : ℕ
flag_close = 4

abbrev pub flag_secured : ℕ
flag_secured = 0x8000

-- The part of `struct KERNEL` that the queue uses. `active` is the entry that
-- `task_cpu_address` has for this processor.
pub record Queue : Type 0 where
  pub task_base_address : ℕ → Task
  pub task_id : ℕ
  pub task_count : ℕ
  pub task_semaphore : Bool
  pub task_cpu_semaphore : Bool
  pub active : ℕ
  pub time_rtc : ℕ

abbrev pub update : (ℕ → Task) → ℕ → Task → ℕ → Task
update tasks t task u = if u == t then task else tasks u

pub kernel_task_pid : Queue → ℕ
kernel_task_pid q = (q.task_base_address q.active).pid

-- The first of `left` entries from `t` on that passes a test.
pub first_entry : (Task → Bool) → (ℕ → Task) → ℕ → ℕ → Option ℕ
first_entry test tasks zero t = none
first_entry test tasks (suc left) t =
    let later = first_entry test tasks left (t + 1) in if test (tasks t) then some t else later

-- `name[ n ] = name[ n ]` for the `left` bytes from `n` on, and the terminator.
pub copy_name : List ℕ → (ℕ → ℕ) → ℕ → ℕ → List ℕ
copy_name name source zero n = set name n 0
copy_name name source (suc left) n = copy_name (set name n (source n)) source left (n + 1)

-- The terminator of a name of 255 bytes is the low byte of the next record, which is of its `cr3`.
pub terminate_past : (ℕ → Task) → ℕ → ℕ → ℕ → Task
terminate_past tasks t length u =
    if (length == 255) && (u == t + 1)
    then record (tasks u) { cr3 = (tasks u).cr3 / 256 * 256 }
    else tasks u

pub is_free : Task → Bool
is_free task = task.flags == 0

-- `for( ; t < KERNEL_TASK_limit; t++ ) if( flags ) continue;`
pub secure : Queue → (ℕ → ℕ) → ℕ → ℕ → Queue
secure q name length t =
    let pid = add64 q.task_id 1 in
    let marked =
      update q.task_base_address t
        (record (q.task_base_address t) { flags = flag_secured; pid = pid }) in
    let filled = update marked t (record (marked t) {
      pid_parent = (marked q.active).pid;
      page = 0;
      name_length = length;
      name = copy_name (marked t).name name length 0;
    }) in
    record q {
      task_base_address = terminate_past filled t length;
      task_id = pid;
      task_count = add64 q.task_count 1;
      task_semaphore = false;
    }

-- The entry of the new task, if one is free; `length` is below 256. The outer `none`: the loop on
-- the semaphore spins.
pub kernel_task_add : Queue → (ℕ → ℕ) → ℕ → Option (Option ℕ × Queue)
kernel_task_add q name length =
    if q.task_semaphore then none else elim (first_entry is_free q.task_base_address task_limit 0) [
      | none ↦ some (none, record q { task_semaphore = false })
      | some t ↦ some (some t, secure q name length t)
    ]

-- The entry of a task, or none (EMPTY).
pub kernel_task_by_id : Queue → ℕ → Option ℕ
kernel_task_by_id q pid = first_entry (λ task. task.pid == pid) q.task_base_address task_limit 0

-- "task available for processing?", and not dormant
pub is_ready : ℕ → Task → Bool
is_ready time task =
    not (bit_and task.flags flag_active == 0)
    && ((bit_and task.flags flag_exec == 0) && leb task.sleep time)

-- `while( TRUE )`: the queue from `entry` on, then from its beginning, on fuel.
pub select_round : ℕ → Queue → ℕ → Option ℕ
select_round zero q entry = none
select_round (suc fuel) q entry =
    let rest = select_round fuel q 0 in
    elim (first_entry (is_ready q.time_rtc) q.task_base_address (task_limit - entry) entry) [
      | none ↦ rest
      | some t ↦ some t
    ]

-- `none`: the semaphore is held, or the search goes on after `fuel` rounds.
pub kernel_task_select : ℕ → Queue → ℕ → Option (ℕ × Queue)
kernel_task_select fuel q entry =
    if q.task_cpu_semaphore then none else elim (select_round fuel q entry) [
      | none ↦ none
      | some t ↦
          let task = q.task_base_address t in
          some (
            t,
            record q {
              task_base_address =
                  update q.task_base_address t
                    (record task { flags = bit_or task.flags flag_exec });
              task_cpu_semaphore = false;
            },
          )
    ]

-- `kernel_service_task_status` of kernel/service.c
pub kernel_service_task_status : Queue → ℕ → ℕ
kernel_service_task_status q pid = elim (kernel_task_by_id q pid) [
  | none ↦ 0
  | some t ↦ (q.task_base_address t).flags
]

-- `kernel_service_exit` and `kernel_service_sleep` of kernel/service.c, up to the interrupt that
-- releases the processor. The time to sleep is not used.
pub kernel_service_exit : Queue → Queue
kernel_service_exit q =
    let task = q.task_base_address q.active in
    let closed = bit_or task.flags flag_close in
    record q {
      task_base_address =
          update q.task_base_address q.active
            (record task { flags = bit_and closed (2 ^ 16 - 1 - flag_active) });
    }

pub kernel_service_sleep : Queue → ℕ → Queue
kernel_service_sleep q ms = record q {
  task_base_address =
      update q.task_base_address q.active
        (record (q.task_base_address q.active) { sleep = add64 q.time_rtc 1 });
}

pub kernel_service_uptime : Queue → ℕ
kernel_service_uptime q = q.time_rtc
