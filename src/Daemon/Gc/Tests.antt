-- ===== src/Daemon/Gc/Tests.antt =====
-- The theorems on daemon/gc.d.c at a queue of the kernel, a closed task, its child and grandchild.
use fern_night.Prelude.{ℕ, ◌*◌, some, [], ◌==◌, if◌then◌else◌, ◌≡◌, arith}
use fern_night.Daemon.Gc.{Entry, Kernel, child, collect}
use fern_night.Daemon.Gc.Outcome.{IsOrdered, Outcome}
use fern_night.Daemon.Gc.Child.{child-Outcome}
use fern_night.Daemon.Gc.Freed.{IsQueue, Doomed}
use fern_night.Daemon.Gc.Collect.{collect-twice, collect-Round, Round}

-- The grandchild 3 stands in front of its parent 2.
abbrev queue : ℕ → Entry
queue i = record {
  cr3 = 4096 * i;
  pid = if i == 1 then 3 else if i == 2 then 1 else if i == 3 then 2 else 0;
  pid_parent = if i == 1 then 2 else if i == 2 then 0 else if i == 3 then 1 else 0;
  stream_in = i;
  stream_out = i;
  memory_map = i;
  flags =
      if i == 0
      then 0x8000
      else if i == 2
      then 4
      else if i == 1
      then 1
      else if i == 3
      then 1
      else 0;
}

abbrev kernel : Kernel
kernel = record {
  entries = queue;
  task_count = 4;
  streams = [];
  maps = [];
  tables = [];
  thread_tables = [];
}

queue-IsOrdered : IsOrdered 3 queue
queue-IsOrdered = record { later = λ i live h. ground arith; last = λ i live. ground arith }

queue-IsQueue : IsQueue 3 queue
queue-IsQueue = record { ordered = queue-IsOrdered; user = λ i c. ground arith }

child-Outcome_example : (later : ℕ → Entry) × (child 4 queue 1 ≡ some later) × Outcome queue 1 later
child-Outcome_example =
    child-Outcome 4 3 1 queue queue-IsOrdered (omega arith) (omega arith) (omega arith)

collect-Round_example :
    (later : Kernel) × (collect 4 kernel ≡ some later) × Round 3 queue later.entries
collect-Round_example = collect-Round 4 3 kernel queue-IsQueue (omega arith)

collect-twice_example :
    (later last : Kernel) × (collect 4 kernel ≡ some later)
    × (collect 4 later ≡ some last)
    × ((i : ℕ) → Doomed queue i → (last.entries i).flags ≡ 0)
collect-twice_example = collect-twice 4 3 kernel queue-IsQueue (omega arith)
