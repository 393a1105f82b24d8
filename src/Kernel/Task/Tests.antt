-- ===== src/Kernel/Task/Tests.antt =====
-- The theorems on kernel/task.c at a queue of three tasks.
use fern_night.Prelude.{
  ℕ, ◌+◌, ◌*◌, ◌<◌, false, none, some, ◌==◌, ltb, if◌then◌else◌, ◌≡◌, ◌≢◌, ◌⊎◌, refl, arith,
  replicate,
}
use fern_night.Kernel.Task.{Task, Queue, task_limit, is_ready, kernel_task_add, kernel_task_select}
use fern_night.Kernel.Task.Add.{IsValid, Added, task_add-by_id}
use fern_night.Kernel.Task.Select.{Selected, task_select_next}

-- The tasks with pids 1, 2 and 3; the first is being executed, the second sleeps until 9.
abbrev tasks : ℕ → Task
tasks t = record {
  cr3 = 4096 * t;
  pid = if ltb t 3 then t + 1 else 0;
  pid_parent = 0;
  sleep = if t == 1 then 9 else 0;
  page = 0;
  flags = if t == 0 then 3 else if ltb t 3 then 1 else 0;
  name_length = 0;
  name = replicate 255 0;
}

abbrev queue : Queue
queue = record {
  task_base_address = tasks;
  task_id = 3;
  task_count = 3;
  task_semaphore = false;
  task_cpu_semaphore = false;
  active = 0;
  time_rtc = 5;
}

queue-IsValid : IsValid queue
queue-IsValid = record { given = λ t l. ground arith; apart = λ t u lt lu e n. ground arith }

abbrev name : ℕ → ℕ
name x = 97 + x

task_add-by_id_example :
    ((kernel_task_add queue name 4 ≡ some (none, queue))
      × ((u : ℕ) → u < task_limit → (tasks u).flags ≢ 0))
    ⊎ ((t : ℕ) × (q' : Queue) × (kernel_task_add queue name 4 ≡ some (some t, q'))
        × Added queue name 4 t q'
        × IsValid q')
task_add-by_id_example =
    task_add-by_id queue name 4 queue-IsValid (omega arith) refl (λ e. absurd (omega (arith, e)))
      (λ t. refl) (omega arith)

task_select_next_example :
    (t : ℕ) × (q' : Queue) × (kernel_task_select 2 queue 1 ≡ some (t, q')) × Selected queue 1 t q'
unfolding is_ready
task_select_next_example =
    task_select_next queue 2 1 2 (omega arith) (omega arith) (omega arith) refl refl
