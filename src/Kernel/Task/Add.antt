-- ===== src/Kernel/Task/Add.antt =====
-- kernel_task_add and kernel_task_by_id.
use fern_night.Prelude.{
  ℕ, zero, suc, ◌+◌, ◌^◌, ◌≤◌, ◌<◌, Bool, true, false, Option, none, some, ◌==◌, if◌then◌else◌, ◌≡◌,
  ◌≢◌, refl, ap, length, arith, Bool-cases, ◌⊎◌, inl, inr,
}
use native.Mathlib.Decide.{ℕ_discrete}
use fern_night.Prelude.Machine.{add64}
use fern_night.Kernel.Task.Secured.{Secured, secure-Secured}
use fern_night.Kernel.Task.{
  Task, task_limit, Queue, first_entry, is_free, secure, terminate_past, kernel_task_add,
  kernel_task_by_id,
}

-- What a search of the `left` entries from `t` on found.
abbrev pub Found : (Task → Bool) → (ℕ → Task) → ℕ → ℕ → Option ℕ → Type 0
Found test tasks left t none = (u : ℕ) → t ≤ u → u < t + left → test (tasks u) ≡ false
Found test tasks left t (some v) =
    (t ≤ v)
    × (v < t + left)
    × (test (tasks v) ≡ true)
    × ((u : ℕ) → t ≤ u → u < v → test (tasks u) ≡ false)

pub first_entry-Found :
    (test : Task → Bool) (tasks : ℕ → Task) (left t : ℕ)
    → Found test tasks left t (first_entry test tasks left t)
unfolding first_entry
first_entry-Found test tasks zero t = λ u h l. absurd (omega arith)
first_entry-Found test tasks (suc left) t = elim (Bool-cases (test (tasks t))) [
  | inl e ↦ rw e (omega arith, omega arith, e, λ u h l. absurd (omega arith))
  | inr e ↦
      rw e
        (later (first_entry test tasks left (t + 1)) (first_entry-Found test tasks left (t + 1)) e)
]
  where
    later :
        (o : Option ℕ)
        → Found test tasks left (t + 1) o
        → test (tasks t) ≡ false
        → Found test tasks (suc left) t o
    later none h e =
        λ u l g. elim (ℕ_discrete u t) [ yes s ↦ rw s e | no n ↦ h u (omega arith) (omega arith) ]
    later (some v) (a, b, c, d) e = (
      omega arith,
      omega arith,
      c,
      λ u l g. elim (ℕ_discrete u t) [ yes s ↦ rw s e | no n ↦ d u (omega arith) g ],
    )

-- The pids of the queue: none is above the last one given, and no two entries share one but EMPTY.
pub record IsValid (q : Queue) : Type 0 where
  pub given : (t : ℕ) → t < task_limit → (q.task_base_address t).pid ≤ q.task_id
  pub apart :
      (t u : ℕ)
      → t < task_limit
      → u < task_limit
      → (q.task_base_address t).pid ≡ (q.task_base_address u).pid
      → (q.task_base_address t).pid ≢ 0
      → t ≡ u

-- The pid of each entry after `secure`.
secure-pid :
    (q : Queue) (name : ℕ → ℕ) (length t u : ℕ)
    → ((secure q name length t).task_base_address u).pid
      ≡ (if u == t then add64 q.task_id 1 else (q.task_base_address u).pid)
unfolding secure terminate_past
secure-pid q name length t u = ground arith

secure-IsValid :
    (q : Queue) (name : ℕ → ℕ) (length t : ℕ)
    → IsValid q
    → q.task_id + 1 < 2 ^ 64
    → IsValid (secure q name length t)
unfolding secure
secure-IsValid q name length t valid h = record {
  given = λ u l. ground (arith, secure-pid q name length t u, valid.given u l);
  apart = λ u v lu lv e n. ground (
    arith,
    secure-pid q name length t u,
    secure-pid q name length t v,
    valid.given u lu,
    valid.given v lv,
    valid.apart u v lu lv,
  );
}

-- What `kernel_task_add` did: the first free entry is secured for the name, and found by its pid.
pub record Added (q : Queue) (name : ℕ → ℕ) (length t : ℕ) (q' : Queue) : Type 0 where
  pub first : (t < task_limit) × ((q.task_base_address t).flags ≡ 0)
  pub before : (u : ℕ) → u < t → (q.task_base_address u).flags ≢ 0
  pub entry : Secured q name length t q'
  pub found : kernel_task_by_id q' (q.task_id + 1) ≡ some t

-- A search that finds the only entry that passes.
first_entry-only :
    (test : Task → Bool) (tasks : ℕ → Task) (t : ℕ)
    → t < task_limit
    → test (tasks t) ≡ true
    → ((u : ℕ) → u < task_limit → test (tasks u) ≡ true → u ≡ t)
    → first_entry test tasks task_limit 0 ≡ some t
first_entry-only test tasks t h e only =
    by_result (first_entry test tasks task_limit 0) (first_entry-Found test tasks task_limit 0)
  where
    by_result : (o : Option ℕ) → Found test tasks task_limit 0 o → o ≡ some t
    by_result none missing = ground (arith, e, missing t)
    by_result (some v) (a, b, c, d) = ap some (only v b c)

by_id-secure :
    (q : Queue) (name : ℕ → ℕ) (length t : ℕ)
    → IsValid q
    → q.task_id + 1 < 2 ^ 64
    → t < task_limit
    → kernel_task_by_id (secure q name length t) (add64 q.task_id 1) ≡ some t
unfolding kernel_task_by_id
by_id-secure q name length t valid h l =
    first_entry-only (λ task. task.pid == add64 q.task_id 1)
      (secure q name length t).task_base_address t l (ground (arith, secure-pid q name length t t))
      (λ u g e. ground (arith, secure-pid q name length t u, valid.given u g))

-- Let the queue be valid and not locked, with a pid left, let the active task's entry be in use, let the
-- arrays for names have 255 bytes, and let the name have at most 255. Then `kernel_task_add` returns.
-- Either every entry is used and the queue stays as it is; or the first free entry is in the queue
-- as a new task: it is secured and has the next pid, the active task's pid as its parent, no pages, and
-- the name, which is terminated where it is shorter than 255 bytes; all other entries stay, but for the
-- one behind a name of 255 bytes. `kernel_task_by_id` then finds it by its pid, the task is counted, and
-- the queue is valid and not locked.
pub task_add-by_id :
    (q : Queue) (name : ℕ → ℕ) (size : ℕ)
    → IsValid q
    → q.task_id + 1 < 2 ^ 64
    → q.task_semaphore ≡ false
    → (q.task_base_address q.active).flags ≢ 0
    → ((t : ℕ) → length ((q.task_base_address t).name) ≡ 255)
    → size ≤ 255
    → ((kernel_task_add q name size ≡ some (none, q))
        × ((u : ℕ) → u < task_limit → (q.task_base_address u).flags ≢ 0))
      ⊎ ((t : ℕ) × (q' : Queue) × (kernel_task_add q name size ≡ some (some t, q'))
          × Added q name size t q'
          × IsValid q')
unfolding kernel_task_add is_free
task_add-by_id q name size valid h unlocked active arrays short =
    by_result (first_entry is_free q.task_base_address task_limit 0) refl
      (first_entry-Found is_free q.task_base_address task_limit 0)
  where
    next : add64 q.task_id 1 ≡ q.task_id + 1
    next = omega arith

    by_result :
        (o : Option ℕ)
        → first_entry is_free q.task_base_address task_limit 0 ≡ o
        → Found is_free q.task_base_address task_limit 0 o
        → ((kernel_task_add q name size ≡ some (none, q))
            × ((u : ℕ) → u < task_limit → (q.task_base_address u).flags ≢ 0))
          ⊎ ((t : ℕ) × (q' : Queue) × (kernel_task_add q name size ≡ some (some t, q'))
              × Added q name size t q'
              × IsValid q')
    by_result none e used = inl (rw (unlocked, e) refl, λ u l. ground (arith, used u))
    by_result (some t) e (a, b, c, d) =
        let free : (q.task_base_address t).flags ≡ 0 = ground (arith, c) in
        let other : q.active ≢ t = λ k. active (rw k free) in
        inr (
          t,
          secure q name size t,
          ground (arith, e),
          record {
            first = (b, free);
            before = λ u l. ground (arith, d u);
            entry = secure-Secured q name size t (arrays t) short h other;
            found = rw next at (by_id-secure q name size t valid h b);
          },
          secure-IsValid q name size t valid h,
        )
