-- ===== src/Kernel/Task/Secured.antt =====
-- What `secure` writes into the entry of a new task, and what it leaves.
use native.Mathlib.Decide.{ℕ_discrete}
use fern_night.Prelude.{
  ℕ, zero, suc, ◌+◌, ◌%◌, ◌^◌, ◌≤◌, ◌<◌, false, ◌≡◌, ◌≢◌, ◌⊎◌, refl, ◌∙◌, List, get_or, set, length,
  length-set, get_or-set_self, get_or-set_ne, arith,
}
use fern_night.Kernel.Task.{Queue, copy_name, terminate_past, secure}

-- The bytes in front of those that are copied, and behind the terminator.
copy_name_before :
    (xs : List ℕ) (source : ℕ → ℕ) (left n k : ℕ)
    → k < n
    → get_or (copy_name xs source left n) k 0 ≡ get_or xs k 0
unfolding copy_name
copy_name_before xs source zero n k h = get_or-set_ne xs n k 0 0 (λ e. absurd (omega (arith, e)))
copy_name_before xs source (suc left) n k h =
    copy_name_before (set xs n (source n)) source left (n + 1) k (omega arith)
    ∙ get_or-set_ne xs n k (source n) 0 (λ e. absurd (omega (arith, e)))

copy_name_inside :
    (xs : List ℕ) (source : ℕ → ℕ) (left n k : ℕ)
    → n ≤ k
    → k < n + left
    → k < length xs
    → get_or (copy_name xs source left n) k 0 ≡ source k
unfolding copy_name
copy_name_inside xs source zero n k a b c = absurd (omega arith)
copy_name_inside xs source (suc left) n k a b c = elim (ℕ_discrete k n) [
  | yes e ↦ rw e (
      copy_name_before (set xs n (source n)) source left (n + 1) n (omega arith)
      ∙ get_or-set_self xs n (source n) 0 (omega (arith, e)))
  | no ne ↦
      copy_name_inside (set xs n (source n)) source left (n + 1) k (ground arith) (omega arith)
        (omega (arith, length-set xs n (source n)))
]

copy_name_end :
    (xs : List ℕ) (source : ℕ → ℕ) (left n : ℕ)
    → n + left < length xs
    → get_or (copy_name xs source left n) (n + left) 0 ≡ 0
unfolding copy_name
copy_name_end xs source zero n h =
    let e : n + 0 ≡ n = omega arith in rw e (get_or-set_self xs n 0 0 (omega arith))
copy_name_end xs source (suc left) n h =
    let e : n + suc left ≡ n + 1 + left = omega arith in
    rw e (
      copy_name_end (set xs n (source n)) source left (n + 1)
        (omega (arith, length-set xs n (source n))))

-- The queue `q'` is `q` with a new task in the entry `t`: the entry is secured and has the next pid, the
-- pid of the active task as its parent, no pages, and the name with its terminator where the array of
-- 255 bytes has room for it; all other entries stay, but that the terminator of a name of 255 bytes
-- falls on the one behind.
pub record Secured (q : Queue) (name : ℕ → ℕ) (length t : ℕ) (q' : Queue) : Type 0 where
  pub secured : (q'.task_base_address t).flags ≡ 0x8000
  pub next_pid : (q'.task_base_address t).pid ≡ q.task_id + 1
  pub parent : (q'.task_base_address t).pid_parent ≡ (q.task_base_address q.active).pid
  pub no_pages : (q'.task_base_address t).page ≡ 0
  pub named : (q'.task_base_address t).name_length ≡ length
  pub characters : (k : ℕ) → k < length → get_or (q'.task_base_address t).name k 0 ≡ name k
  pub terminated : length < 255 → get_or (q'.task_base_address t).name length 0 ≡ 0
  pub others :
      (u : ℕ)
      → u ≢ t
      → (length < 255) ⊎ (u ≢ t + 1)
      → q'.task_base_address u ≡ q.task_base_address u
  pub last_pid : q'.task_id ≡ q.task_id + 1
  pub counted : q'.task_count ≡ (q.task_count + 1) % 2 ^ 64
  pub unlocked : q'.task_semaphore ≡ false
  pub same_processor : (q'.active ≡ q.active) × (q'.time_rtc ≡ q.time_rtc)

pub secure-Secured :
    (q : Queue) (name : ℕ → ℕ) (size t : ℕ)
    → length ((q.task_base_address t).name) ≡ 255
    → size ≤ 255
    → q.task_id + 1 < 2 ^ 64
    → q.active ≢ t
    → Secured q name size t (secure q name size t)
unfolding secure terminate_past
secure-Secured q name size t whole short h other =
    let xs = (q.task_base_address t).name in
    record {
      secured = ground arith;
      next_pid = ground arith;
      parent = ground arith;
      no_pages = ground arith;
      named = ground arith;
      characters = λ k l. ground (
        arith,
        copy_name_inside xs name size 0 k (omega arith) (omega arith) (omega (arith, whole)),
      );
      terminated = λ l. ground (arith, copy_name_end xs name size 0 (omega (arith, whole)));
      others = λ u n o. ground arith;
      last_pid = omega arith;
      counted = refl;
      unlocked = refl;
      same_processor = (refl, refl);
    }
