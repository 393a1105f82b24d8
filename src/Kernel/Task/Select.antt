-- ===== src/Kernel/Task/Select.antt =====
-- kernel_task_select: a ready task in cyclic order, which then is not ready any more.
use fern_night.Prelude.{
  ℕ, zero, suc, ◌-◌, ◌≤◌, ◌<◌, bit_or, true, false, Option, none, some, ◌≡◌, ◌≢◌, refl, ap, ◌∙◌,
  arith,
}
use fern_night.Prelude.Bits.{bit_at-bit_or, bit_and-pow, bit_at-pow_self, bit_at-lt}
use fern_night.Kernel.Task.{
  Task, task_limit, flag_exec, Queue, update, first_entry, is_ready, select_round,
  kernel_task_select,
}
use fern_night.Kernel.Task.Add.{Found, first_entry-Found}

-- `t` is the first ready entry from `entry` on, cyclically.
pub data NextReady (q : Queue) (entry t : ℕ) : Type 0 where
  ahead :
      entry ≤ t
      → t < task_limit
      → is_ready q.time_rtc (q.task_base_address t) ≡ true
      → ((u : ℕ) → entry ≤ u → u < t → is_ready q.time_rtc (q.task_base_address u) ≡ false)
      → NextReady q entry t
  wrapped :
      t < task_limit
      → is_ready q.time_rtc (q.task_base_address t) ≡ true
      → ((u : ℕ) → u < t → is_ready q.time_rtc (q.task_base_address u) ≡ false)
      → ((u : ℕ) → entry ≤ u → u < task_limit → is_ready q.time_rtc (q.task_base_address u) ≡ false)
      → NextReady q entry t

module _ (q : Queue) (fuel entry : ℕ) where
  abbrev ready_from : ℕ → Option ℕ
  ready_from e = first_entry (is_ready q.time_rtc) q.task_base_address (task_limit - e) e

  round_found : (t : ℕ) → ready_from entry ≡ some t → select_round (suc fuel) q entry ≡ some t
  unfolding select_round
  round_found t e =
      ap (λ (o : Option ℕ). elim o [ none ↦ select_round fuel q 0 | some v ↦ some v ]) e

  round_missed : ready_from entry ≡ none → select_round (suc fuel) q entry ≡ select_round fuel q 0
  unfolding select_round
  round_missed e =
      ap (λ (o : Option ℕ). elim o [ none ↦ select_round fuel q 0 | some v ↦ some v ]) e

select_round-NextReady :
    (q : Queue) (fuel entry r : ℕ)
    → entry ≤ task_limit
    → r < task_limit
    → is_ready q.time_rtc (q.task_base_address r) ≡ true
    → (t : ℕ) × (select_round (suc (suc fuel)) q entry ≡ some t) × NextReady q entry t
select_round-NextReady q fuel entry r fits l ready =
    first (first_entry (is_ready q.time_rtc) q.task_base_address (task_limit - entry) entry) refl
      (first_entry-Found (is_ready q.time_rtc) q.task_base_address (task_limit - entry) entry)
  where
    second :
        ready_from q fuel entry entry ≡ none
        → ((u : ℕ)
            → entry ≤ u
            → u < task_limit
            → is_ready q.time_rtc (q.task_base_address u) ≡ false)
        → (o : Option ℕ) → ready_from q fuel entry 0 ≡ o
        → Found (is_ready q.time_rtc) q.task_base_address task_limit 0 o
        → (t : ℕ) × (select_round (suc (suc fuel)) q entry ≡ some t) × NextReady q entry t
    second e missed none f found = absurd (ground (arith, found r, ready))
    second e missed (some t) f (a, b, c, d) = (
      t,
      round_missed q (suc fuel) entry e ∙ round_found q fuel 0 t f,
      wrapped b c (λ u g. d u (omega arith) g) missed,
    )

    first :
        (o : Option ℕ)
        → ready_from q fuel entry entry ≡ o
        → Found (is_ready q.time_rtc) q.task_base_address (task_limit - entry) entry o
        → (t : ℕ) × (select_round (suc (suc fuel)) q entry ≡ some t) × NextReady q entry t
    first none e found =
        second e (λ u g h. found u g (omega arith))
          (first_entry (is_ready q.time_rtc) q.task_base_address task_limit 0) refl
          (first_entry-Found (is_ready q.time_rtc) q.task_base_address task_limit 0)
    first (some t) e (a, b, c, d) =
        (t, round_found q (suc fuel) entry t e, ahead a (omega arith) c d)

-- The task that was selected, and every other entry.
pub record Selected (q : Queue) (entry t : ℕ) (q' : Queue) : Type 0 where
  pub next : NextReady q entry t
  pub busy : (time : ℕ) → is_ready time (q'.task_base_address t) ≡ false
  pub others : (u : ℕ) → u ≢ t → q'.task_base_address u ≡ q.task_base_address u
  pub unlocked : q'.task_cpu_semaphore ≡ false

-- A task with the exec flag is not ready.
exec-is_ready :
    (time : ℕ) (task : Task)
    → is_ready time (record task { flags = bit_or task.flags flag_exec }) ≡ false
unfolding is_ready
exec-is_ready time task = ground (
  arith,
  bit_and-pow (bit_or task.flags flag_exec) 1,
  bit_at-bit_or task.flags flag_exec 1,
  bit_at-pow_self 1,
  bit_at-lt task.flags 1,
)

abbrev with_exec : Queue → ℕ → Queue
with_exec q t = record q {
  task_base_address =
      update q.task_base_address t
        (record (q.task_base_address t) { flags = bit_or (q.task_base_address t).flags flag_exec });
  task_cpu_semaphore = false;
}

-- Where some task is ready and the queue is not locked, `kernel_task_select` returns after at most
-- two rounds. It selects the next ready task from `entry` on, cyclically, marks it so that it is not
-- ready for another processor at any time, and leaves every other entry.
pub task_select_next :
    (q : Queue) (fuel entry r : ℕ)
    → 2 ≤ fuel
    → entry ≤ task_limit
    → r < task_limit
    → is_ready q.time_rtc (q.task_base_address r) ≡ true
    → q.task_cpu_semaphore ≡ false
    → (t : ℕ) × (q' : Queue) × (kernel_task_select fuel q entry ≡ some (t, q'))
      × Selected q entry t q'
unfolding kernel_task_select
task_select_next q zero entry r two fits l ready unlocked = absurd (omega arith)
task_select_next q (suc zero) entry r two fits l ready unlocked = absurd (omega arith)
task_select_next q (suc (suc fuel)) entry r two fits l ready unlocked =
    let (t, found, next) = select_round-NextReady q fuel entry r fits l ready in
    (
      t,
      with_exec q t,
      ground (arith, found),
      record {
        next = next;
        busy = λ time. ground (arith, exec-is_ready time (q.task_base_address t));
        others = λ u n. ground arith;
        unlocked = refl;
      },
    )
