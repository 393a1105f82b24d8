-- ===== src/Kernel/Task/Leave.antt =====
-- kernel_service_exit and kernel_service_sleep: the task is not selected.
use fern_night.Prelude.{ℕ, ◌+◌, ◌-◌, ◌^◌, ◌<◌, bit_and, bit_or, false, ◌≡◌, ◌≢◌, refl, arith}
use fern_night.Prelude.Bits.{bit_at, bit_at-bit_and, bit_and-pow}
use fern_night.Kernel.Task.{
  Queue, flag_active, flag_close, is_ready, kernel_service_exit, kernel_service_sleep,
}

-- The active bit of what `kernel_service_exit` writes.
inactive : (flags : ℕ) → bit_and (bit_and flags (2 ^ 16 - 1 - flag_active)) flag_active ≡ 0
inactive flags =
    let cleared : bit_at (2 ^ 16 - 1 - flag_active) 0 ≡ 0 = unfold bit_at in refl in
    omega (
      arith,
      bit_and-pow (bit_and flags (2 ^ 16 - 1 - flag_active)) 0,
      bit_at-bit_and flags (2 ^ 16 - 1 - flag_active) 0,
      cleared,
    )

-- A task that called `kernel_service_exit` is ready at no time, and one that called
-- `kernel_service_sleep`, for whatever time, is not ready before the next tick, where the clock does
-- not wrap; other tasks are as before.
pub is_ready-leave :
    (q : Queue) (ms time u : ℕ)
    → q.time_rtc + 1 < 2 ^ 64
    → u ≢ q.active
    → (is_ready time ((kernel_service_exit q).task_base_address q.active) ≡ false)
      × (is_ready q.time_rtc ((kernel_service_sleep q ms).task_base_address q.active) ≡ false)
      × ((kernel_service_exit q).task_base_address u ≡ q.task_base_address u)
      × ((kernel_service_sleep q ms).task_base_address u ≡ q.task_base_address u)
unfolding is_ready kernel_service_exit kernel_service_sleep
is_ready-leave q ms time u h n = (
  ground (arith, inactive (bit_or (q.task_base_address q.active).flags flag_close)),
  ground arith,
  ground arith,
  ground arith,
)
