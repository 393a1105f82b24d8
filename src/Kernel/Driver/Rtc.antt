-- ===== src/Kernel/Driver/Rtc.antt =====
-- kernel/driver/rtc.c and kernel/rtc.c: the date and the time of the controller, and its interrupt.
use fern_night.Prelude.{
  ℕ, ◌+◌, ◌*◌, ◌/◌, ◌%◌, ◌^◌, ◌<◌, bit_and, bit_or, Bool, true, false, ◌≡◌, refl, Option, none,
  some, List, [], ◌∷◌, ◌==◌, if◌then◌else◌, arith,
}
use fern_night.Prelude.Bits.{bit_and-low_mask, bit_or-disjoint_left}
use fern_night.Prelude.Machine.{shl64}

-- The registers of the controller
abbrev pub register_seconds : ℕ
register_seconds = 0x00

abbrev pub register_minutes : ℕ
register_minutes = 0x02

abbrev pub register_hour : ℕ
register_hour = 0x04

abbrev pub register_weekday : ℕ
register_weekday = 0x06

abbrev pub register_day_of_month : ℕ
register_day_of_month = 0x07

abbrev pub register_month : ℕ
register_month = 0x08

abbrev pub register_year : ℕ
register_year = 0x09

abbrev pub status_register_b : ℕ
status_register_b = 0x0B

-- `DRIVER_RTC_STATUS_REGISTER_B_data_mode_binary` and `DRIVER_RTC_STATUS_REGISTER_C_interrupt_periodic`
abbrev pub data_mode_binary : ℕ
data_mode_binary = 0x04

abbrev pub interrupt_periodic : ℕ
interrupt_periodic = 0x40

-- The value of a register; with `mode` it is a decimal number in two halves.
unfoldable pub driver_rtc_register : Bool → ℕ → ℕ
driver_rtc_register mode value =
    if mode then (value / 2 ^ 4 * 10 + bit_and value 0x0F) % 2 ^ 8 else value

-- `current = (current << STD_SHIFT_256) | driver_rtc_register( mode )`
unfoldable pub joined : ℕ → ℕ → ℕ
joined current value = bit_or (shl64 current 8) value

-- The answer of a controller whose registers hold `port`.
unfoldable pub driver_rtc_time : (ℕ → ℕ) → ℕ
driver_rtc_time port =
    let mode = bit_and (port status_register_b) data_mode_binary == 0 in
    let read = λ (register : ℕ). driver_rtc_register mode (port register) in
    let year = joined (port register_weekday) (read register_year) in
    let month = joined year (read register_month) in
    let day = joined month (read register_day_of_month) in
    let hour = joined day (read register_hour) in
    let minutes = joined hour (read register_minutes) in joined minutes (read register_seconds)

-- The interrupt, with what register C gives in one read after another; `none` where it is never 0.
unfoldable pub driver_rtc : List ℕ → ℕ → Option ℕ
driver_rtc [] time_rtc = none
driver_rtc (c ∷ cs) time_rtc =
    let rest =
      driver_rtc cs
        (if bit_and c interrupt_periodic == 0 then time_rtc else (time_rtc + 1) % 2 ^ 64) in
    if c == 0 then some time_rtc else rest

joined-sum :
    (current value : ℕ)
    → current < 2 ^ 48
    → value < 2 ^ 8
    → joined current value ≡ current * 2 ^ 8 + value
unfolding joined
joined-sum current value h l =
    let e : shl64 current 8 ≡ current * 2 ^ 8 = omega arith in
    rw e (bit_or-disjoint_left 8 current value l)

-- A value below 100 in the mode of the controller.
unfoldable pub held : Bool → ℕ → ℕ
held mode n = if mode then n / 10 * 2 ^ 4 + n % 10 else n

register-held : (mode : Bool) (n : ℕ) → n < 100 → driver_rtc_register mode (held mode n) ≡ n
unfolding driver_rtc_register held
register-held true n h = omega (arith, bit_and-low_mask 4 (n / 10 * 2 ^ 4 + n % 10))
register-held false n h = refl

-- Let the registers hold a weekday of 8 bits and values below 100 in the mode that register B tells,
-- decimal or binary. The answer has one byte for each: the weekday, the year, the month, the day, the
-- hour, the minutes and the seconds, the last one in the lowest byte.
pub rtc_time_lem :
    (port : ℕ → ℕ) (mode : Bool) (weekday year month day hour minutes seconds : ℕ)
    → (bit_and (port status_register_b) data_mode_binary == 0) ≡ mode
    → (port register_weekday ≡ weekday) × (weekday < 2 ^ 8)
    → (port register_year ≡ held mode year) × (year < 100)
    → (port register_month ≡ held mode month) × (month < 100)
    → (port register_day_of_month ≡ held mode day) × (day < 100)
    → (port register_hour ≡ held mode hour) × (hour < 100)
    → (port register_minutes ≡ held mode minutes) × (minutes < 100)
    → (port register_seconds ≡ held mode seconds) × (seconds < 100)
    → driver_rtc_time port
      ≡ weekday * 2 ^ 48
        + year * 2 ^ 40
        + month * 2 ^ 32
        + day * 2 ^ 24
        + hour * 2 ^ 16
        + minutes * 2 ^ 8
        + seconds
unfolding driver_rtc_time
rtc_time_lem port mode weekday year month day hour minutes seconds m (w, lw) (y, ly) (o, lo) (d, ld)
      (h, lh) (i, li) (s, ls) =
    rw
      (
        m,
        w,
        y,
        o,
        d,
        h,
        i,
        s,
        register-held mode year ly,
        register-held mode month lo,
        register-held mode day ld,
        register-held mode hour lh,
        register-held mode minutes li,
        register-held mode seconds ls,
        joined-sum weekday year (omega arith) (omega arith),
        joined-sum (weekday * 2 ^ 8 + year) month (omega arith) (omega arith),
        joined-sum ((weekday * 2 ^ 8 + year) * 2 ^ 8 + month) day (omega arith) (omega arith),
        joined-sum (((weekday * 2 ^ 8 + year) * 2 ^ 8 + month) * 2 ^ 8 + day) hour (omega arith)
            (omega arith),
        joined-sum ((((weekday * 2 ^ 8 + year) * 2 ^ 8 + month) * 2 ^ 8 + day) * 2 ^ 8 + hour)
            minutes (omega arith) (omega arith),
        joined-sum
            (((((weekday * 2 ^ 8 + year) * 2 ^ 8 + month) * 2 ^ 8 + day) * 2 ^ 8 + hour) * 2 ^ 8
              + minutes)
            seconds (omega arith) (omega arith),
      )
      (omega arith)
