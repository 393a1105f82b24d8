-- ===== src/Kernel/Driver/Serial/Tests.antt =====
-- The theorem on driver_serial_value, at 255 in base 16.
use fern_night.Prelude.{ℕ, ◌≡◌, ◌≤◌, List, some, max, length, arith}
use fern_night.Kernel.Driver.Serial.{driver_serial_value}
use fern_night.Kernel.Driver.Serial.Digits.{AllDigits, number, serial_value_lem}

serial_value_lem_example :
    (sent : List ℕ) × (answer : ℕ) × (driver_serial_value 255 16 4 0x30 ≡ some (sent, answer))
    × AllDigits 16 sent
    × (number 16 0 sent ≡ 255)
    × (length sent ≡ answer)
    × (max 1 4 ≤ answer)
    × (answer ≤ 64)
serial_value_lem_example =
    serial_value_lem 255 16 4 0x30 (omega arith) (omega arith) (omega arith) (omega arith)
