-- ===== src/Library/Sys.antt =====
-- pow, memcpy, memset and abs of library/shared/sys.c.
pub mod Power
pub mod Heap
use fern_night.Prelude.{
  ℕ, zero, suc, ◌+◌, ◌-◌, ◌*◌, ◌/◌, ◌%◌, ◌^◌, Option, none, some, leb, ◌==◌, if◌then◌else◌,
}

-- `while( exponent )`, on fuel: an exponent of 64 bits has at most 64 rounds.
pub power : ℕ → ℕ → ℕ → ℕ → Option ℕ
power zero result base exponent = if exponent == 0 then some result else none
power (suc fuel) result base exponent =
    let rest =
      power fuel (if exponent % 2 == 1 then result * base % 2 ^ 64 else result)
        (base * base % 2 ^ 64) (exponent / 2) in
    if exponent == 0 then some result else rest

pub pow : ℕ → ℕ → Option ℕ
pow base exponent = power 64 1 base exponent

-- `left` bytes from `i` on.
unfoldable pub copy_memory : (ℕ → ℕ) → ℕ → ℕ → ℕ → ℕ → ℕ → ℕ
copy_memory memory dst src zero i = memory
copy_memory memory dst src (suc left) i =
    copy_memory (λ x. if x == dst + i then memory (src + i) else memory x) dst src left (i + 1)

unfoldable pub memcpy : (ℕ → ℕ) → ℕ → ℕ → ℕ → ℕ → ℕ
memcpy memory dstptr srcptr size = copy_memory memory dstptr srcptr size 0

pub fill_memory : (ℕ → ℕ) → ℕ → ℕ → ℕ → ℕ → ℕ → ℕ
fill_memory memory buf value zero i = memory
fill_memory memory buf value (suc left) i =
    fill_memory (λ x. if x == buf + i then value % 2 ^ 8 else memory x) buf value left (i + 1)

pub memset : (ℕ → ℕ) → ℕ → ℕ → ℕ → ℕ → ℕ
memset memory bufptr value size = fill_memory memory bufptr value size 0

-- `i` is given as its 64 bits.
pub abs : ℕ → ℕ
abs i = if leb (2 ^ 63) i then (2 ^ 64 - i) % 2 ^ 64 else i
