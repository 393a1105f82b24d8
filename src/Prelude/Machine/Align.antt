-- ===== src/Prelude/Machine/Align.antt =====
-- MACRO_PAGE_ALIGN_DOWN and MACRO_PAGE_ALIGN_UP as arithmetic.
use fern_night.Prelude.{ℕ, ◌+◌, ◌*◌, ◌/◌, ◌^◌, ◌<◌, ◌≡◌, arith}
use fern_night.Prelude.Bits.{bit_and-low_mask, bit_and-shifted}
use fern_night.Prelude.Machine.{add64, sub64, page_align_up, page_align_down}

pub page_align_down_lem : (x : ℕ) → x < 2 ^ 64 → page_align_down x ≡ x / 4096 * 4096
page_align_down_lem x h =
    omega (arith, bit_and-shifted 12 x 0xFFFFFFFFFFFFF, bit_and-low_mask 52 (x / 2 ^ 12))

-- The number of pages that hold `x` bytes.
pub page_align_up_lem : (x : ℕ) → x + 4096 < 2 ^ 64 → page_align_up x ≡ (x + 4095) / 4096 * 4096
page_align_up_lem x h =
    let e : sub64 (add64 x 4096) 1 ≡ x + 4095 = omega arith in
    rw e (page_align_down_lem (x + 4095) (omega arith))
