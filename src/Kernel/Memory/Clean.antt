-- ===== src/Kernel/Memory/Clean.antt =====
-- kernel_page_clean, which kernel_memory_release runs first.
use fern_night.Prelude.{
  ℕ, zero, suc, ◌+◌, ◌-◌, ◌*◌, ◌%◌, ◌^◌, ◌<◌, Bool, ◌&&◌, ltb, leb, ◌==◌, if◌then◌else◌, ◌≡◌, arith,
}
use fern_night.Prelude.Machine.{add64, shl64}
use fern_night.Kernel.Memory.{Kernel, store, clean, kernel_page_clean, kernel_memory_release}

-- Whether `x` is the address of one of the `n` words from `a` on.
abbrev pub in_words : ℕ → ℕ → ℕ → Bool
in_words a n x = leb a x && (ltb x (a + 8 * n) && ((x - a) % 8 == 0))

clean-ram :
    (ram : ℕ → ℕ) (n a x : ℕ)
    → a + 8 * n < 2 ^ 64
    → clean ram n a x ≡ (if in_words a n x then 0 else ram x)
unfolding clean
clean-ram ram zero a x h = ground arith
clean-ram ram (suc n) a x h = ground (arith, clean-ram (store ram a 0) n (add64 a 8) x)

-- A release of `n` pages, of which the last byte has a 64-bit address, zeroes each of their words
-- and writes to no other.
pub ram-release :
    (k : Kernel) (a n x : ℕ)
    → a + 4096 * n < 2 ^ 64
    → (kernel_memory_release k a n).ram x ≡ (if in_words a (512 * n) x then 0 else k.ram x)
unfolding kernel_memory_release kernel_page_clean
ram-release k a n x h =
    let e : shl64 n 9 ≡ 512 * n = omega arith in rw e (clean-ram k.ram (512 * n) a x (omega arith))
