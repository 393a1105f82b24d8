-- ===== src/Kernel/Loader/Segments/Placed.antt =====
-- Where the bytes of segments and arguments are found after loading.
use native.Mathlib.Decide.{ℕ_discrete}
use fern_night.Prelude.{
  ℕ, zero, suc, ◌+◌, ◌-◌, ◌*◌, ◌/◌, ◌%◌, ◌^◌, ◌≤◌, ◌<◌, ◌≡◌, ◌⊎◌, inl, refl, ◌∙◌, ◌==◌,
  if◌then◌else◌, arith,
}
use fern_night.Prelude.Bits.{bit_and-shifted, bit_and-low_mask}
use fern_night.Prelude.Machine.{page_align_up, page_align_down}
use fern_night.Prelude.Machine.Align.{page_align_down_lem, page_align_up_lem}
use fern_night.Library.Sys.Heap.Words.{
  store64, load64, load-store_bytes, store_bytes_outside, load_bytes_same,
}
use fern_night.Kernel.Loader.Segments.{
  copy_segment, stack_pointer, args_size, stack_of, put_arguments, stack_mapping,
}

pub copy_segment_outside :
    (left target source j : ℕ) (ram : ℕ → ℕ) (x : ℕ)
    → (x < target + j) ⊎ (target + j + left ≤ x)
    → copy_segment left target source j ram x ≡ ram x
unfolding copy_segment
copy_segment_outside zero target source j ram x h = refl
copy_segment_outside (suc left) target source j ram x h =
    let ih =
      copy_segment_outside left target source (suc j)
        (λ y. if y == target + j then ram (source + j) else ram y) x (ground arith) in
    rw ih (ground arith)

pub copy_segment_inside :
    (left target source j k : ℕ) (ram : ℕ → ℕ)
    → (target + j + left ≤ source + j) ⊎ (source + j + left ≤ target + j)
    → j ≤ k
    → k < j + left
    → copy_segment left target source j ram (target + k) ≡ ram (source + k)
unfolding copy_segment
copy_segment_inside zero target source j k ram h l r = absurd (omega arith)
copy_segment_inside (suc left) target source j k ram h l r =
    let ram' = λ (y : ℕ). if y == target + j then ram (source + j) else ram y in
    elim (ℕ_discrete k j) [
      | yes e ↦
          let out =
            copy_segment_outside left target source (suc j) ram' (target + k)
              (inl (omega (arith, e))) in
          rw out (ground arith)
      | no ne ↦
          let ih =
            copy_segment_inside left target source (suc j) k ram' (ground arith) (ground arith)
              (omega arith) in
          rw ih (ground arith)
    ]

args_size-sum : (length : ℕ) → length < 2 ^ 8 → args_size length ≡ length / 16 * 16 + 24
unfolding args_size
args_size-sum length h =
    omega (arith, bit_and-shifted 4 length 0xFFFFFFFFFFFFFFF, bit_and-low_mask 60 (length / 2 ^ 4))

-- For a command of less than 256 bytes that lies out of the new page: one page is mapped, in which the
-- stack pointer of the program stands as far from the start as the arguments stand in the page at
-- `process_stack`; there the program finds the length of the command and behind it the command. The
-- stack pointer is 8 above a multiple of 16.
pub put_arguments_lem :
    (ram : ℕ → ℕ) (process_stack path length : ℕ)
    → length < 2 ^ 8
    → (process_stack + 4096 ≤ path) ⊎ (path + length ≤ process_stack)
    → let at = process_stack + (stack_of length - (stack_mapping length).0) in
      let out = put_arguments ram process_stack path length in
      ((stack_mapping length).1 ≡ 1)
      × ((stack_mapping length).0 + 4096 ≡ stack_pointer)
      × (stack_of length % 16 ≡ 8)
      × (load64 out at ≡ length)
      × ((k : ℕ) → k < length → out (at + 8 + k) ≡ ram (path + k))
      × ((x : ℕ) → (x < process_stack) ⊎ (process_stack + 4096 ≤ x) → out x ≡ ram x)
unfolding put_arguments stack_of stack_mapping
put_arguments_lem ram process_stack path length h apart =
    let e = args_size-sum length h in
    let up : page_align_up (args_size length) ≡ 4096 =
      omega (arith, page_align_up_lem (args_size length) (omega (arith, e)), e) in
    let down : page_align_down (stack_pointer - args_size length) ≡ stack_pointer - 4096 =
      omega (arith, page_align_down_lem (stack_pointer - args_size length) (omega arith), e) in
    let args = args_size length in
    let page : stack_pointer - args - (stack_pointer - 4096) ≡ 4096 - args = omega (arith, e) in
    let at = process_stack + (4096 - args) in
    let headed = store64 ram at length in
    let out = copy_segment length (at + 8) path 0 headed in
    let clear : (x : ℕ) → (x < at + 8) ⊎ (at + 8 + length ≤ x) → out x ≡ headed x =
      λ x k. copy_segment_outside length (at + 8) path 0 headed x (ground arith) in
    rw (up, down, page)
      (
        refl,
        omega arith,
        omega (arith, e),
        load_bytes_same 8 out headed at (λ x lo hi. clear x (inl (omega arith)))
            ∙ load-store_bytes 8 ram at length (omega arith),
        λ k l.
            copy_segment_inside length (at + 8) path 0 k headed (ground (arith, e)) (omega arith)
              (omega arith)
            ∙ store_bytes_outside 8 ram at length (path + k) (ground (arith, e)),
        λ x o.
            clear x (ground (arith, e)) ∙ store_bytes_outside 8 ram at length x (ground (arith, e)),
      )
