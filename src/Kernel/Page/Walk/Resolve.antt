-- ===== src/Kernel/Page/Walk/Resolve.antt =====
-- kernel_page_map and kernel_page_address together, inside one page table.
use fern_night.Prelude.{
  ℕ, ◌+◌, ◌-◌, ◌*◌, ◌/◌, ◌%◌, ◌^◌, ◌≤◌, ◌<◌, bit_and, bit_or, Bool, true, false, some,
  if◌then◌else◌, ◌≡◌, ap, sym, ◌∙◌, arith,
}
use fern_night.Prelude.Bits.{bit_or-disjoint_left, bit_and-low_mask}
use fern_night.Prelude.Machine.{add64, complement64, mirror, page_align_down}
use fern_night.Prelude.Machine.Align.{page_align_down_lem}
use fern_night.Kernel.Memory.{Kernel}
use fern_night.Kernel.Memory.Clean.{in_words}
use fern_night.Kernel.Page.{
  entries, index1, index2, index3, index4, slot, leaf_slot, kernel_page_address, flag_write,
}
use fern_night.Kernel.Page.Index.{indices_of_address, indices_next}
use fern_night.Kernel.Page.Walk.{
  Job, ensure, walk1, walk2, walk3, walk4, place_source, result, kernel_page_map,
}
use fern_night.Kernel.Page.Walk.Mapping.{
  level1-Mapped, level_returns, ensure_present, IsPresent, table1, table2, table3,
}

-- The physical address that `kernel_page_map` starts from.
abbrev pub physical : ℕ → ℕ
physical source = bit_and source (complement64 mirror)

-- The address of the first slot.
abbrev pub first_slot : (ℕ → ℕ) → ℕ → ℕ → ℕ
first_slot ram pml4 target = table1 ram pml4 target + 8 * index1 target

-- Where the tables exist, none of their entries on the way is overwritten, and the pages, at least
-- one, lie in one page table that does not wrap, `kernel_page_map` returns TRUE, and has written
-- the addresses of the pages, each with the flags, to their slots and nothing else.
pub map_writes :
    (k : Kernel) (pml4 source target count flags : ℕ)
    → 0 < count
    → index1 target + count ≤ entries
    → table1 k.ram pml4 target + 4096 ≤ 2 ^ 64
    → IsPresent k.ram pml4 target (first_slot k.ram pml4 target) count
    → (k' : Kernel) × (kernel_page_map k pml4 source target count flags ≡ some (true, k'))
      × ((x : ℕ)
          → k'.ram x ≡ (
              if in_words (first_slot k.ram pml4 target) count x
              then bit_or
                  (add64 (physical source) (4096 * ((x - first_slot k.ram pml4 target) / 8)))
                  flags
              else k.ram x))
unfolding kernel_page_map walk4 walk3 walk2 walk1 result
map_writes k pml4 source target count flags pos fits room present =
    let job : Job = record { kernel = k; pages = count; source = physical source } in
    let upper = bit_or flags flag_write in
    let (i4, i3, i2, i1, _) = indices_of_address target in
    let (job', runs, m) =
      level1-Mapped flags (entries - index1 target) (table1 k.ram pml4 target) (index1 target) job
        pos (omega arith) (omega arith) (omega arith) (omega (arith, bit_and-low_mask 47 source)) in
    let in2 =
      level_returns (entries - index2 target) (ensure upper)
        (walk1 (ensure upper) (place_source flags) target) true (table2 k.ram pml4 target)
        (index2 target) (table1 k.ram pml4 target) job job job' true (omega arith)
        (ensure_present upper (slot (table2 k.ram pml4 target) (index2 target)) job present.entry2)
        runs in
    let in3 =
      level_returns (entries - index3 target) (ensure upper)
        (walk2 (ensure upper) (place_source flags) target) true (table3 k.ram pml4 target)
        (index3 target) (table2 k.ram pml4 target) job job job' true (omega arith)
        (ensure_present upper (slot (table3 k.ram pml4 target) (index3 target)) job present.entry3)
        in2 in
    let in4 =
      level_returns (entries - index4 target) (ensure upper)
        (walk3 (ensure upper) (place_source flags) target) true pml4 (index4 target)
        (table3 k.ram pml4 target) job job job' true (omega arith)
        (ensure_present upper (slot pml4 (index4 target)) job present.entry4) in3 in
    (job'.kernel, ap (result false) in4, m.written)

-- Where memory agrees on the upper slots of an address, an address with the same upper indices has
-- its leaf slot in the old table.
leaf_slot-agrees :
    (ram ram' : ℕ → ℕ) (pml4 target address : ℕ)
    → index4 address ≡ index4 target
    → index3 address ≡ index3 target
    → index2 address ≡ index2 target
    → ram' (slot pml4 (index4 target)) ≡ ram (slot pml4 (index4 target))
    → ram' (slot (table3 ram pml4 target) (index3 target))
      ≡ ram (slot (table3 ram pml4 target) (index3 target))
    → ram' (slot (table2 ram pml4 target) (index2 target))
      ≡ ram (slot (table2 ram pml4 target) (index2 target))
    → leaf_slot ram' pml4 address ≡ slot (table1 ram pml4 target) (index1 address)
unfolding leaf_slot
leaf_slot-agrees ram ram' pml4 target address n4 n3 n2 e4 e3 e2 = cc

-- A page address with flags below the page is the address again when the flags are cut off.
page_align_down-flags :
    (page flags : ℕ)
    → page < 2 ^ 64
    → page % 4096 ≡ 0
    → flags < 4096
    → page_align_down (bit_or page flags) ≡ page
page_align_down-flags page flags h e l =
    let page_multiple : page / 4096 * 4096 ≡ page = omega arith in
    let joined : bit_or page flags ≡ page + flags =
      ap (λ (t : ℕ). bit_or t flags) (sym page_multiple)
      ∙ bit_or-disjoint_left 12 (page / 4096) flags l
      ∙ ap (λ (t : ℕ). t + flags) page_multiple in
    ap page_align_down joined ∙ page_align_down_lem (page + flags) (omega arith) ∙ (omega arith)

module _ (ram ram' : ℕ → ℕ) (a n source flags : ℕ)
    (written : (x : ℕ)
      → ram' x ≡ (
          if in_words a n x
          then bit_or (add64 source (4096 * ((x - a) / 8))) flags
          else ram x)) where
  written_apart : (x : ℕ) → in_words a n x ≡ false → ram' x ≡ ram x
  written_apart x h = ground (arith, written x)

  written_at :
      (i : ℕ)
      → a + 8 * n ≤ 2 ^ 64
      → i < n
      → ram' (a + 8 * i) ≡ bit_or (add64 source (4096 * i)) flags
  written_at i h l =
      let word : in_words a n (a + 8 * i) ≡ true = ground arith in
      let nth : (a + 8 * i - a) / 8 ≡ i = omega arith in
      written (a + 8 * i)
      ∙ ap
          (λ (b : Bool).
            if b
            then bit_or (add64 source (4096 * ((a + 8 * i - a) / 8))) flags
            else ram (a + 8 * i))
          word
      ∙ ap (λ (t : ℕ). bit_or (add64 source (4096 * t)) flags) nth

abbrev page_of : ℕ → ℕ → ℕ
page_of source i = add64 (physical source) (4096 * i)

-- Where the tables exist and the `count` pages lie in one page table, after `kernel_page_map` with
-- flags below the page size, of an aligned physical address to an address below 2 ^ 48,
-- `kernel_page_address` finds each of the pages at its address.
pub page_address-map :
    (k : Kernel) (pml4 source target count flags i : ℕ)
    → index1 target + count ≤ entries
    → table1 k.ram pml4 target + 4096 ≤ 2 ^ 64
    → IsPresent k.ram pml4 target (first_slot k.ram pml4 target) count
    → target < 2 ^ 48
    → physical source % 4096 ≡ 0
    → flags < 4096
    → i < count
    → (k' : Kernel) × (kernel_page_map k pml4 source target count flags ≡ some (true, k'))
      × (kernel_page_address k'.ram pml4 (target + 4096 * i) ≡ add64 (physical source) (4096 * i))
unfolding kernel_page_address
page_address-map k pml4 source target count flags i fits room present low aligned few h =
    let (k', runs, written) =
      map_writes k pml4 source target count flags (omega arith) fits room present in
    let (n4, n3, n2, n1) = indices_next target i low (omega arith) in
    let leaf =
      leaf_slot-agrees k.ram k'.ram pml4 target (target + 4096 * i) n4 n3 n2
        (written_apart k.ram k'.ram _ count _ _ written _ present.apart4)
        (written_apart k.ram k'.ram _ count _ _ written _ present.apart3)
        (written_apart k.ram k'.ram _ count _ _ written _ present.apart2) in
    let small : physical source < 2 ^ 47 = omega (arith, bit_and-low_mask 47 source) in
    let here =
      written_at k.ram k'.ram (first_slot k.ram pml4 target) count (physical source) flags written i
        (omega arith) h in
    let at : slot (table1 k.ram pml4 target) (index1 (target + 4096 * i))
        ≡ first_slot k.ram pml4 target + 8 * i =
      omega arith in
    (
      k',
      runs,
      ap (λ (x : ℕ). page_align_down (k'.ram x)) (leaf ∙ at)
          ∙ ap page_align_down here
          ∙ page_align_down-flags (page_of source i) flags (omega arith) (omega arith) few,
    )
