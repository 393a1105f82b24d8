-- ===== src/Kernel/Page/Remove.antt =====
-- kernel_page_remove: the page it gives back, and what every address means afterwards.
use fern_night.Prelude.{ℕ, bit_and, Bool, true, false, ◌==◌, if◌then◌else◌, ◌≡◌, ◌≢◌, ap, arith}
use native.Mathlib.Decide.{ℕ_discrete}
use fern_night.Prelude.Machine.{page_align_down}
use fern_night.Kernel.Memory.{store}
use fern_night.Kernel.Page.{
  index2, index3, index4, slot, leaf_slot, kernel_page_address, flag_shared, kernel_page_remove,
}
use fern_night.Kernel.Page.Walk.Mapping.{table2, table3}

-- None of the upper entries on the way to an address is the word `at`.
pub record IsApart (ram : ℕ → ℕ) (pml4 address at : ℕ) : Type 0 where
  pub apart4 : slot pml4 (index4 address) ≢ at
  pub apart3 : slot (table3 ram pml4 address) (index3 address) ≢ at
  pub apart2 : slot (table2 ram pml4 address) (index2 address) ≢ at

store_other : (ram : ℕ → ℕ) (at value x : ℕ) → x ≢ at → store ram at value x ≡ ram x
store_other ram at value x h = ground arith

store_same : (ram : ℕ → ℕ) (at value : ℕ) → store ram at value at ≡ value
store_same ram at value = ground arith

leaf_slot-store :
    (ram : ℕ → ℕ) (pml4 address at value : ℕ)
    → IsApart ram pml4 address at
    → leaf_slot (store ram at value) pml4 address ≡ leaf_slot ram pml4 address
unfolding leaf_slot
leaf_slot-store ram pml4 address at value apart = cc (
  store_other ram at value _ apart.apart4,
  store_other ram at value _ apart.apart3,
  store_other ram at value _ apart.apart2,
)

-- Whether the page of an address is shared.
abbrev pub is_shared : (ℕ → ℕ) → ℕ → ℕ → Bool
is_shared ram pml4 address =
    if bit_and (ram (leaf_slot ram pml4 address)) flag_shared == 0 then false else true

-- `kernel_page_remove` gives back the page of the address, or EMPTY where the page is shared. After
-- it, an address whose way through the tables does not read the removed entry as a table has no
-- page if its entry is the removed one of a page that is not shared, and the page it had otherwise.
pub page_address-remove :
    (ram : ℕ → ℕ) (pml4 address other : ℕ)
    → IsApart ram pml4 other (leaf_slot ram pml4 address)
    → ((kernel_page_remove ram pml4 address).0
        ≡ (if is_shared ram pml4 address then 0 else kernel_page_address ram pml4 address))
      × (kernel_page_address ((kernel_page_remove ram pml4 address).1) pml4 other ≡ (
          if is_shared ram pml4 address
          then kernel_page_address ram pml4 other
          else if leaf_slot ram pml4 other == leaf_slot ram pml4 address
          then 0
          else kernel_page_address ram pml4 other))
unfolding kernel_page_remove kernel_page_address
page_address-remove ram pml4 address other apart =
    let at = leaf_slot ram pml4 address in
    let there = leaf_slot-store ram pml4 other at 0 apart in
    let read = ap (λ (x : ℕ). page_align_down (store ram at 0 x)) there in
    elim (ℕ_discrete (bit_and (ram at) flag_shared) 0) [
      | yes e ↦ (ground arith, ground (arith, read))
      | no n ↦ (ground arith, ground arith)
    ]
