-- ===== src/Kernel/Page/Index.antt =====
-- The four indices of an address.
use fern_night.Prelude.{ℕ, ◌+◌, ◌*◌, ◌%◌, ◌^◌, ◌<◌, ◌≡◌, arith}
use fern_night.Prelude.Bits.{bit_and-low_mask}
use fern_night.Kernel.Page.{low_part, index1, index2, index3, index4, entries}

pub low_part_lem : (address : ℕ) → low_part address ≡ address % 2 ^ 48
low_part_lem address = bit_and-low_mask 48 address

-- Every index is one of a slot, and the indices with the offset in the page give back the 48 low
-- bits of the address.
pub indices_of_address :
    (address : ℕ)
    → (index4 address < entries)
      × (index3 address < entries)
      × (index2 address < entries)
      × (index1 address < entries)
      × (index4 address * 2 ^ 39
            + index3 address * 2 ^ 30
            + index2 address * 2 ^ 21
            + index1 address * 2 ^ 12
            + address % 4096
          ≡ address % 2 ^ 48)
unfolding index4 index3 index2 index1
indices_of_address address = omega (arith, low_part_lem address)

-- Inside one page table, the next pages have the next indices.
pub indices_next :
    (address i : ℕ)
    → address < 2 ^ 48
    → index1 address + i < entries
    → (index4 (address + 4096 * i) ≡ index4 address)
      × (index3 (address + 4096 * i) ≡ index3 address)
      × (index2 (address + 4096 * i) ≡ index2 address)
      × (index1 (address + 4096 * i) ≡ index1 address + i)
unfolding index4 index3 index2 index1
indices_next address i h l = omega (arith, low_part_lem address, low_part_lem (address + 4096 * i))
