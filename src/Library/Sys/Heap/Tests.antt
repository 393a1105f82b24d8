-- ===== src/Library/Sys/Heap/Tests.antt =====
-- The theorem on realloc, at an area of one page that grows to three.
use fern_night.Prelude.{ℕ, ◌+◌, ◌≡◌, ◌⊎◌, inr, refl, none, some, ◌==◌, if◌then◌else◌, arith}
use fern_night.Library.Sys.Heap.{realloc}
use fern_night.Library.Sys.Heap.Words.{load_bytes}
use fern_night.Library.Sys.Heap.Contents.{IsArea, IsMoved, pages, released, realloc-IsMoved}

-- The head at 0x1000, and bytes behind it.
abbrev memory : ℕ → ℕ
memory x = if x == 0x1000 then 1 else if x == 0x1010 then 7 else 0

memory-IsArea : IsArea memory 0x1000 1
unfolding load_bytes
memory-IsArea = record { aligned = refl; some_page = omega arith; bound = omega arith; head = refl }

realloc-IsMoved_example :
    (IsMoved memory
        (realloc memory 0x8000 (0x1000 + 16) 10000).1
        0x1000
        1
        10000
        (realloc memory 0x8000 (0x1000 + 16) 10000).0
        0x1000
        1
      × ((realloc memory 0x8000 (0x1000 + 16) 10000).2 ≡ none))
    ⊎ (IsMoved memory
          (realloc memory 0x8000 (0x1000 + 16) 10000).1
          0x1000
          1
          10000
          (realloc memory 0x8000 (0x1000 + 16) 10000).0
          0x8000
          (pages (10000 + 16))
        × ((realloc memory 0x8000 (0x1000 + 16) 10000).2 ≡ some (released 0x1000 1)))
realloc-IsMoved_example =
    realloc-IsMoved memory 0x1000 1 0x8000 10000 memory-IsArea refl (omega arith)
      (inr (omega arith))
