-- ===== src/Kernel/Stream/Table.antt =====
-- kernel_stream and kernel_stream_release: the table of streams and their memory.
use fern_night.Prelude.{
  ℕ, zero, suc, Bool, false, List, [], ◌∷◌, Option, none, some, ◌==◌, if◌then◌else◌, ◌≡◌, refl, ◌≢◌,
  arith, get_elem?,
}
use fern_night.Prelude.Machine.{sub64}
use fern_night.Kernel.Memory.{Kernel, available, kernel_memory_alloc, kernel_memory_release}
use fern_night.Kernel.Memory.Alloc
use fern_night.Kernel.Memory.Valid.{release-alloc}
use fern_night.Kernel.Stream.{Stream}
use fern_night.Kernel.Stream.Ring.{IsValid, contents}
use fern_night.Kernel.Stream.Receive.{contents-empty}

-- The table has `KERNEL_STREAM_limit` entries.
pub record Streams : Type 0 where
  pub table : List Stream
  pub stream_semaphore : Bool

-- The first entry without memory.
unfoldable pub find_free : List Stream → Option ℕ
find_free [] = none
find_free (s ∷ rest) =
    let later = find_free rest in
    if s.base_address == 0 then some 0 else elim later [ none ↦ none | some i ↦ some (suc i) ]

-- The entry with its space prepared. Its lock, flags and metadata are left as they were.
abbrev pub prepared : Stream → ℕ → Stream
prepared s address = record s { base_address = address; start = 0; end = 0; free = 4096; count = 1 }

pub modify : List Stream → ℕ → (Stream → Stream) → List Stream
modify [] i f = []
modify (s ∷ rest) zero f = f s ∷ rest
modify (s ∷ rest) (suc i) f = s ∷ modify rest i f

-- The index of the new stream, if an entry is free. The outer `none`: a loop on the semaphore of
-- the table, or of the memory map, spins.
pub kernel_stream : Streams → Kernel → Option (Option ℕ × Streams × Kernel)
kernel_stream t k = if t.stream_semaphore then none else elim (find_free t.table) [
  | none ↦ some (none, record t { stream_semaphore = false }, k)
  | some i ↦ elim (kernel_memory_alloc k 1) [
    | none ↦ none
    | some (a, k') ↦ some (
      some i,
      record t { table = modify t.table i (λ s. prepared s a); stream_semaphore = false },
      k',
    )
  ]
]

pub kernel_stream_release : Stream → Kernel → Stream × Kernel
kernel_stream_release s k =
    let count = sub64 s.count 1 in
    if count == 0
    then (record s { count = count; base_address = 0 }, kernel_memory_release k s.base_address 1)
    else (record s { count = count }, k)

elem-modify :
    (table : List Stream) (i : ℕ) (f : Stream → Stream) (s : Stream)
    → get_elem? table i ≡ some s
    → get_elem? (modify table i f) i ≡ some (f s)
unfolding modify
elem-modify [] i f s h = cc
elem-modify (x ∷ rest) zero f s h = ground arith
elem-modify (x ∷ rest) (suc i) f s h = elem-modify rest i f s h

-- The search below the first entry.
find_free-suc :
    (s : Stream) (rest : List Stream) (i : ℕ)
    → find_free (s ∷ rest) ≡ some (suc i)
    → (s.base_address ≢ 0) × (find_free rest ≡ some i)
unfolding find_free
find_free-suc s rest i h = ground arith

find_free-zero :
    (s : Stream) (rest : List Stream) → find_free (s ∷ rest) ≡ some 0 → s.base_address ≡ 0
unfolding find_free
find_free-zero s rest h = ground arith

-- The entry that the search finds is in the table, and has no memory.
find_free-elem :
    (table : List Stream) (i : ℕ)
    → find_free table ≡ some i
    → (s : Stream) × (get_elem? table i ≡ some s) × (s.base_address ≡ 0)
find_free-elem [] i h = unfold find_free in cc
find_free-elem (x ∷ rest) zero h = (x, refl, find_free-zero x rest h)
find_free-elem (x ∷ rest) (suc i) h = find_free-elem rest i (find_free-suc x rest i h).1

-- If its entry gets no memory, the search finds it again.
find_free-modify :
    (table : List Stream) (i : ℕ)
    → find_free table ≡ some i
    → find_free (modify table i (λ s. prepared s 0)) ≡ some i
unfolding find_free modify
find_free-modify [] i h = cc
find_free-modify (x ∷ rest) zero h = refl
find_free-modify (x ∷ rest) (suc i) h =
    let below = find_free-suc x rest i h in ground (arith, below, find_free-modify rest i below.1)

-- A call with the semaphore free, a free entry and memory at hand returns the index of a stream
-- that is valid and empty, has one user, and lies in the memory that was allocated.
pub stream_fresh :
    (t : Streams) (k : Kernel) (i a : ℕ) (k' : Kernel)
    → t.stream_semaphore ≡ false
    → find_free t.table ≡ some i
    → kernel_memory_alloc k 1 ≡ some (a, k')
    → (t' : Streams) × (s : Stream) × (kernel_stream t k ≡ some (some i, t', k'))
      × (get_elem? t'.table i ≡ some s)
      × IsValid s
      × (contents s ≡ [])
      × (s.count ≡ 1)
      × (s.base_address ≡ a)
unfolding kernel_stream
stream_fresh t k i a k' unlocked found answer =
    let (s, at, _) = find_free-elem t.table i found in
    (
      record t { table = modify t.table i (λ s. prepared s a); stream_semaphore = false },
      prepared s a,
      ground arith,
      elem-modify t.table i (λ s. prepared s a) s at,
      omega arith,
      contents-empty (prepared s a) refl,
      refl,
      refl,
    )

-- Where the memory is exhausted, a call returns the index of an entry that is still free, and the
-- next call, with memory again, returns the same index: two users get one stream.
pub stream_shared_by_mistake :
    (t : Streams) (k k' k'' : Kernel) (i a : ℕ)
    → t.stream_semaphore ≡ false
    → find_free t.table ≡ some i
    → kernel_memory_alloc k 1 ≡ some (0, k')
    → kernel_memory_alloc k' 1 ≡ some (a, k'')
    → (t' t'' : Streams) × (kernel_stream t k ≡ some (some i, t', k'))
      × (kernel_stream t' k' ≡ some (some i, t'', k''))
unfolding kernel_stream
stream_shared_by_mistake t k k' k'' i a unlocked found failed answer =
    let t' : Streams = record t {
      table = modify t.table i (λ s. prepared s 0);
      stream_semaphore = false;
    } in
    (
      t',
      record t' { table = modify t'.table i (λ s. prepared s a); stream_semaphore = false },
      ground arith,
      ground (arith, find_free-modify t.table i found),
    )

-- The release of a fresh stream by its only user frees the entry, and gives its page back: every
-- page and the counter of available pages are as before the stream was made.
pub stream-release-alloc :
    (s : Stream) (k k' : Kernel) (a c : ℕ)
    → Alloc.IsValid k
    → kernel_memory_alloc k 1 ≡ some (a, k')
    → a ≢ 0
    → let (s', k'') = kernel_stream_release (prepared s a) k' in
      (s'.base_address ≡ 0)
      × (available k''.memory_map c ≡ available k.memory_map c)
      × (k''.page_available ≡ k.page_available)
unfolding kernel_stream_release
stream-release-alloc s k k' a c v answer found =
    let back = release-alloc k 1 a c k' v (omega arith) (omega arith) answer found in
    (refl, back.0, back.1)
