-- ===== src/Kernel/Stream.antt =====
-- kernel/stream.c: byte streams between tasks, each a ring of 4096 bytes, and the stream table.
-- A stream is passed in where the code takes it from the active task (`stream_in`, `stream_out`).
-- Memory is read at every index: a string is the function from offsets to bytes.
pub mod Ring
pub mod Loops
pub mod Meta
pub mod Table
pub mod Receive
pub mod Transfer
pub mod Value
pub mod Tests
use fern_night.Prelude.{
  ℕ, zero, suc, ◌+◌, ◌-◌, ◌*◌, ◌/◌, ◌%◌, ◌^◌, bit_and, bit_or, Bool, true, false, not, ◌||◌, List,
  [], ◌∷◌, Option, none, some, ltb, leb, ◌==◌, if◌then◌else◌, take, ◌++◌,
}
use fern_night.Prelude.Machine.{add64, sub64}
use fern_night.Kernel.Memory.{Map, store, Kernel, kernel_memory_alloc, kernel_memory_release}

-- `struct KERNEL_STRUCTURE_STREAM`; `bytes` is what lies at `base_address`.
pub record Stream : Type 0 where
  pub base_address : ℕ
  pub bytes : ℕ → ℕ
  pub start : ℕ
  pub end : ℕ
  pub free : ℕ
  pub lock : Bool
  pub flags : ℕ
  pub count : ℕ
  pub meta : ℕ → ℕ

-- `LIB_SYS_STREAM_SIZE_byte`
abbrev pub stream_size : ℕ
stream_size = 4096

-- `LIB_SYS_STREAM_FLAG_undefinied`, `..._null`, `..._closed`
abbrev pub flag_undefinied : ℕ
flag_undefinied = 2

abbrev pub flag_null : ℕ
flag_null = 64

abbrev pub flag_closed : ℕ
flag_closed = 128

-- `stream -> flags & mask`, as a test
abbrev pub has_flag : Stream → ℕ → Bool
has_flag s mask = not (bit_and s.flags mask == 0)

abbrev pub inc16 : ℕ → ℕ
inc16 n = (n + 1) % 2 ^ 16

-- Where a loop of `kernel_stream_out` stands; `left` is `length - sent`.
pub record Cursor : Type 0 where
  pub bytes : ℕ → ℕ
  pub end : ℕ
  pub sent : ℕ
  pub left : ℕ

-- `while( sent != length && end < LIB_SYS_STREAM_SIZE_byte )`
pub fill_to_end : (ℕ → ℕ) → ℕ → ℕ → (ℕ → ℕ) → ℕ → Cursor
fill_to_end string zero sent bytes end = record { bytes = bytes; end = end; sent = sent; left = 0 }
fill_to_end string (suc left) sent bytes end = elim (ltb end stream_size) [
  | true ↦ fill_to_end string left (sent + 1) (store bytes end (string sent)) (inc16 end)
  | false ↦ record { bytes = bytes; end = end; sent = sent; left = suc left }
]

-- `while( sent != length )`
pub fill_rest : (ℕ → ℕ) → ℕ → ℕ → (ℕ → ℕ) → ℕ → Cursor
fill_rest string zero sent bytes end = record { bytes = bytes; end = end; sent = sent; left = 0 }
fill_rest string (suc left) sent bytes end =
    fill_rest string left (sent + 1) (store bytes end (string sent)) (inc16 end)

-- Behind the first loop: what is left goes to the start of the ring.
pub fill_wrapped : (ℕ → ℕ) → Cursor → Cursor
fill_wrapped string c = fill_rest string c.left c.sent c.bytes (if c.left == 0 then c.end else 0)

pub fill : (ℕ → ℕ) → ℕ → Stream → Cursor
fill string length s =
    if leb s.start s.end
    then fill_wrapped string (fill_to_end string length 0 s.bytes s.end)
    else fill_rest string length 0 s.bytes s.end

-- `none`: the loop on the lock spins.
pub kernel_stream_out : Stream → (ℕ → ℕ) → ℕ → Option Stream
kernel_stream_out s string length =
    let c = fill string length s in
    if ltb stream_size length
    then some s
    else if has_flag s (bit_or flag_closed flag_null)
    then some s
    else if s.lock
    then none
    else if leb length s.free
    then some (record s {
      bytes = c.bytes;
      end = c.end;
      free = (s.free + 2 ^ 16 - length) % 2 ^ 16;
      flags = bit_or s.flags flag_undefinied;
      lock = false;
    })
    else some (record s { lock = false })

-- `while( start < LIB_SYS_STREAM_SIZE_byte )`, with the rounds that are left.
pub drain_to_end : (ℕ → ℕ) → ℕ → ℕ → List ℕ
drain_to_end bytes zero start = []
drain_to_end bytes (suc left) start = bytes start ∷ drain_to_end bytes left (start + 1)

-- `while( start != end )`; `start` has 16 bits, so 2 ^ 16 rounds are enough.
pub drain : ℕ → (ℕ → ℕ) → ℕ → ℕ → List ℕ
drain zero bytes end start = []
drain (suc fuel) bytes end start = elim (start == end) [
  | true ↦ []
  | false ↦ bytes start ∷ drain fuel bytes end (inc16 start)
]

-- The bytes put into the cache, whose number is the result, and the stream. The second loop ends
-- with `start` at `end`.
pub kernel_stream_in : Stream → Option (List ℕ × Stream)
kernel_stream_in s =
    let first =
      if ltb s.end s.start then drain_to_end s.bytes (stream_size - s.start) s.start else [] in
    let start = if ltb s.end s.start then 0 else s.start in
    let received = first ++ drain (2 ^ 16) s.bytes s.end start in
    if has_flag s flag_closed || (s.free == stream_size)
    then some ([], s)
    else if s.lock
    then none
    else some (received, record s { start = s.end; free = stream_size; lock = false })
