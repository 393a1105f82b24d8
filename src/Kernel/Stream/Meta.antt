-- ===== src/Kernel/Stream/Meta.antt =====
-- kernel_stream_get and kernel_stream_set: the 8 bytes of metadata of a stream.
use fern_night.Prelude.{
  ℕ, zero, suc, ◌+◌, ◌-◌, ◌^◌, ◌<◌, bit_and, Bool, false, not, Option, none, some, ◌==◌,
  if◌then◌else◌, ◌≡◌, arith,
}
use fern_night.Kernel.Memory.{store}
use fern_night.Kernel.Memory.Map.{in_run}
use fern_night.Kernel.Stream.{Stream, flag_undefinied}

-- The two streams of the active task.
pub record TaskStreams : Type 0 where
  pub stream_in : Stream
  pub stream_out : Stream

-- `direction & LIB_SYS_STREAM_in`
unfoldable pub is_in : ℕ → Bool
is_in direction = not (bit_and direction 2 == 0)

-- "which stream?"
abbrev pub selected : TaskStreams → ℕ → Stream
selected t direction = if is_in direction then t.stream_in else t.stream_out

-- The loop that copies `left` bytes from index `i` on.
pub copy : ℕ → ℕ → (ℕ → ℕ) → (ℕ → ℕ) → ℕ → ℕ
copy zero i source target = target
copy (suc left) i source target = copy left (i + 1) source (store target i (source i))

-- The metadata and the flags; `none`: the loop on the lock spins.
pub kernel_stream_get : TaskStreams → (ℕ → ℕ) → ℕ → Option ((ℕ → ℕ) × ℕ × TaskStreams)
kernel_stream_get t meta direction =
    let s = selected t direction in
    let s' : Stream = record s { lock = false } in
    if s.lock
    then none
    else some (
      copy 8 0 s.meta meta,
      s.flags,
      (if is_in direction then record t { stream_in = s' } else record t { stream_out = s' }),
    )

set_meta : Stream → (ℕ → ℕ) → Stream
set_meta s meta =
    if s.start == s.end
    then record s {
      meta = copy 8 0 meta s.meta;
      flags = bit_and s.flags (2 ^ 8 - 1 - flag_undefinied);
      lock = false;
    }
    else record s { lock = false }

pub kernel_stream_set : TaskStreams → ℕ → (ℕ → ℕ) → Option TaskStreams
unfolding set_meta
kernel_stream_set t direction meta =
    let s = selected t direction in
    if s.lock
    then none
    else some (
        if is_in direction
        then record t { stream_in = set_meta s meta }
        else record t { stream_out = set_meta s meta })

copy-store :
    (left i : ℕ) (source target : ℕ → ℕ) (j : ℕ)
    → copy left i source target j ≡ (if in_run i left j then source j else target j)
unfolding copy
copy-store zero i source target j = ground arith
copy-store (suc left) i source target j =
    ground (arith, copy-store left (i + 1) source (store target i (source i)) j)

-- Metadata set on a stream whose markers meet and whose lock is free is what `kernel_stream_get`
-- then reads in the same direction, byte by byte.
pub get-set :
    (t : TaskStreams) (direction : ℕ) (meta old : ℕ → ℕ) (j : ℕ)
    → (selected t direction).lock ≡ false
    → (selected t direction).start ≡ (selected t direction).end
    → j < 8
    → (t' t'' : TaskStreams) × (seen : ℕ → ℕ) × (flags : ℕ) × (kernel_stream_set t direction meta
        ≡ some t')
      × (kernel_stream_get t' old direction ≡ some (seen, flags, t''))
      × (seen j ≡ meta j)
unfolding kernel_stream_set kernel_stream_get
get-set t direction meta old j unlocked meet below =
    let s = selected t direction in
    let s' : Stream = record s {
      meta = copy 8 0 meta s.meta;
      flags = bit_and s.flags (2 ^ 8 - 1 - flag_undefinied);
      lock = false;
    } in
    let t' : TaskStreams =
      if is_in direction then record t { stream_in = s' } else record t { stream_out = s' } in
    (
      t',
      t',
      copy 8 0 (copy 8 0 meta s.meta) old,
      s'.flags,
      ground arith,
      ground arith,
      ground (arith, copy-store 8 0 (copy 8 0 meta s.meta) old j, copy-store 8 0 meta s.meta j),
    )
