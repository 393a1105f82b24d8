-- ===== src/Kernel/Stream/Receive.antt =====
-- kernel_stream_in: what it takes from the queue that a stream is.
use fern_night.Prelude.{
  ℕ, ◌+◌, ◌-◌, ◌^◌, ◌≤◌, ◌<◌, false, [], ◌++◌, some, ◌≡◌, refl, ap, ap₂, sym, ◌∙◌, ◌⊎◌, arith,
}
use native.Mathlib.Decide.{dec_lt, ℕ_discrete}
use fern_night.Kernel.Stream.{
  Stream, stream_size, flag_closed, has_flag, drain_to_end, drain, kernel_stream_in,
}
use fern_night.Kernel.Stream.Loops.{
  listing, listing-append, listing_ext, drain_to_end-listing, drain-listing,
}
use fern_night.Kernel.Stream.Ring.{IsValid, used, byte_at, contents}

-- A run of the ring that does not go over its end.
listing_straight :
    (s : Stream) (n a : ℕ)
    → s.start + a + n ≤ stream_size
    → listing s.bytes (s.start + a) n ≡ listing (byte_at s) a n
listing_straight s n a h =
    listing_ext s.bytes (byte_at s) n (s.start + a) a λ i l. ap s.bytes (omega arith)

-- The fuel is a variable here: the loop is not run.
received_above :
    (s : Stream) (fuel : ℕ)
    → fuel ≡ 2 ^ 16
    → IsValid s
    → s.start ≤ s.end
    → s.start + used s ≡ s.end
    → drain fuel s.bytes s.end s.start ≡ contents s
received_above s fuel e v above reach =
    let n : s.start + used s ≡ s.end = reach in
    let z : s.start + 0 ≡ s.start = omega arith in
    rw
      (
        ← n,
        drain-listing fuel s.bytes (used s) s.start (omega arith) (omega arith),
        ← listing_straight s (used s) 0 (omega arith),
        z,
      )
      refl

received_below :
    (s : Stream) (fuel : ℕ)
    → fuel ≡ 2 ^ 16
    → IsValid s
    → s.end < s.start
    → s.start + used s ≡ s.end + stream_size
    → drain_to_end s.bytes (stream_size - s.start) s.start ++ drain fuel s.bytes s.end 0
      ≡ contents s
received_below s fuel e v below reach =
    let n : used s ≡ stream_size - s.start + s.end = omega arith in
    let z : 0 + s.end ≡ s.end = omega arith in
    let y : s.start + 0 ≡ s.start = omega arith in
    rw (n, listing-append (byte_at s) 0 (stream_size - s.start) s.end)
      (ap₂ ◌++◌
        (drain_to_end-listing s.bytes (stream_size - s.start) s.start
          ∙ sym (ap (λ t. listing s.bytes t (stream_size - s.start)) y)
          ∙ listing_straight s (stream_size - s.start) 0 (omega arith))
        (sym (ap (λ t. drain fuel s.bytes t 0) z)
          ∙ drain-listing fuel s.bytes s.end 0 (omega arith) (omega arith)
          ∙ listing_ext s.bytes (byte_at s) s.end 0 (0 + (stream_size - s.start))
              (λ i l. ap s.bytes (omega arith))))

-- What a call with success leaves: an empty stream.
abbrev pub drained : Stream → Stream
drained s = record s { start = s.end; free = stream_size; lock = false }

pub contents-empty : (s : Stream) → s.free ≡ stream_size → contents s ≡ []
unfolding listing
contents-empty s e = let n : used s ≡ 0 = omega arith in rw n

-- On a valid stream that is not closed and whose lock is free, and that is not full with its
-- markers in one place, `kernel_stream_in` receives every byte that was sent, in order, and
-- leaves the stream empty and valid.
pub stream_in_receives :
    (s : Stream)
    → IsValid s
    → s.lock ≡ false
    → has_flag s flag_closed ≡ false
    → (0 < s.free) ⊎ (s.start < s.end)
    → (s' : Stream) × (kernel_stream_in s ≡ some (contents s, s')) × IsValid s' × (contents s' ≡ [])
stream_in_receives s v unlocked readable room = elim (ℕ_discrete s.free stream_size) [
  | yes empty ↦ (
    s,
    rw (contents-empty s empty) (unfold kernel_stream_in in ground arith),
    v,
    contents-empty s empty,
  )
  | no filled ↦ (
    drained s,
    elim (dec_lt s.end s.start) [
      | yes below ↦
          unfold kernel_stream_in in
          ground (arith, received_below s (2 ^ 16) refl v below (omega arith))
      | no above ↦
          unfold kernel_stream_in in
          ground (arith, received_above s (2 ^ 16) refl v (omega arith) (omega arith))
    ],
    record { start_in = v.end_in; end_in = v.end_in; free_in = omega arith; counted = omega arith },
    contents-empty (drained s) refl,
  )
]
