-- ===== src/Kernel/Stream/Transfer.antt =====
-- kernel_stream_out followed by kernel_stream_in: the round trip, and the full ring that is lost.
use fern_night.Prelude.{
  ℕ, ◌-◌, ◌^◌, ◌≤◌, ◌<◌, bit_and, bit_or, false, [], ◌++◌, some, ◌≡◌, refl, ap, ◌∙◌, inl, arith,
  length,
}
use fern_night.Prelude.Bits.{bit_at, bit_at-lt, bit_at-bit_and, bit_at-bit_or, bit_and-pow}
use native.Mathlib.Decide.{dec_lt}
use fern_night.Kernel.Stream.{
  Stream, stream_size, flag_null, flag_closed, has_flag, drain_to_end, drain, kernel_stream_out,
  kernel_stream_in,
}
use fern_night.Kernel.Stream.Loops.{listing, length-listing, drain_at_end, drain_to_end-listing}
use fern_night.Kernel.Stream.Ring.{
  IsValid, used, contents, fill-Sent, sent_stream, sent_stream-IsValid, contents-sent_stream,
}
use fern_night.Kernel.Stream.Receive.{contents-empty, stream_in_receives, drained}

-- Sending does not close a stream.
flags_stay_open :
    (flags : ℕ)
    → bit_and flags (bit_or flag_closed flag_null) ≡ 0
    → bit_and (bit_or flags 2) flag_closed ≡ 0
flags_stay_open flags h =
    let top : bit_at (bit_and flags 0xC0) 7 ≡ 0 = ap (λ t. bit_at t 7) h ∙ unfold bit_at in refl in
    let one : bit_at 0xC0 7 ≡ 1 = unfold bit_at in refl in
    let none_ : bit_at 2 7 ≡ 0 = unfold bit_at in refl in
    omega (
      arith,
      top,
      one,
      none_,
      bit_at-bit_and flags 0xC0 7,
      bit_at-lt flags 7,
      bit_at-bit_or flags 2 7,
      bit_and-pow (bit_or flags 2) 7,
    )

-- A string that does not fill the ring, sent through an empty, valid and open stream whose lock
-- is free, is received as it was.
pub in-out :
    (s : Stream) (string : ℕ → ℕ) (length : ℕ)
    → IsValid s
    → s.lock ≡ false
    → bit_and s.flags (bit_or flag_closed flag_null) ≡ 0
    → s.free ≡ stream_size
    → length < stream_size
    → (s' s'' : Stream) × (kernel_stream_out s string length ≡ some s')
      × (kernel_stream_in s' ≡ some (listing string 0 length, s''))
in-out s string length v unlocked opened empty short =
    let s' = sent_stream s string length in
    let fits : length ≤ s.free = omega arith in
    let room : 0 < s'.free = omega arith in
    let open' : has_flag s' flag_closed ≡ false = ground (arith, flags_stay_open s.flags opened) in
    let (s'', answer, _, _) =
      stream_in_receives s' (sent_stream-IsValid s string length v fits) refl open' (inl room) in
    let whole : contents s' ≡ listing string 0 length =
      contents-sent_stream s string length v fits
      ∙ ap (λ t. t ++ listing string 0 length) (contents-empty s empty) in
    (s', s'', unfold kernel_stream_out in ground arith, rw (← whole) answer)

-- A full ring whose markers are in one place is received as empty: a valid, open stream without
-- free space whose end marker is not above the start marker gives no byte, and is emptied.
pub stream_in_loses :
    (s : Stream)
    → IsValid s
    → s.lock ≡ false
    → has_flag s flag_closed ≡ false
    → s.free ≡ 0
    → s.end ≤ s.start
    → (kernel_stream_in s ≡ some ([], drained s)) × (length (contents s) ≡ stream_size)
stream_in_loses s v unlocked readable full back = (
  elim (dec_lt s.end s.start) [
    | no same ↦
        unfold kernel_stream_in in ground (arith, drain_at_end (2 ^ 16) s.bytes s.end s.start)
    | yes below ↦ unfold kernel_stream_in in ground (arith, nothing_below below)
  ],
  length-listing _ 0 (used s) ∙ omega arith,
)
  where
    nothing_below :
        s.end < s.start
        → drain_to_end s.bytes (stream_size - s.start) s.start ++ drain (2 ^ 16) s.bytes s.end 0
          ≡ []
    nothing_below below =
        let top : stream_size - s.start ≡ 0 = omega arith in
        let bottom : s.end ≡ 0 = omega arith in
        rw
          (
            top,
            drain_to_end-listing s.bytes 0 s.start,
            drain_at_end (2 ^ 16) s.bytes s.end 0 bottom,
          )
          (unfold listing in refl)

-- A string of 4096 bytes sent through an empty, valid and open stream, whose lock is free and
-- whose two markers stand at one place above 0, is taken in whole and received as no byte.
pub full_write_lost :
    (s : Stream) (string : ℕ → ℕ)
    → IsValid s
    → s.lock ≡ false
    → bit_and s.flags (bit_or flag_closed flag_null) ≡ 0
    → s.free ≡ stream_size
    → s.end ≡ s.start
    → 0 < s.start
    → (s' s'' : Stream) × (kernel_stream_out s string stream_size ≡ some s')
      × (contents s' ≡ listing string 0 stream_size)
      × (kernel_stream_in s' ≡ some ([], s''))
full_write_lost s string v unlocked opened empty same above =
    let s' = sent_stream s string stream_size in
    let fits : stream_size ≤ s.free = omega arith in
    let open' : has_flag s' flag_closed ≡ false = ground (arith, flags_stay_open s.flags opened) in
    let t = fill-Sent s string stream_size v fits in
    let full : s'.free ≡ 0 = omega arith in
    let back : s'.end ≤ s'.start = omega (arith, t.moved, t.end_in, v.start_in) in
    let lost =
      stream_in_loses s' (sent_stream-IsValid s string stream_size v fits) refl open' full back in
    (
      s',
      drained s',
      unfold kernel_stream_out in ground arith,
      contents-sent_stream s string stream_size v fits
          ∙ ap (λ t. t ++ listing string 0 stream_size) (contents-empty s empty),
      lost.0,
    )
