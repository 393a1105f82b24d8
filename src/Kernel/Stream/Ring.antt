-- ===== src/Kernel/Stream/Ring.antt =====
-- A stream as the queue of its bytes: what kernel_stream_out appends and kernel_stream_in takes.
use fern_night.Prelude.{
  ℕ, ◌+◌, ◌-◌, ◌%◌, ◌^◌, ◌≤◌, ◌<◌, bit_or, Bool, true, false, not, ◌&&◌, List, [], ◌++◌, some, leb,
  ◌==◌, if◌then◌else◌, ◌≡◌, ap, ap₂, ◌⊎◌, inl, inr, arith, length, min, Bool-cases, append-nil,
}
use native.Mathlib.Decide.{dec_lt}
use fern_night.Kernel.Stream.{
  Stream, Cursor, stream_size, flag_undefinied, flag_null, flag_closed, has_flag, fill_to_end,
  fill_rest, fill_wrapped, fill, kernel_stream_out,
}
use fern_night.Kernel.Stream.Loops.{
  listing, listing-append, listing_ext, Filled, fill_rest-Filled, fill_to_end-Filled,
}

-- The markers lie in the ring, and `free` counts the bytes between them; a marker at the very
-- end of the ring stands for one at its start.
pub record IsValid (s : Stream) : Type 0 where
  pub start_in : s.start ≤ stream_size
  pub end_in : s.end ≤ stream_size
  pub free_in : s.free ≤ stream_size
  pub counted : (s.start + (stream_size - s.free)) % stream_size ≡ s.end % stream_size

abbrev pub used : Stream → ℕ
used s = stream_size - s.free

-- The byte `i` places behind the start marker.
abbrev pub byte_at : Stream → ℕ → ℕ
byte_at s i = s.bytes ((s.start + i) % stream_size)

-- The bytes that were sent and not received, oldest first.
abbrev pub contents : Stream → List ℕ
contents s = listing (byte_at s) 0 (used s)

-- What the two loops of `kernel_stream_out` leave: the string behind the end marker, and the
-- bytes in between untouched.
pub record Sent (s : Stream) (string : ℕ → ℕ) (length : ℕ) (c : Cursor) : Type 0 where
  pub end_in : c.end ≤ stream_size
  pub moved : c.end % stream_size ≡ (s.end + length) % stream_size
  pub new : (i : ℕ) → i < length → c.bytes ((s.start + (used s + i)) % stream_size) ≡ string i
  pub old : (i : ℕ) → i < used s → c.bytes ((s.start + i) % stream_size) ≡ byte_at s i

-- The end marker is below the start marker: the string fits between them.
Sent-below :
    (s : Stream) (string : ℕ → ℕ) (length : ℕ) (c : Cursor)
    → IsValid s
    → length ≤ s.free
    → s.end < s.start
    → Filled string length 0 s.bytes s.end 0 c
    → Sent s string length c
Sent-below s string length c v fits below f = record {
  end_in = omega (arith, f.at);
  moved = omega (arith, f.at);
  new = λ i l.
      let e : (s.start + (used s + i)) % stream_size ≡ s.end + i = omega arith in
      let k : 0 + (s.end + i - s.end) ≡ i = omega arith in
      rw e (ground (arith, f.stored (s.end + i), ap string k));
  old = λ i l. ground (arith, f.stored ((s.start + i) % stream_size));
}

-- The end marker is not below: the string goes behind it, and on from the start of the ring.
Sent-above :
    (s : Stream) (string : ℕ → ℕ) (length : ℕ) (c d : Cursor)
    → IsValid s
    → length ≤ s.free
    → s.start ≤ s.end
    → Filled string
        (min length (stream_size - s.end))
        0
        s.bytes
        s.end
        (length - (stream_size - s.end))
        c
    → Filled string c.left c.sent c.bytes (if c.left == 0 then c.end else 0) 0 d
    → Sent s string length d
Sent-above s string length c d v fits above f g = record {
  end_in = ground (arith, f.at, g.at, f.left_over);
  moved = ground (arith, f.at, g.at, f.left_over);
  new = λ i l. elim (dec_lt (s.end + i) stream_size) [
    | yes near ↦
        let e : (s.start + (used s + i)) % stream_size ≡ s.end + i = omega arith in
        let k : 0 + (s.end + i - s.end) ≡ i = omega arith in
        rw e (
          ground
            (arith, f.stored (s.end + i), g.stored (s.end + i), f.left_over, f.at, ap string k))
    | no far ↦
        let e : (s.start + (used s + i)) % stream_size ≡ s.end + i - stream_size = omega arith in
        let k : c.sent + (s.end + i - stream_size - 0) ≡ i = omega (arith, f.sent_to) in
        rw e (ground (arith, g.stored (s.end + i - stream_size), f.left_over, ap string k))
  ];
  old = λ i l. ground (
    arith,
    f.stored ((s.start + i) % stream_size),
    g.stored ((s.start + i) % stream_size),
    f.left_over,
    f.at,
  );
}

module _ (s : Stream) (string : ℕ → ℕ) (length : ℕ) where
  fill_below : s.end < s.start → fill string length s ≡ fill_rest string length 0 s.bytes s.end
  unfolding fill
  fill_below h = ground arith

  abbrev first : Cursor
  first = fill_to_end string length 0 s.bytes s.end

  fill_above :
      s.start ≤ s.end
      → fill string length s
        ≡ fill_rest string first.left first.sent first.bytes
            (if first.left == 0 then first.end else 0)
  unfolding fill fill_wrapped
  fill_above h = ground arith

  pub fill-Sent : IsValid s → length ≤ s.free → Sent s string length (fill string length s)
  fill-Sent v fits = elim (dec_lt s.end s.start) [
    | yes below ↦ rw (fill_below below) (
        Sent-below s string length _ v fits below
          (fill_rest-Filled string length 0 s.bytes s.end (omega arith)))
    | no above ↦
        let f : Filled string (min length (stream_size - s.end)) 0 s.bytes s.end
            (length - (stream_size - s.end)) first =
          fill_to_end-Filled string length 0 s.bytes s.end v.end_in in
        rw (fill_above (omega arith)) (
          Sent-above s string length first _ v fits (omega arith) f (
            fill_rest-Filled string first.left first.sent first.bytes _
              (ground (arith, f.at, f.left_over))))
  ]

  -- The stream that a call of `kernel_stream_out` leaves.
  abbrev pub sent_stream : Stream
  sent_stream = record s {
    bytes = (fill string length s).bytes;
    end = (fill string length s).end;
    free = (s.free + 2 ^ 16 - length) % 2 ^ 16;
    flags = bit_or s.flags flag_undefinied;
    lock = false;
  }

  pub sent_stream-IsValid : IsValid s → length ≤ s.free → IsValid sent_stream
  sent_stream-IsValid v fits =
      let t = fill-Sent v fits in
      record {
        start_in = v.start_in;
        end_in = t.end_in;
        free_in = omega arith;
        counted = omega (arith, t.moved);
      }

  pub contents-sent_stream :
      IsValid s → length ≤ s.free → contents sent_stream ≡ contents s ++ listing string 0 length
  contents-sent_stream v fits =
      let t = fill-Sent v fits in
      let n : used sent_stream ≡ used s + length = omega arith in
      rw (n, listing-append (byte_at sent_stream) 0 (used s) length)
        (ap₂ ◌++◌
          (listing_ext (byte_at sent_stream) (byte_at s) (used s) 0 0
            λ i l. let e : 0 + i ≡ i = omega arith in rw e (t.old i l))
          (listing_ext (byte_at sent_stream) string length (0 + used s) 0 λ i l.
            let e : 0 + i ≡ i = omega arith in
            let k : 0 + used s + i ≡ used s + i = omega arith in rw (e, k) (t.new i l)))

-- Whether a call with `length` bytes is carried out.
abbrev pub accepts : Stream → ℕ → Bool
accepts s length =
    leb length stream_size && (not (has_flag s (bit_or flag_closed flag_null)) && leb length s.free)

-- On a valid stream whose lock is free, `kernel_stream_out` appends the string, if it is at most
-- as long as the free space and the stream is neither closed nor null, and else nothing; the
-- stream stays valid.
pub stream_out_appends :
    (s : Stream) (string : ℕ → ℕ) (length : ℕ)
    → IsValid s
    → s.lock ≡ false
    → (s' : Stream) × (kernel_stream_out s string length ≡ some s')
      × IsValid s'
      × (contents s' ≡ contents s ++ (if accepts s length then listing string 0 length else []))
stream_out_appends s string length v unlocked = elim (Bool-cases (accepts s length)) [
  | inl taken ↦ (
    sent_stream s string length,
    unfold kernel_stream_out in ground arith,
    sent_stream-IsValid s string length v (ground arith),
    rw taken (contents-sent_stream s string length v (ground arith)),
  )
  | inr left ↦ elim (refused (has_flag s (bit_or flag_closed flag_null)) (leb length stream_size)) [
    | inl dropped ↦ (s, unfold kernel_stream_out in ground arith, v, rw (left, append-nil))
    | inr full ↦ (
      record s { lock = false },
      unfold kernel_stream_out in ground arith,
      record { start_in = v.start_in; end_in = v.end_in; free_in = v.free_in; counted = v.counted },
      rw (left, append-nil),
    )
  ]
]
  where
    refused : (a b : Bool) → ((a ≡ true) ⊎ (b ≡ false)) ⊎ ((a ≡ false) × (b ≡ true))
    refused a b = ground arith
