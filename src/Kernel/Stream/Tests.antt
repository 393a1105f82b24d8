-- ===== src/Kernel/Stream/Tests.antt =====
-- The theorems on kernel/stream.c at small streams.
use fern_night.Prelude.{ℕ, ◌+◌, false, [], ◌++◌, some, ◌==◌, if◌then◌else◌, ◌≡◌, refl, inl, arith}
use fern_night.Kernel.Stream.{Stream, stream_size, kernel_stream_out, kernel_stream_in}
use fern_night.Kernel.Stream.Loops.{listing}
use fern_night.Kernel.Stream.Ring.{IsValid, contents, accepts, stream_out_appends}
use fern_night.Kernel.Stream.Receive.{stream_in_receives}
use fern_night.Kernel.Stream.Transfer.{full_write_lost}

-- An empty ring whose markers stand near the end.
abbrev ring : Stream
ring = record {
  base_address = 4096;
  bytes = λ x. 0;
  start = 4095;
  end = 4095;
  free = 4096;
  lock = false;
  flags = 0;
  count = 1;
  meta = λ x. 0;
}

abbrev text : ℕ → ℕ
text x = 65 + x

ring-IsValid : IsValid ring
ring-IsValid = record {
  start_in = omega arith;
  end_in = omega arith;
  free_in = omega arith;
  counted = refl;
}

-- The ring with two bytes, one at its end and one at its start.
abbrev two_bytes : Stream
two_bytes = record ring { bytes = λ x. if x == 4095 then 65 else 66; end = 1; free = 4094 }

two_bytes-IsValid : IsValid two_bytes
two_bytes-IsValid = record {
  start_in = omega arith;
  end_in = omega arith;
  free_in = omega arith;
  counted = refl;
}

stream_out_appends_example :
    (s' : Stream) × (kernel_stream_out two_bytes text 3 ≡ some s')
    × IsValid s'
    × (contents s' ≡ contents two_bytes ++ (if accepts two_bytes 3 then listing text 0 3 else []))
stream_out_appends_example = stream_out_appends two_bytes text 3 two_bytes-IsValid refl

stream_in_receives_example :
    (s' : Stream) × (kernel_stream_in two_bytes ≡ some (contents two_bytes, s'))
    × IsValid s'
    × (contents s' ≡ [])
stream_in_receives_example =
    stream_in_receives two_bytes two_bytes-IsValid refl refl (inl (omega arith))

full_write_lost_example :
    (s' s'' : Stream) × (kernel_stream_out ring text stream_size ≡ some s')
    × (contents s' ≡ listing text 0 stream_size)
    × (kernel_stream_in s' ≡ some ([], s''))
full_write_lost_example = full_write_lost ring text ring-IsValid refl refl refl refl (omega arith)
