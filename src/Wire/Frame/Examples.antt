-- ===== src/Wire/Frame/Examples.antt =====
-- Runs of the frame codec, and its theorems at concrete streams.
use montygo.Prelude.{Bytes, [], refl, ◌++◌, ◌∷◌, ◌≡◌}
use montygo.Wire.Frame.{
  append_frame_header, broken, closed, err, failure, io_failure, max_frame_len, next, ok, read_full,
  too_large, uint32,
}
use montygo.Wire.Frame.RoundTrip.{next-append_frame_header}

abbrev payload : Bytes
payload = 7 ∷ 255 ∷ []

abbrev framed : Bytes
framed = 2 ∷ 0 ∷ 0 ∷ 0 ∷ 7 ∷ 255 ∷ []

too_long_header :
    next (record { bytes = 0 ∷ 0 ∷ 0 ∷ 17 ∷ []; ending = closed })
    ≡ err (too_large 285212672 max_frame_len)
unfolding next read_full uint32
too_long_header = refl

transport_failure :
    next (record { bytes = 1 ∷ []; ending = broken 5 }) ≡ err (io_failure (failure 5))
unfolding next read_full
transport_failure = refl

next-append_frame_header_example :
    next (record { bytes = framed ++ 9 ∷ []; ending = closed })
    ≡ ok (payload, record { bytes = 9 ∷ []; ending = closed })
unfolding append_frame_header
next-append_frame_header_example = next-append_frame_header payload framed (9 ∷ []) closed refl
