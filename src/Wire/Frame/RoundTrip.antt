-- ===== src/Wire/Frame/RoundTrip.antt =====
-- Reading back what was framed, and what a stream that ends inside a frame gives.
use montygo.Prelude.{
  Bytes, IsBytes, List, [], ap, arith, drop-length, length, length-append, length-take, refl,
  take-append-drop, take-length, ℕ, ◌++◌, ◌<◌, ◌∷◌, ◌≡◌, ◌≢◌, ◌≤◌,
}
use montygo.Wire.Frame.{
  Ending, FrameError, FrameReader, append_frame_header, closed, end_of_stream, err, max_frame_len,
  next, next_body, ok, put_uint32, read_full, truncated, uint32,
}

uint32-put_uint32 : (n : ℕ) (rest : Bytes) → n ≤ max_frame_len → uint32 (put_uint32 n ++ rest) ≡ n
unfolding uint32 put_uint32
uint32-put_uint32 n rest h = omega arith

put_uint32-uint32 :
    (a b c d : ℕ)
    → IsBytes (a ∷ b ∷ c ∷ d ∷ [])
    → put_uint32 (uint32 (a ∷ b ∷ c ∷ d ∷ [])) ≡ a ∷ b ∷ c ∷ d ∷ []
unfolding uint32 put_uint32
put_uint32-uint32 a b c d h = ground arith

next_body-append :
    (payload rest : Bytes) (e : Ending)
    → next_body (length payload) (record { bytes = payload ++ rest; ending = e })
      ≡ ok (payload, record { bytes = rest; ending = e })
unfolding next_body read_full
next_body-append payload rest e =
    ground (arith, length-append payload rest, take-length payload rest, drop-length payload rest)

-- What AppendFrameHeader produces, FrameReader.Next reads back: the payload is returned, and the
-- reader stands at the first byte behind the frame, whatever follows it and however the stream ends.
pub next-append_frame_header :
    (payload frame rest : Bytes) (e : Ending)
    → append_frame_header payload ≡ ok frame
    → next (record { bytes = frame ++ rest; ending = e })
      ≡ ok (payload, record { bytes = rest; ending = e })
unfolding next append_frame_header read_full put_uint32
next-append_frame_header payload frame rest e h =
    ground (arith, uint32-put_uint32 (length payload) [], next_body-append payload rest e)

next_body_ok :
    (size : ℕ) (r : FrameReader) (p : Bytes) (r' : FrameReader)
    → next_body size r ≡ ok (p, r')
    → (length p ≡ size) × (r.bytes ≡ p ++ r'.bytes) × (r'.ending ≡ r.ending)
unfolding next_body read_full
next_body_ok size r p r' h = ground (arith, length-take size r.bytes, take-append-drop size r.bytes)

-- The frame of a payload of admissible length.
abbrev frame_of : Bytes → Bytes
frame_of p = put_uint32 (length p) ++ p

append_frame_header_of_le :
    (p : Bytes) → length p ≤ max_frame_len → append_frame_header p ≡ ok (frame_of p)
unfolding append_frame_header
append_frame_header_of_le p h = ground arith

next_of_header :
    (a b c d : ℕ) (bs : Bytes) (e : Ending) (p : Bytes) (r' : FrameReader)
    → next (record { bytes = a ∷ b ∷ c ∷ d ∷ bs; ending = e }) ≡ ok (p, r')
    → (uint32 (a ∷ b ∷ c ∷ d ∷ []) ≤ max_frame_len)
      × (next_body (uint32 (a ∷ b ∷ c ∷ d ∷ [])) (record { bytes = bs; ending = e }) ≡ ok (p, r'))
unfolding next read_full
next_of_header a b c d bs e p r' h = ground arith

next_frame :
    (bs : Bytes) (e : Ending) (p : Bytes) (r' : FrameReader)
    → IsBytes bs
    → next (record { bytes = bs; ending = e }) ≡ ok (p, r')
    → (append_frame_header p ≡ ok (frame_of p)) × (bs ≡ frame_of p ++ r'.bytes) × (r'.ending ≡ e)
next_frame [] e p r' v h = unfold next read_full in ground arith
next_frame (a ∷ []) e p r' v h = unfold next read_full in ground arith
next_frame (a ∷ b ∷ []) e p r' v h = unfold next read_full in ground arith
next_frame (a ∷ b ∷ c ∷ []) e p r' v h = unfold next read_full in ground arith
next_frame (a ∷ b ∷ c ∷ d ∷ bs) e p r' v h =
    let (fits, body) = next_of_header a b c d bs e p r' h in
    let (size, split, ends) = next_body_ok _ _ p r' body in
    (
      append_frame_header_of_le p (omega (arith, fits)),
      rw (size, put_uint32-uint32 a b c d (omega arith)) (ap (λ t. a ∷ b ∷ c ∷ d ∷ t) split),
      ends,
    )

-- Next accepts nothing but frames: when it returns a payload, the bytes that it took from the
-- stream are the frame that AppendFrameHeader makes of that payload.
pub append_frame_header-next :
    (r : FrameReader) (payload : Bytes) (r' : FrameReader)
    → IsBytes r.bytes
    → next r ≡ ok (payload, r')
    → (frame : Bytes) × (append_frame_header payload ≡ ok frame)
      × (r.bytes ≡ frame ++ r'.bytes)
      × (r'.ending ≡ r.ending)
append_frame_header-next r payload r' bytes h =
    let (made, split, ends) = next_frame r.bytes r.ending payload r' bytes h in
    (frame_of payload, made, split, ends)

next_short_body :
    (a b c d : ℕ) (bs : Bytes)
    → uint32 (a ∷ b ∷ c ∷ d ∷ []) ≤ max_frame_len
    → length bs < uint32 (a ∷ b ∷ c ∷ d ∷ [])
    → next (record { bytes = a ∷ b ∷ c ∷ d ∷ bs; ending = closed }) ≡ err truncated
unfolding next read_full
next_short_body a b c d [] fits less = ground arith
next_short_body a b c d (x ∷ bs) fits less = ground arith

length-lt_of_ne_nil {ℓ} : {A : Type ℓ} (xs ys : List A) → ys ≢ [] → length xs < length (xs ++ ys)
length-lt_of_ne_nil xs [] h = absurd (h refl)
length-lt_of_ne_nil xs (y ∷ ys) h = omega (arith, length-append xs (y ∷ ys))

-- What a stream that ends inside a frame is due, by the part of the frame that was there.
abbrev cut_short : Bytes → FrameError
cut_short [] = end_of_stream
cut_short (x ∷ xs) = truncated

next_part :
    (part rest : Bytes) (n : ℕ) (payload : Bytes)
    → n ≡ length payload
    → n ≤ max_frame_len
    → put_uint32 n ++ payload ≡ part ++ rest
    → rest ≢ []
    → next (record { bytes = part; ending = closed }) ≡ err (cut_short part)
next_part [] rest n payload k fits e more = unfold next read_full in ground arith
next_part (a ∷ []) rest n payload k fits e more = unfold next read_full in ground arith
next_part (a ∷ b ∷ []) rest n payload k fits e more = unfold next read_full in ground arith
next_part (a ∷ b ∷ c ∷ []) rest n payload k fits e more = unfold next read_full in ground arith
next_part (a ∷ b ∷ c ∷ d ∷ part) rest n payload k fits e more =
    next_short_body a b c d part (omega (arith, size)) (omega (arith, size, inside))
  where
    size : uint32 (a ∷ b ∷ c ∷ d ∷ []) ≡ n
    size = unfold put_uint32 in cc (uint32-put_uint32 n [] fits)

    inside : length part < length payload
    inside =
        let tails : payload ≡ part ++ rest = unfold put_uint32 in cc e in
        omega (arith, ap length tails, length-lt_of_ne_nil part rest more)

-- A stream that ends inside a frame is reported as truncated, and as ended only if no byte of the
-- frame was there.
pub next_truncated :
    (payload frame part rest : Bytes)
    → append_frame_header payload ≡ ok frame
    → frame ≡ part ++ rest
    → rest ≢ []
    → next (record { bytes = part; ending = closed }) ≡ err (cut_short part)
unfolding append_frame_header
next_truncated payload frame part rest h e more =
    next_part part rest (length payload) payload refl (ground arith) (ground arith) more
