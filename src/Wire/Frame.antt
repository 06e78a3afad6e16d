-- ===== src/Wire/Frame.antt =====
-- internal/wire/frame.go: frames behind a four-byte little-endian length.
-- A reader is what is left of its stream: the bytes to come and how the stream ends.
pub mod RoundTrip
mod Examples
use montygo.Prelude.{
  Bool, Bytes, List, [], drop, false, if◌then◌else◌, leb, length, ltb, suc, take, true, zero, ℕ,
  ◌%◌, ◌&&◌, ◌*◌, ◌++◌, ◌+◌, ◌/◌, ◌==◌, ◌||◌, ◌∷◌,
}

-- 256 << 20
abbrev pub max_frame_len : ℕ
max_frame_len = 256 * 1048576

-- What the `io` package reports: `io.EOF`, `io.ErrUnexpectedEOF` and any other error.
pub data IoError : Type 0 where
  eof unexpected_eof : IoError
  failure : ℕ → IoError

-- How a stream ends: by its end, or by an error of the transport.
pub data Ending : Type 0 where
  closed : Ending
  broken : ℕ → Ending

pub record FrameReader : Type 0 where
  pub bytes : Bytes
  pub ending : Ending

pub data FrameError : Type 0 where
  end_of_stream truncated : FrameError
  too_large : ℕ → ℕ → FrameError
  io_failure : IoError → FrameError

pub data Result {ℓ} (A : Type ℓ) : Type ℓ where
  ok : A → Result A
  err : FrameError → Result A

-- `io.ReadFull`: the buffer and the stream behind it, or the bytes read and an error.
pub data ReadFull : Type 0 where
  filled : Bytes → FrameReader → ReadFull
  short : ℕ → IoError → ReadFull

abbrev short_error : ℕ → Ending → IoError
short_error zero closed = eof
short_error (suc n) closed = unexpected_eof
short_error n (broken e) = failure e

pub read_full : ℕ → FrameReader → ReadFull
read_full n r =
    if leb n (length r.bytes)
    then filled (take n r.bytes) (record r { bytes = drop n r.bytes })
    else short (length r.bytes) (short_error (length r.bytes) r.ending)

-- `errors.Is(err, io.EOF)` and `errors.Is(err, io.ErrUnexpectedEOF)`.
abbrev is_eof : IoError → Bool
is_eof eof = true
is_eof _ = false

abbrev is_unexpected_eof : IoError → Bool
is_unexpected_eof unexpected_eof = true
is_unexpected_eof _ = false

-- `binary.LittleEndian.Uint32` and `PutUint32`.
pub uint32 : Bytes → ℕ
uint32 (a ∷ b ∷ c ∷ d ∷ rest) = a + 256 * b + 65536 * c + 16777216 * d
uint32 _ = 0

pub put_uint32 : ℕ → Bytes
put_uint32 n = n % 256 ∷ n / 256 % 256 ∷ n / 65536 % 256 ∷ n / 16777216 % 256 ∷ []

short_header : ℕ → IoError → FrameError
short_header n e =
    if n == 0 && is_eof e
    then end_of_stream
    else if is_unexpected_eof e || is_eof e
    then truncated
    else io_failure e

short_body : IoError → FrameError
short_body e = if is_unexpected_eof e || is_eof e then truncated else io_failure e

next_body : ℕ → FrameReader → Result (Bytes × FrameReader)
unfolding read_full short_body
next_body size r = elim (read_full size r) [
  | filled buf rest ↦ ok (buf, rest)
  | short n e ↦ err (short_body e)
]

-- `FrameReader.Next`.
pub next : FrameReader → Result (Bytes × FrameReader)
unfolding read_full short_header next_body uint32
next r = elim (read_full 4 r) [
  | filled hdr rest ↦
      let size = uint32 hdr in
      if ltb max_frame_len size then err (too_large size max_frame_len) else next_body size rest
  | short n e ↦ err (short_header n e)
]

-- `AppendFrameHeader`.
pub append_frame_header : Bytes → Result Bytes
unfolding put_uint32
append_frame_header payload =
    if ltb max_frame_len (length payload)
    then err (too_large (length payload) max_frame_len)
    else ok (put_uint32 (length payload) ++ payload)
