-- ===== src/Mountfs/Utf8.antt =====
-- internal/mountfs/utf8.go: UTF-8 validation with the positions that Rust's Utf8Error reports.
-- Go's `byte` is a number below 256. The loop over the index `i` walks the bytes that are left;
-- `skip` is how many of them `i += width` has passed already.
pub mod Encoding
pub mod Decoding
pub mod Check
pub mod Errors
pub mod Lossy
pub mod Report
mod Examples
use mathlib.Core.Option
use montygo.Prelude.{
  Bool, Bytes, Option, [], bit_and, codes, drop, false, get_elem?, if◌then◌else◌, leb, length, ltb,
  none, not, some, suc, take, true, zero, ℕ, ◌&&◌, ◌*◌, ◌++◌, ◌+◌, ◌-◌, ◌==◌, ◌||◌, ◌∷◌,
}

-- `cont`: b & 0xC0 == 0x80.
pub cont : ℕ → Bool
cont b = bit_and b 0xC0 == 0x80

-- What one round of the loop does: `i += width`, or a return with this error length.
pub data Round : Type 0 where
  advance : ℕ → Round
  bad : ℕ → Round

pub utf8_char_width : ℕ → ℕ
utf8_char_width b =
    if ltb b 0x80
    then 1
    else if ltb b 0xC2
    then 0
    else if ltb b 0xE0
    then 2
    else if ltb b 0xF0
    then 3
    else if ltb b 0xF5
    then 4
    else 0

pub valid_second_of_three : ℕ → ℕ → Bool
valid_second_of_three first s =
    (first == 0xE0 && leb 0xA0 s && leb s 0xBF)
    || (leb 0xE1 first && leb first 0xEC && cont s)
    || (first == 0xED && leb 0x80 s && leb s 0x9F)
    || (leb 0xEE first && leb first 0xEF && cont s)

pub valid_second_of_four : ℕ → ℕ → Bool
valid_second_of_four first s =
    (first == 0xF0 && leb 0x90 s && leb s 0xBF)
    || (leb 0xF1 first && leb first 0xF3 && cont s)
    || (first == 0xF4 && leb 0x80 s && leb s 0x8F)

pub two : Bytes → Round
two [] = bad 0
two (s ∷ t) = if not (cont s) then bad 1 else advance 2

third_of_three : Bytes → Round
third_of_three [] = bad 0
third_of_three (b ∷ t) = if not (cont b) then bad 2 else advance 3

pub three : ℕ → Bytes → Round
three first [] = bad 0
three first (s ∷ t) = if not (valid_second_of_three first s) then bad 1 else third_of_three t

fourth_of_four : Bytes → Round
fourth_of_four [] = bad 0
fourth_of_four (b ∷ t) = if not (cont b) then bad 3 else advance 4

third_of_four : Bytes → Round
third_of_four [] = bad 0
third_of_four (b ∷ t) = if not (cont b) then bad 2 else fourth_of_four t

pub four : ℕ → Bytes → Round
four first [] = bad 0
four first (s ∷ t) = if not (valid_second_of_four first s) then bad 1 else third_of_four t

-- The body of the loop at the byte `first`, before the bytes `t`.
pub round : ℕ → Bytes → Round
unfolding utf8_char_width
round first t =
    let width = utf8_char_width first in
    if ltb first 0x80
    then advance 1
    else if width == 2
    then two t
    else if width == 3
    then three first t
    else if width == 4
    then four first t
    else bad 1

-- The three results of utf8Check.
pub record Checked : Type 0 where
  pub valid_up_to : ℕ
  pub error_len : ℕ
  pub ok : Bool

check_from : ℕ → Bytes → ℕ → ℕ → Checked
check_from n [] i skip = record { valid_up_to = n; error_len = 0; ok = true }
check_from n (b ∷ t) i (suc skip) = check_from n t i skip
check_from n (b ∷ t) i zero = elim (round b t) [
  | advance width ↦ check_from n t (i + width) (width - 1)
  | bad e ↦ record { valid_up_to = i; error_len = e; ok = false }
]

-- utf8Check.
pub utf8_check : Bytes → Checked
unfolding check_from
utf8_check v = check_from (length v) v 0 0

-- utf8ErrorReason.
pub utf8_error_reason : ℕ → ℕ → Bytes
utf8_error_reason first_bad error_len =
    if error_len == 0
    then codes "unexpected end of data"
    else if leb 0xC2 first_bad && leb first_bad 0xF4
    then codes "invalid continuation byte"
    else codes "invalid start byte"

-- maxUnicodeObjectLen of errors.go, and utf8Failure with its `object` and `hasObject` as one field.
abbrev pub max_unicode_object_len : ℕ
max_unicode_object_len = 64 * 1024

pub record Utf8Failure : Type 0 where
  pub start : ℕ
  pub end : ℕ
  pub first_byte : ℕ
  pub reason : Bytes
  pub object : Option Bytes

pub data Decoded : Type 0 where
  text : Bytes → Decoded
  invalid : Utf8Failure → Decoded

-- bytesToUTF8; `none` is the panic of `b[start]` out of range.
pub bytes_to_utf8 : Bytes → Option Decoded
unfolding utf8_error_reason
bytes_to_utf8 b =
    let r = utf8_check b in
    if r.ok
    then some (text b)
    else Option.map
        (λ first. invalid (record {
          start = r.valid_up_to;
          end = if ltb 0 r.error_len then r.valid_up_to + r.error_len else length b;
          first_byte = first;
          reason = utf8_error_reason first r.error_len;
          object = if leb (length b) max_unicode_object_len then some b else none;
        }))
        (get_elem? b r.valid_up_to)

-- U+FFFD in UTF-8.
abbrev pub replacement_char : Bytes
replacement_char = 0xEF ∷ 0xBF ∷ 0xBD ∷ []

-- The loop of lossyUTF8 on fuel: `none` means that the fuel ran out.
lossy_from : ℕ → Bytes → Bytes → Option Bytes
lossy_from zero b out = none
lossy_from (suc fuel) [] out = some out
lossy_from (suc fuel) (x ∷ t) out =
    let b = x ∷ t in
    let r = utf8_check b in
    let copied = out ++ take r.valid_up_to b in
    let rest =
      lossy_from fuel (drop (r.valid_up_to + r.error_len) b) (copied ++ replacement_char) in
    if r.ok
    then some copied
    else if r.error_len == 0
    then some (copied ++ replacement_char)
    else rest

-- lossyUTF8. Each round passes at least one byte, so one round more than there are bytes is enough.
pub lossy_utf8 : Bytes → Option Bytes
unfolding lossy_from
lossy_utf8 s = if (utf8_check s).ok then some s else lossy_from (length s + 1) s []
