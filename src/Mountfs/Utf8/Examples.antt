-- ===== src/Mountfs/Utf8/Examples.antt =====
-- Runs of the UTF-8 functions, and their theorems at concrete bytes.
use montygo.Prelude.{
  Bytes, [], arith, drop, false, refl, some, take, true, ℕ, ◌++◌, ◌+◌, ◌<◌, ◌↔◌, ◌∷◌, ◌≡◌, ◌≢◌, ◌≤◌,
}
use montygo.Mountfs.Utf8.{check_from, cont, lossy_from, lossy_utf8, round, two, utf8_check}
use montygo.Mountfs.Utf8.Encoding.{IsScalar, WellFormed, encode}
use montygo.Mountfs.Utf8.Check.{utf8_check_iff}
use montygo.Mountfs.Utf8.Errors.{IsIncomplete, utf8_check_error}
use montygo.Mountfs.Utf8.Lossy.{lossy_utf8-WellFormed}

-- "h", a byte that begins no encoding, "i"; and an e with an acute accent.
abbrev broken : Bytes
broken = b'h' ∷ 0xFF ∷ b'i' ∷ []

abbrev accented : Bytes
accented = 0xC3 ∷ 0xA9 ∷ []

broken-refused : (utf8_check broken).ok ≡ false
unfolding utf8_check check_from round
broken-refused = refl

broken-lossy : lossy_utf8 broken ≡ some (b'h' ∷ 0xEF ∷ 0xBF ∷ 0xBD ∷ b'i' ∷ [])
unfolding lossy_utf8 lossy_from utf8_check check_from round
broken-lossy = refl

accented-accepted : (utf8_check accented).ok ≡ true
unfolding utf8_check check_from round two cont
accented-accepted = refl

utf8_check_iff_example : ((utf8_check accented).ok ≡ true) ↔ WellFormed accented
utf8_check_iff_example = utf8_check_iff accented (omega arith)

utf8_check_error_example :
    WellFormed (take (utf8_check broken).valid_up_to broken)
    × ((utf8_check broken).valid_up_to < 3)
    × ((utf8_check broken).valid_up_to + (utf8_check broken).error_len ≤ 3)
    × ((c : ℕ) (rest : Bytes)
        → IsScalar c
        → drop (utf8_check broken).valid_up_to broken ≢ encode c ++ rest)
    × (((utf8_check broken).error_len ≡ 0)
        ↔ IsIncomplete (drop (utf8_check broken).valid_up_to broken))
utf8_check_error_example = utf8_check_error broken (omega arith) broken-refused

lossy_utf8-WellFormed_example :
    (result : Bytes) × (lossy_utf8 broken ≡ some result)
    × WellFormed result
    × (WellFormed broken → result ≡ broken)
lossy_utf8-WellFormed_example = lossy_utf8-WellFormed broken (omega arith)
