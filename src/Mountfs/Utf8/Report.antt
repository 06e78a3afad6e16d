-- ===== src/Mountfs/Utf8/Report.antt =====
-- bytesToUTF8: the text, or an exact report of what is wrong with it.
use montygo.Prelude.{
  Bool-cases, Bytes, IsBytes, List, [], arith, codes, drop, get_elem?, if◌then◌else◌, inl, inr, leb,
  length, ltb, none, refl, some, suc, take, zero, ℕ, ◌+◌, ◌<◌, ◌↔◌, ◌∷◌, ◌≡◌, ◌≤◌, ◌⊎◌,
}
use montygo.Mountfs.Utf8.{
  Checked, Utf8Failure, bytes_to_utf8, invalid, max_unicode_object_len, text, utf8_check,
  utf8_error_reason,
}
use montygo.Mountfs.Utf8.Encoding.{WellFormed}
use montygo.Mountfs.Utf8.Errors.{IsIncomplete, utf8_check_error}
use montygo.Mountfs.Utf8.Check.{utf8_check_iff}

get_elem?_lt {ℓ} :
    {A : Type ℓ} (xs : List A) (i : ℕ) → i < length xs → (x : A) × (get_elem? xs i ≡ some x)
get_elem?_lt [] i h = absurd (omega arith)
get_elem?_lt (x ∷ xs) zero h = (x, refl)
get_elem?_lt (x ∷ xs) (suc i) h = get_elem?_lt xs i (omega arith)

reason_iff : (first e : ℕ) → (utf8_error_reason first e ≡ codes "unexpected end of data") ↔ (e ≡ 0)
unfolding utf8_error_reason
reason_iff first e = ground arith

-- The report of a refusal names a range inside the input and the byte at its start.
abbrev pub IsReport : Bytes → Utf8Failure → Type 0
IsReport b f =
    WellFormed (take f.start b)
    × (f.start < f.end)
    × (f.end ≤ length b)
    × (get_elem? b f.start ≡ some f.first_byte)
    × ((f.reason ≡ codes "unexpected end of data") ↔ IsIncomplete (drop f.start b))
    × (f.object ≡ (if leb (length b) max_unicode_object_len then some b else none))

-- bytesToUTF8 never indexes out of range: it returns well-formed text unchanged, and for any other
-- input a report.
pub bytes_to_utf8-IsReport :
    (b : Bytes)
    → IsBytes b
    → (WellFormed b × (bytes_to_utf8 b ≡ some (text b)))
      ⊎ ((f : Utf8Failure) × (bytes_to_utf8 b ≡ some (invalid f)) × IsReport b f)
bytes_to_utf8-IsReport b v = elim (Bool-cases (utf8_check b).ok) [
  | inl good ↦ inl ((utf8_check_iff b v).0 good, (unfold bytes_to_utf8 in rw good refl))
  | inr wrong ↦
      let r : Checked = utf8_check b in
      let (before, starts, ends, _, incomplete) = utf8_check_error b v wrong in
      let (first, here) = get_elem?_lt b r.valid_up_to starts in
      let (to, from) = reason_iff first r.error_len in
      inr (
        record {
          start = r.valid_up_to;
          end = if ltb 0 r.error_len then r.valid_up_to + r.error_len else length b;
          first_byte = first;
          reason = utf8_error_reason first r.error_len;
          object = if leb (length b) max_unicode_object_len then some b else none;
        },
        (unfold bytes_to_utf8 in rw wrong (rw here refl)),
        (
          before,
          ground arith,
          ground arith,
          here,
          ((λ h. incomplete.0 (to h)), (λ h. from (incomplete.1 h))),
          refl,
        ),
      )
]
