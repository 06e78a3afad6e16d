-- ===== src/Mountfs/Utf8/Lossy.antt =====
-- lossyUTF8: what comes out is well-formed text.
use montygo.Prelude.{
  All-append, Bool-cases, Bytes, IsBytes, List, [], ap, append_assoc, arith, drop, inl, inr, length,
  length-drop, refl, some, suc, take, zero, ℕ, ◌++◌, ◌+◌, ◌<◌, ◌∙◌, ◌∷◌, ◌≡◌, ◌⊎◌,
}
use montygo.Mountfs.Utf8.{Checked, lossy_from, lossy_utf8, replacement_char, utf8_check}
use montygo.Mountfs.Utf8.Encoding.{IsScalar, WellFormed, encode_all}
use montygo.Mountfs.Utf8.Check.{utf8_check_iff, utf8_check-length}
use montygo.Mountfs.Utf8.Errors.{utf8_check_error}

encode_all-append : (cs ds : List ℕ) → encode_all (cs ++ ds) ≡ encode_all cs ++ encode_all ds
encode_all-append [] ds = refl
encode_all-append (c ∷ cs) ds = rw (encode_all-append cs ds, append_assoc)

WellFormed-append : (a b : Bytes) → WellFormed a → WellFormed b → WellFormed (a ++ b)
WellFormed-append a b (cs, v, e) (ds, w, f) =
    (cs ++ ds, All-append IsScalar cs ds v w, rw (encode_all-append cs ds, e, f))

WellFormed-replacement_char : WellFormed replacement_char
WellFormed-replacement_char = (0xFFFD ∷ [], omega arith, refl)

IsBytes-drop : (n : ℕ) (b : Bytes) → IsBytes b → IsBytes (drop n b)
IsBytes-drop zero b v = v
IsBytes-drop (suc n) [] v = v
IsBytes-drop (suc n) (x ∷ b) v = IsBytes-drop n b v.1

take_all : (b : Bytes) (n : ℕ) → n ≡ length b → take n b ≡ b
take_all [] zero h = refl
take_all [] (suc n) h = refl
take_all (x ∷ b) zero h = absurd (omega arith)
take_all (x ∷ b) (suc n) h = ap (◌∷◌ x) (take_all b n (omega arith))

-- What utf8Check passes is well-formed, whether it accepts or refuses.
passed-WellFormed : (b : Bytes) → IsBytes b → WellFormed (take (utf8_check b).valid_up_to b)
passed-WellFormed b v = elim (Bool-cases (utf8_check b).ok) [
  | inl good ↦
      rw (take_all b (utf8_check b).valid_up_to (utf8_check-length b v good))
        ((utf8_check_iff b v).0 good)
  | inr wrong ↦ (utf8_check_error b v wrong).0
]

copied-WellFormed :
    (b out : Bytes)
    → IsBytes b
    → WellFormed out
    → WellFormed (out ++ take (utf8_check b).valid_up_to b)
copied-WellFormed b out v w = WellFormed-append out _ w (passed-WellFormed b v)

-- One round of the loop: it ends with the text so far, or goes on with fewer bytes.
lossy_from_step :
    (fuel x : ℕ) (t out : Bytes)
    → let r = utf8_check (x ∷ t) in
      let copied = out ++ take r.valid_up_to (x ∷ t) in
      (lossy_from (suc fuel) (x ∷ t) out ≡ some copied)
      ⊎ (lossy_from (suc fuel) (x ∷ t) out ≡ some (copied ++ replacement_char))
      ⊎ ((0 < r.error_len)
          × (lossy_from (suc fuel) (x ∷ t) out
              ≡ lossy_from fuel
                  (drop (r.valid_up_to + r.error_len) (x ∷ t))
                  (copied ++ replacement_char)))
unfolding lossy_from
lossy_from_step fuel x t out = ground arith

lossy_from-WellFormed :
    (fuel : ℕ) (b out : Bytes)
    → length b < fuel
    → IsBytes b
    → WellFormed out
    → (result : Bytes) × (lossy_from fuel b out ≡ some result) × WellFormed result
lossy_from-WellFormed zero b out enough v w = absurd (omega arith)
lossy_from-WellFormed (suc fuel) [] out enough v w = (out, unfold lossy_from in refl, w)
lossy_from-WellFormed (suc fuel) (x ∷ t) out enough v w =
    let r : Checked = utf8_check (x ∷ t) in
    let copied : WellFormed (out ++ take r.valid_up_to (x ∷ t)) =
      copied-WellFormed (x ∷ t) out v w in
    let more = WellFormed-append _ replacement_char copied WellFormed-replacement_char in
    elim (lossy_from_step fuel x t out) [
      | inl e ↦ (_, e, copied)
      | inr (inl e) ↦ (_, e, more)
      | inr (inr (some_bytes, e)) ↦
          let k : ℕ = r.valid_up_to + r.error_len in
          let (result, made, good) =
            lossy_from-WellFormed fuel (drop k (x ∷ t)) _ (omega (arith, length-drop k (x ∷ t)))
              (IsBytes-drop k (x ∷ t) v) more in
          (result, e ∙ made, good)
    ]

-- lossyUTF8 always returns, its result is well-formed UTF-8 whatever bytes it is given, and
-- well-formed text is returned unchanged.
pub lossy_utf8-WellFormed :
    (s : Bytes)
    → IsBytes s
    → (result : Bytes) × (lossy_utf8 s ≡ some result)
      × WellFormed result
      × (WellFormed s → result ≡ s)
lossy_utf8-WellFormed s v = elim (Bool-cases (utf8_check s).ok) [
  | inl good ↦ (s, unfold lossy_utf8 in rw good refl, (utf8_check_iff s v).0 good, λ _. refl)
  | inr wrong ↦
      let (result, made, good) =
        lossy_from-WellFormed (length s + 1) s [] (omega arith) v ([], tt, refl) in
      (
        result,
        (unfold lossy_utf8 in rw wrong made),
        good,
        λ w. let refuted = (utf8_check_iff s v).1 w in cc,
      )
]
