-- ===== src/Mountfs/Utf8/Errors.antt =====
-- What utf8Check reports of text that it refuses.
use montygo.Prelude.{
  All, Bool-cases, Bytes, IsBytes, List, [], ap, append-nil, arith, drop, drop-length, false, inl,
  inr, length, length-append, refl, subst, subst₂, suc, sym, take, take-length, true, zero, ℕ, ◌++◌,
  ◌+◌, ◌<◌, ◌==◌, ◌↔◌, ◌∙◌, ◌∷◌, ◌≡◌, ◌≢◌, ◌≤◌,
}
use montygo.Mountfs.Utf8.{
  Checked, bad, cont, four, fourth_of_four, round, third_of_four, third_of_three, three, two,
  utf8_check, valid_second_of_four, valid_second_of_three,
}
use montygo.Mountfs.Utf8.Encoding.{
  IsScalar, WellFormed, cont_range, encode, encode_all, round-encode,
}
use montygo.Mountfs.Utf8.Check.{utf8_check-Split}
use montygo.Mountfs.Utf8.Decoding.{
  encode_four, encode_three, encode_two, round_width, valid_four, valid_three,
}

round_mono :
    (first : ℕ) (t more : Bytes) (e : ℕ)
    → round first t ≡ bad (suc e)
    → round first (t ++ more) ≡ bad (suc e)
round_mono first [] more e h = unfold round two three four in ground arith
round_mono first (a ∷ []) more e h =
    unfold round two three third_of_three four third_of_four in ground arith
round_mono first (a ∷ b ∷ []) more e h =
    unfold round two three third_of_three four third_of_four fourth_of_four in ground arith
round_mono first (a ∷ b ∷ c ∷ t) more e h =
    unfold round two three third_of_three four third_of_four fourth_of_four in ground arith

round-bad_no_encoding :
    (x : ℕ) (t : Bytes) (e c : ℕ) (rest : Bytes)
    → round x t ≡ bad e
    → IsScalar c
    → x ∷ t ≢ encode c ++ rest
round-bad_no_encoding x t e c rest h v eq =
    let (first, more, enc, step) = round-encode c rest v in
    let same : ◌≡◌ {A = Bytes} (x ∷ t) (first ∷ (more ++ rest)) = eq ∙ ap (λ l. l ++ rest) enc in cc

round-bad_len : (x : ℕ) (t : Bytes) (e : ℕ) → round x t ≡ bad e → e ≤ suc (length t)
round-bad_len x [] e h = unfold round two three four in ground arith
round-bad_len x (a ∷ []) e h =
    unfold round two three third_of_three four third_of_four in ground arith
round-bad_len x (a ∷ b ∷ []) e h =
    unfold round two three third_of_three four third_of_four fourth_of_four in ground arith
round-bad_len x (a ∷ b ∷ c ∷ t) e h =
    unfold round two three third_of_three four third_of_four fourth_of_four in ground arith

-- `t` is the beginning of an encoding that more bytes would complete.
abbrev pub IsIncomplete : Bytes → Type 0
IsIncomplete t = (c : ℕ) × (more : Bytes) × IsScalar c × (encode c ≡ t ++ more)

bad_zero_two : (x : ℕ) (t : Bytes) → 0xC2 ≤ x → x < 0xE0 → two t ≡ bad 0 → IsIncomplete (x ∷ t)
bad_zero_two x [] lo hi h =
    let (v, e) = encode_two x 0x80 lo hi (omega arith) (omega arith) in (_, 0x80 ∷ [], v, e)
bad_zero_two x (s ∷ t) lo hi h = unfold two in ground arith

bad_zero_three :
    (x : ℕ) (t : Bytes) → 0xE0 ≤ x → x < 0xF0 → IsBytes t → three x t ≡ bad 0 → IsIncomplete (x ∷ t)
bad_zero_three x [] lo hi v h = elim (Bool-cases (x == 0xE0)) [
  | inl e ↦
      let (k, p) =
        encode_three x 0xA0 0x80 lo hi (omega arith) (omega arith) (omega arith) (omega arith)
          (ground arith) (ground arith) in
      (_, 0xA0 ∷ 0x80 ∷ [], k, p)
  | inr e ↦
      let (k, p) =
        encode_three x 0x80 0x80 lo hi (omega arith) (omega arith) (omega arith) (omega arith)
          (ground arith) (ground arith) in
      (_, 0x80 ∷ 0x80 ∷ [], k, p)
]
bad_zero_three x (s ∷ []) lo hi v h =
    let ok : valid_second_of_three x s ≡ true = unfold three third_of_three in ground arith in
    let (f, g, i, j) = valid_three x s lo hi v.0 ok in
    let (k, p) = encode_three x s 0x80 lo hi f g (omega arith) (omega arith) i j in
    (_, 0x80 ∷ [], k, p)
bad_zero_three x (s ∷ b ∷ t) lo hi v h = unfold three third_of_three in ground arith

bad_zero_four :
    (x : ℕ) (t : Bytes) → 0xF0 ≤ x → x < 0xF5 → IsBytes t → four x t ≡ bad 0 → IsIncomplete (x ∷ t)
bad_zero_four x [] lo hi v h = elim (Bool-cases (x == 0xF0)) [
  | inl e ↦
      let (k, p) =
        encode_four x 0x90 0x80 0x80 lo hi (omega arith) (omega arith) (omega arith) (omega arith)
          (omega arith) (omega arith) (ground arith) (ground arith) in
      (_, 0x90 ∷ 0x80 ∷ 0x80 ∷ [], k, p)
  | inr e ↦
      let (k, p) =
        encode_four x 0x80 0x80 0x80 lo hi (omega arith) (omega arith) (omega arith) (omega arith)
          (omega arith) (omega arith) (ground arith) (ground arith) in
      (_, 0x80 ∷ 0x80 ∷ 0x80 ∷ [], k, p)
]
bad_zero_four x (s ∷ []) lo hi v h =
    let ok : valid_second_of_four x s ≡ true = unfold four third_of_four in ground arith in
    let (f, g, i, j) = valid_four x s lo hi v.0 ok in
    let (k, p) =
      encode_four x s 0x80 0x80 lo hi f g (omega arith) (omega arith) (omega arith) (omega arith) i
        j in
    (_, 0x80 ∷ 0x80 ∷ [], k, p)
bad_zero_four x (s ∷ b ∷ []) lo hi v h =
    let ok : valid_second_of_four x s ≡ true =
      unfold four third_of_four fourth_of_four in ground arith in
    let mid : cont b ≡ true = unfold four third_of_four fourth_of_four in ground arith in
    let (f, g, i, j) = valid_four x s lo hi v.0 ok in
    let (k, p) =
      encode_four x s b 0x80 lo hi f g (ground (arith, cont_range b v.1.0))
        (ground (arith, cont_range b v.1.0)) (omega arith) (omega arith) i j in
    (_, 0x80 ∷ [], k, p)
bad_zero_four x (s ∷ b ∷ d ∷ t) lo hi v h = unfold four third_of_four fourth_of_four in ground arith

round-bad_zero : (x : ℕ) (t : Bytes) → IsBytes t → round x t ≡ bad 0 → IsIncomplete (x ∷ t)
round-bad_zero x t v h = elim (round_width x t) [
  | inl (lo, e) ↦ cc
  | inr (inl (lo, hi, e)) ↦ bad_zero_two x t lo hi (sym e ∙ h)
  | inr (inr (inl (lo, hi, e))) ↦ bad_zero_three x t lo hi v (sym e ∙ h)
  | inr (inr (inr (inl (lo, hi, e)))) ↦ bad_zero_four x t lo hi v (sym e ∙ h)
  | inr (inr (inr (inr e))) ↦ ground arith
]

round-bad_suc : (x : ℕ) (t : Bytes) (e : ℕ) → round x t ≡ bad (suc e) → ¬ IsIncomplete (x ∷ t)
round-bad_suc x t e h (c, more, v, enc) =
    round-bad_no_encoding x (t ++ more) (suc e) c [] (round_mono x t more e h) v
      (sym enc ∙ sym (append-nil (encode c)))

IsBytes-append : (xs ys : Bytes) → IsBytes (xs ++ ys) → IsBytes ys
IsBytes-append [] ys v = v
IsBytes-append (x ∷ xs) ys v = IsBytes-append xs ys v.1

-- What a refusal reports, as a statement about the text and the result.
abbrev Explains : Bytes → Checked → Type 0
Explains b r =
    WellFormed (take r.valid_up_to b)
    × (r.valid_up_to < length b)
    × (r.valid_up_to + r.error_len ≤ length b)
    × ((c : ℕ) (rest : Bytes) → IsScalar c → drop r.valid_up_to b ≢ encode c ++ rest)
    × ((r.error_len ≡ 0) ↔ IsIncomplete (drop r.valid_up_to b))

refused_at :
    (n e : ℕ)
    → ◌≡◌ {A = Checked}
        (record { valid_up_to = 0 + n; error_len = e; ok = false })
        (record { valid_up_to = n; error_len = e; ok = false })
refused_at n e = ground arith

explain :
    (cs : List ℕ) (x : ℕ) (t : Bytes) (e : ℕ)
    → All IsScalar cs
    → IsBytes t
    → round x t ≡ bad e
    → Explains
        (encode_all cs ++ x ∷ t)
        (record { valid_up_to = length (encode_all cs); error_len = e; ok = false })
explain cs x t e scalars v h =
    rw (drop-length (encode_all cs) (x ∷ t), take-length (encode_all cs) (x ∷ t))
      (
        (cs, scalars, refl),
        omega (arith, length-append (encode_all cs) (x ∷ t)),
        omega (arith, length-append (encode_all cs) (x ∷ t), round-bad_len x t e h),
        (λ c rest k. round-bad_no_encoding x t e c rest h k),
        ((λ z. round-bad_zero x t v (h ∙ ap bad z)), no_more e h),
      )
  where
    no_more : (k : ℕ) → round x t ≡ bad k → IsIncomplete (x ∷ t) → k ≡ 0
    no_more zero _ _ = refl
    no_more (suc k) g i = absurd (round-bad_suc x t k g i)

-- Where utf8Check refuses, the bytes before the reported position are well-formed and no scalar
-- value starts there; the reported length stays inside the input, and it is 0 exactly when the
-- input ends in the middle of a sequence.
pub utf8_check_error :
    (b : Bytes)
    → IsBytes b
    → (utf8_check b).ok ≡ false
    → let r = utf8_check b in
      WellFormed (take r.valid_up_to b)
      × (r.valid_up_to < length b)
      × (r.valid_up_to + r.error_len ≤ length b)
      × ((c : ℕ) (rest : Bytes) → IsScalar c → drop r.valid_up_to b ≢ encode c ++ rest)
      × ((r.error_len ≡ 0) ↔ IsIncomplete (drop r.valid_up_to b))
utf8_check_error b v h =
    let (cs, rest, scalars, e, ends) = utf8_check-Split b v in
    elim ends [
      | inl (f, r) ↦ cc
      | inr (x, t, k, f, g, r) ↦
          let whole : b ≡ encode_all cs ++ x ∷ t = e ∙ ap (◌++◌ (encode_all cs)) f in
          let bytes : IsBytes (x ∷ t) =
            IsBytes-append (encode_all cs) (x ∷ t) (subst IsBytes whole v) in
          subst₂ Explains (sym whole) (sym (r ∙ refused_at (length (encode_all cs)) k))
            (explain cs x t k scalars bytes.1 g)
    ]
