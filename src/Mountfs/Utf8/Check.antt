-- ===== src/Mountfs/Utf8/Check.antt =====
-- utf8Check against the standard's definition of well-formed text.
use montygo.Prelude.{
  All, Bytes, IsBytes, List, [], add_assoc, ap, append-nil, append_assoc, arith, drop, drop-length,
  false, inl, inr, length, length-append, refl, subst, suc, true, zero, ℕ, ◌++◌, ◌+◌, ◌-◌, ◌↔◌, ◌∷◌,
  ◌≡◌, ◌⊎◌,
}
use montygo.Mountfs.Utf8.{Checked, Round, advance, bad, check_from, round, utf8_check}
use montygo.Mountfs.Utf8.Encoding.{IsScalar, WellFormed, encode, encode_all, round-encode}
use montygo.Mountfs.Utf8.Decoding.{round-Passed}

-- A well-formed prefix, and behind it either nothing or a byte at which a round fails.
abbrev pub Split : ℕ → Bytes → ℕ → Checked → Type 0
Split n b i r =
    (cs : List ℕ) × (rest : Bytes) × All IsScalar cs
    × (b ≡ encode_all cs ++ rest)
    × (((rest ≡ []) × (r ≡ record { valid_up_to = n; error_len = 0; ok = true }))
        ⊎ ((first : ℕ) × (t : Bytes) × (e : ℕ) × (rest ≡ first ∷ t)
            × (round first t ≡ bad e)
            × (r ≡ record { valid_up_to = i + length (encode_all cs); error_len = e; ok = false })))

Split-encode :
    (n c i : ℕ) (rest : Bytes) (r : Checked)
    → IsScalar c
    → Split n rest (i + length (encode c)) r
    → Split n (encode c ++ rest) i r
Split-encode n c i rest r h (cs, tail, scalars, e, inl (f, g)) =
    (c ∷ cs, tail, (h, scalars), rw (e, append_assoc), inl (f, g))
Split-encode n c i rest r h (cs, tail, scalars, e, inr (x, t, k, f, g, j)) = (
  c ∷ cs,
  tail,
  (h, scalars),
  rw (e, append_assoc),
  inr (x, t, k, f, g, rw (length-append (encode c) (encode_all cs), j, add_assoc)),
)

Split-pass :
    (n x : ℕ) (b : Bytes) (c : ℕ) (more rest : Bytes) (i w : ℕ) (r : Checked)
    → IsScalar c
    → encode c ≡ x ∷ more
    → b ≡ more ++ rest
    → w ≡ suc (length more)
    → Split n (drop (w - 1) b) (i + w) r
    → Split n (x ∷ b) i r
Split-pass n x b c more rest i w r scalar enc split width later =
    subst (λ t. Split n t i r) whole (Split-encode n c i rest r scalar moved)
  where
    whole : encode c ++ rest ≡ x ∷ b
    whole = rw (enc, split) refl

    size : w - 1 ≡ length more
    size = omega (arith, width)

    left : drop (w - 1) b ≡ rest
    left = rw (size, split) (drop-length more rest)

    at : i + w ≡ i + length (encode c)
    at = omega (arith, width, ap length enc)

    moved : Split n rest (i + length (encode c)) r
    moved =
        subst (λ t. Split n t (i + length (encode c)) r) left
          (subst (λ k. Split n (drop (w - 1) b) k r) at later)

Round-cases : (r : Round) → ((w : ℕ) × (r ≡ advance w)) ⊎ ((e : ℕ) × (r ≡ bad e))
Round-cases (advance w) = inl (w, refl)
Round-cases (bad e) = inr (e, refl)

check_from-Split :
    (n : ℕ) (b : Bytes) (i skip : ℕ) → IsBytes b → Split n (drop skip b) i (check_from n b i skip)
unfolding check_from
check_from-Split n [] i zero v = ([], [], tt, refl, inl (refl, refl))
check_from-Split n [] i (suc skip) v = ([], [], tt, refl, inl (refl, refl))
check_from-Split n (x ∷ b) i (suc skip) v = check_from-Split n b i skip v.1
check_from-Split n (x ∷ b) i zero v = elim (Round-cases (round x b)) [
  | inr (e, h) ↦ rw (h, check_from) ([], x ∷ b, tt, refl, inr (x, b, e, refl, h, ground arith))
  | inl (w, h) ↦
      let (c, more, rest, scalar, enc, split, width) = round-Passed x b w v h in
      let later = check_from-Split n b (i + w) (w - 1) v.1 in
      rw (h, check_from) (Split-pass n x b c more rest i w _ scalar enc split width later)
]

check_from-skip :
    (n : ℕ) (t rest : Bytes) (i : ℕ) → check_from n (t ++ rest) i (length t) ≡ check_from n rest i 0
unfolding check_from
check_from-skip n [] rest i = refl
check_from-skip n (x ∷ t) rest i = check_from-skip n t rest i

check_from-advance :
    (n x : ℕ) (b : Bytes) (i w : ℕ)
    → round x b ≡ advance (suc w)
    → check_from n (x ∷ b) i 0 ≡ check_from n b (i + suc w) w
unfolding check_from
check_from-advance n x b i w h = ground arith

check_from-encode_all :
    (n : ℕ) (cs : List ℕ) (i : ℕ)
    → All IsScalar cs
    → check_from n (encode_all cs) i 0 ≡ record { valid_up_to = n; error_len = 0; ok = true }
check_from-encode_all n [] i v = unfold check_from in refl
check_from-encode_all n (c ∷ cs) i v =
    let (x, t, enc, step) = round-encode c (encode_all cs) v.0 in
    rw enc (
      rw (check_from-advance n x (t ++ encode_all cs) i _ step, check_from-skip)
        (check_from-encode_all n cs _ v.1))

pub utf8_check-Split : (b : Bytes) → IsBytes b → Split (length b) b 0 (utf8_check b)
unfolding utf8_check
utf8_check-Split b v = check_from-Split (length b) b 0 0 v

-- utf8Check accepts exactly the well-formed texts.
pub utf8_check_iff : (b : Bytes) → IsBytes b → ((utf8_check b).ok ≡ true) ↔ WellFormed b
utf8_check_iff b v = (accepted, found)
  where
    accepted : (utf8_check b).ok ≡ true → WellFormed b
    accepted h =
        let (cs, rest, scalars, e, ends) = utf8_check-Split b v in
        elim ends [
          | inl (f, r) ↦ (cs, scalars, cc (append-nil (encode_all cs)))
          | inr (x, t, k, f, g, r) ↦ cc
        ]

    found : WellFormed b → (utf8_check b).ok ≡ true
    found (cs, scalars, e) =
        rw e (unfold utf8_check in rw (check_from-encode_all _ cs 0 scalars) refl)

-- An accepted text is reported at its whole length.
pub utf8_check-length :
    (b : Bytes) → IsBytes b → (utf8_check b).ok ≡ true → (utf8_check b).valid_up_to ≡ length b
utf8_check-length b v h =
    let (cs, rest, scalars, e, ends) = utf8_check-Split b v in
    elim ends [ inl (f, r) ↦ ap (λ c. c.valid_up_to) r | inr (x, t, k, f, g, r) ↦ cc ]
