-- ===== src/Mountfs/Utf8/Encoding.antt =====
-- UTF-8 as the Unicode standard defines it: the encoding of a scalar value, and how one round of
-- the loop of utf8.go reads it.
use montygo.Prelude.{
  ==_iff, All, Bool, Bool-cases, Bytes, List, [], arith, false, if◌then◌else◌, inl, inr, leb,
  length, ltb, not, refl, subst, suc, sym, true, zero, ℕ, ◌%◌, ◌&&◌, ◌++◌, ◌+◌, ◌/◌, ◌<◌, ◌==◌, ◌∷◌,
  ◌≡◌, ◌≤◌, ◌⊎◌,
}
use montygo.Mountfs.Utf8.{
  advance, cont, four, fourth_of_four, round, third_of_four, third_of_three, three, two,
  valid_second_of_four, valid_second_of_three,
}

-- The encoding of a code point, in one to four bytes.
abbrev pub encode : ℕ → Bytes
encode c =
    if ltb c 0x80
    then c ∷ []
    else if ltb c 0x800
    then (0xC0 + c / 64) ∷ (0x80 + c % 64) ∷ []
    else if ltb c 0x10000
    then (0xE0 + c / 4096) ∷ (0x80 + c / 64 % 64) ∷ (0x80 + c % 64) ∷ []
    else (0xF0 + c / 262144) ∷ (0x80 + c / 4096 % 64) ∷ (0x80 + c / 64 % 64) ∷ (0x80 + c % 64) ∷ []

abbrev pub encode_all : List ℕ → Bytes
encode_all [] = []
encode_all (c ∷ cs) = encode c ++ encode_all cs

-- Unicode scalar values: the code points but the surrogates.
abbrev pub IsScalar : ℕ → Type 0
IsScalar c = (c < 0x110000) × ((c < 0xD800) ⊎ (0xE000 ≤ c))

abbrev pub WellFormed : Bytes → Type 0
WellFormed b = (cs : List ℕ) × All IsScalar cs × (b ≡ encode_all cs)

same : Bool → Bool → Bool
same true b = b
same false b = not b

same-eq : (a b : Bool) → same a b ≡ true → a ≡ b
unfolding same
same-eq a b h = ground arith

agree_to : (f g : ℕ → Bool) → ℕ → Bool
agree_to f g zero = true
agree_to f g (suc b) = same (f b) (g b) && agree_to f g b

agree_to-eq : (f g : ℕ → Bool) (n : ℕ) → agree_to f g n ≡ true → {b : ℕ} → b < n → f b ≡ g b
unfolding agree_to
agree_to-eq f g zero h below = absurd (omega arith)
agree_to-eq f g (suc n) h {b = b} below = elim (Bool-cases (b == n)) [
  | inl e ↦
      same-eq _ _ (subst (λ m. same (f m) (g m) ≡ true) (sym ((==_iff b n).0 e)) (ground arith))
  | inr e ↦ agree_to-eq f g n (ground arith) (ground arith)
]

cont_table : agree_to cont (λ b. leb 0x80 b && ltb b 0xC0) 256 ≡ true
unfolding agree_to cont same
cont_table = refl

-- The mask test is a range test on bytes.
pub cont_range : (b : ℕ) → b < 256 → cont b ≡ (leb 0x80 b && ltb b 0xC0)
cont_range b h = agree_to-eq cont _ 256 cont_table h

-- A round at an encoded scalar value passes exactly its bytes.
round-encode_two :
    (c : ℕ) (rest : Bytes)
    → 0x80 ≤ c
    → c < 0x800
    → round (0xC0 + c / 64) ((0x80 + c % 64) ∷ rest) ≡ advance 2
unfolding round two
round-encode_two c rest lo hi = ground (arith, cont_range (0x80 + c % 64) (omega arith))

round-encode_three :
    (c : ℕ) (rest : Bytes)
    → 0x800 ≤ c
    → c < 0x10000
    → IsScalar c
    → round (0xE0 + c / 4096) ((0x80 + c / 64 % 64) ∷ (0x80 + c % 64) ∷ rest) ≡ advance 3
unfolding round three valid_second_of_three third_of_three
round-encode_three c rest lo hi v =
    ground (
      arith,
      cont_range (0x80 + c / 64 % 64) (omega arith),
      cont_range (0x80 + c % 64) (omega arith),
    )

round-encode_four :
    (c : ℕ) (rest : Bytes)
    → 0x10000 ≤ c
    → c < 0x110000
    → round
        (0xF0 + c / 262144)
        ((0x80 + c / 4096 % 64) ∷ (0x80 + c / 64 % 64) ∷ (0x80 + c % 64) ∷ rest)
      ≡ advance 4
unfolding round four valid_second_of_four third_of_four fourth_of_four
round-encode_four c rest lo hi = ground (
  arith,
  cont_range (0x80 + c / 4096 % 64) (omega arith),
  cont_range (0x80 + c / 64 % 64) (omega arith),
  cont_range (0x80 + c % 64) (omega arith),
)

widths :
    (c : ℕ)
    → IsScalar c
    → (c < 0x80)
      ⊎ ((0x80 ≤ c) × (c < 0x800))
      ⊎ ((0x800 ≤ c) × (c < 0x10000))
      ⊎ ((0x10000 ≤ c) × (c < 0x110000))
widths c v = grind arith

-- A round at an encoded scalar value passes exactly its bytes.
pub round-encode :
    (c : ℕ) (rest : Bytes)
    → IsScalar c
    → (first : ℕ) × (t : Bytes) × (encode c ≡ first ∷ t)
      × (round first (t ++ rest) ≡ advance (suc (length t)))
round-encode c rest v = elim (widths c v) [
  | inl h ↦ (c, [], ground arith, unfold round in ground arith)
  | inr (inl (lo, hi)) ↦
      (0xC0 + c / 64, (0x80 + c % 64) ∷ [], ground arith, round-encode_two c rest lo hi)
  | inr (inr (inl (lo, hi))) ↦ (
    0xE0 + c / 4096,
    (0x80 + c / 64 % 64) ∷ (0x80 + c % 64) ∷ [],
    ground arith,
    round-encode_three c rest lo hi v,
  )
  | inr (inr (inr (lo, hi))) ↦ (
    0xF0 + c / 262144,
    (0x80 + c / 4096 % 64) ∷ (0x80 + c / 64 % 64) ∷ (0x80 + c % 64) ∷ [],
    ground arith,
    round-encode_four c rest lo hi,
  )
]
