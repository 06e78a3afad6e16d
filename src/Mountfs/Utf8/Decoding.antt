-- ===== src/Mountfs/Utf8/Decoding.antt =====
-- What a round of the loop of utf8.go passes, read back as a scalar value.
use montygo.Prelude.{
  Bytes, IsBytes, [], arith, inl, inr, length, refl, suc, sym, true, ℕ, ◌*◌, ◌++◌, ◌+◌, ◌-◌, ◌<◌,
  ◌∙◌, ◌∷◌, ◌≡◌, ◌≤◌, ◌⊎◌,
}
use montygo.Mountfs.Utf8.{
  advance, bad, four, fourth_of_four, round, third_of_four, third_of_three, three, two,
  valid_second_of_four, valid_second_of_three,
}
use montygo.Mountfs.Utf8.Encoding.{IsScalar, cont_range, encode}

-- What a round passes is the encoding of a scalar value.
abbrev pub Passed : ℕ → Bytes → ℕ → Type 0
Passed first t width =
    (c : ℕ) × (more : Bytes) × (rest : Bytes) × IsScalar c
    × (encode c ≡ first ∷ more)
    × (t ≡ more ++ rest)
    × (width ≡ suc (length more))

Passed-one :
    (first : ℕ) (t : Bytes) (w : ℕ) → first < 0x80 → round first t ≡ advance w → Passed first t w
Passed-one first t w lo h = (
  first,
  [],
  t,
  (omega arith, inl (omega arith)),
  ground arith,
  refl,
  unfold round in ground arith,
)

two_ranges :
    (s : ℕ) (t : Bytes) (w : ℕ)
    → s < 256
    → two (s ∷ t) ≡ advance w
    → (0x80 ≤ s) × (s < 0xC0) × (w ≡ 2)
unfolding two
two_ranges s t w v h = ground (arith, cont_range s v)

-- The dispatch on the width, once for all rounds.
pub round_width :
    (first : ℕ) (t : Bytes)
    → ((first < 0x80) × (round first t ≡ advance 1))
      ⊎ ((0xC2 ≤ first) × (first < 0xE0) × (round first t ≡ two t))
      ⊎ ((0xE0 ≤ first) × (first < 0xF0) × (round first t ≡ three first t))
      ⊎ ((0xF0 ≤ first) × (first < 0xF5) × (round first t ≡ four first t))
      ⊎ (round first t ≡ bad 1)
round_width first t = unfold round in ground arith

pub valid_three :
    (first s : ℕ)
    → 0xE0 ≤ first
    → first < 0xF0
    → s < 256
    → valid_second_of_three first s ≡ true
    → (0x80 ≤ s) × (s < 0xC0) × ((first ≡ 0xE0) → 0xA0 ≤ s) × ((first ≡ 0xED) → s < 0xA0)
unfolding valid_second_of_three
valid_three first s lo hi v h = ground (arith, cont_range s v)

three_ranges :
    (first s b : ℕ) (t : Bytes) (w : ℕ)
    → b < 256
    → three first (s ∷ b ∷ t) ≡ advance w
    → (valid_second_of_three first s ≡ true) × (0x80 ≤ b) × (b < 0xC0) × (w ≡ 3)
three_ranges first s b t w u h = unfold three third_of_three in ground (arith, cont_range b u)

pub valid_four :
    (first s : ℕ)
    → 0xF0 ≤ first
    → first < 0xF5
    → s < 256
    → valid_second_of_four first s ≡ true
    → (0x80 ≤ s) × (s < 0xC0) × ((first ≡ 0xF0) → 0x90 ≤ s) × ((first ≡ 0xF4) → s < 0x90)
unfolding valid_second_of_four
valid_four first s lo hi v h = ground (arith, cont_range s v)

four_ranges :
    (first s b d : ℕ) (t : Bytes) (w : ℕ)
    → b < 256
    → d < 256
    → four first (s ∷ b ∷ d ∷ t) ≡ advance w
    → (valid_second_of_four first s ≡ true)
      × (0x80 ≤ b)
      × (b < 0xC0)
      × (0x80 ≤ d)
      × (d < 0xC0)
      × (w ≡ 4)
four_ranges first s b d t w u v h =
    unfold four third_of_four fourth_of_four in ground (arith, cont_range b u, cont_range d v)

pub encode_two :
    (first s : ℕ)
    → 0xC2 ≤ first
    → first < 0xE0
    → 0x80 ≤ s
    → s < 0xC0
    → IsScalar ((first - 0xC0) * 64 + (s - 0x80))
      × (encode ((first - 0xC0) * 64 + (s - 0x80)) ≡ first ∷ s ∷ [])
encode_two first s a b c d = ((omega arith, inl (omega arith)), ground arith)

pub encode_three :
    (first s b : ℕ)
    → 0xE0 ≤ first
    → first < 0xF0
    → 0x80 ≤ s
    → s < 0xC0
    → 0x80 ≤ b
    → b < 0xC0
    → ((first ≡ 0xE0) → 0xA0 ≤ s)
    → ((first ≡ 0xED) → s < 0xA0)
    → IsScalar ((first - 0xE0) * 4096 + (s - 0x80) * 64 + (b - 0x80))
      × (encode ((first - 0xE0) * 4096 + (s - 0x80) * 64 + (b - 0x80)) ≡ first ∷ s ∷ b ∷ [])
encode_three first s b f g c d i j k l = ((omega arith, grind arith), ground arith)

pub encode_four :
    (first s b d : ℕ)
    → 0xF0 ≤ first
    → first < 0xF5
    → 0x80 ≤ s
    → s < 0xC0
    → 0x80 ≤ b
    → b < 0xC0
    → 0x80 ≤ d
    → d < 0xC0
    → ((first ≡ 0xF0) → 0x90 ≤ s)
    → ((first ≡ 0xF4) → s < 0x90)
    → let c = (first - 0xF0) * 262144 + (s - 0x80) * 4096 + (b - 0x80) * 64 + (d - 0x80) in
      IsScalar c × (encode c ≡ first ∷ s ∷ b ∷ d ∷ [])
encode_four first s b d f g c e i j k l m n = ((grind arith, grind arith), ground arith)

pass_two :
    (first : ℕ) (t : Bytes) (w : ℕ)
    → 0xC2 ≤ first
    → first < 0xE0
    → IsBytes t
    → two t ≡ advance w
    → Passed first t w
pass_two first [] w lo hi v h = unfold two in cc
pass_two first (s ∷ t) w lo hi v h =
    let (a, b, k) = two_ranges s t w v.0 h in
    let (scalar, e) = encode_two first s lo hi a b in (_, s ∷ [], t, scalar, e, refl, k)

pass_three :
    (first : ℕ) (t : Bytes) (w : ℕ)
    → 0xE0 ≤ first
    → first < 0xF0
    → IsBytes t
    → three first t ≡ advance w
    → Passed first t w
pass_three first [] w lo hi v h = unfold three in cc
pass_three first (s ∷ []) w lo hi v h = unfold three third_of_three in ground arith
pass_three first (s ∷ b ∷ t) w lo hi v h =
    let (ok, c, d, k) = three_ranges first s b t w v.1.0 h in
    let (f, g, i, j) = valid_three first s lo hi v.0 ok in
    let (scalar, e) = encode_three first s b lo hi f g c d i j in
    (_, s ∷ b ∷ [], t, scalar, e, refl, k)

pass_four :
    (first : ℕ) (t : Bytes) (w : ℕ)
    → 0xF0 ≤ first
    → first < 0xF5
    → IsBytes t
    → four first t ≡ advance w
    → Passed first t w
pass_four first [] w lo hi v h = unfold four in cc
pass_four first (s ∷ []) w lo hi v h = unfold four third_of_four in ground arith
pass_four first (s ∷ b ∷ []) w lo hi v h = unfold four third_of_four fourth_of_four in ground arith
pass_four first (s ∷ b ∷ d ∷ t) w lo hi v h =
    let (ok, c, c', l, l', k) = four_ranges first s b d t w v.1.0 v.1.1.0 h in
    let (f, g, i, j) = valid_four first s lo hi v.0 ok in
    let (scalar, e) = encode_four first s b d lo hi f g c c' l l' i j in
    (_, s ∷ b ∷ d ∷ [], t, scalar, e, refl, k)

pub round-Passed :
    (first : ℕ) (t : Bytes) (w : ℕ)
    → IsBytes (first ∷ t)
    → round first t ≡ advance w
    → Passed first t w
round-Passed first t w v h = elim (round_width first t) [
  | inl (lo, e) ↦ Passed-one first t w lo h
  | inr (inl (lo, hi, e)) ↦ pass_two first t w lo hi v.1 (sym e ∙ h)
  | inr (inr (inl (lo, hi, e))) ↦ pass_three first t w lo hi v.1 (sym e ∙ h)
  | inr (inr (inr (inl (lo, hi, e)))) ↦ pass_four first t w lo hi v.1 (sym e ∙ h)
  | inr (inr (inr (inr e))) ↦ cc
]
