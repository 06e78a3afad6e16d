-- ===== src/Mountfs/OverlayState/Keys.antt =====
-- The keys of an overlay: strictly ascending, one for each entry.
use montygo.Prelude.{
  All, Bool, Bool-cases, Bytes, List, [], arith, bytes_eq, bytes_eq_iff, false, if-either,
  if◌then◌else◌, inl, inr, refl, subst, true, ◌||◌, ◌∷◌, ◌≡◌, ◌⊎◌,
}
use montygo.Mountfs.OverlayState.{bytes_less, insert_key, remove_key, search_strings}

pub less_trans :
    (a b c : Bytes) → bytes_less a b ≡ true → bytes_less b c ≡ true → bytes_less a c ≡ true
unfolding bytes_less
less_trans a [] c h g = ground arith
less_trans a (y ∷ b) [] h g = ground arith
less_trans [] (y ∷ b) (z ∷ c) h g = refl
less_trans (x ∷ a) (y ∷ b) (z ∷ c) h g = ground (arith, less_trans a b c)

pub less-apart :
    (a b : Bytes) → bytes_less a b ≡ true → (bytes_eq a b ≡ false) × (bytes_eq b a ≡ false)
unfolding bytes_less bytes_eq
less-apart a [] h = ground arith
less-apart [] (y ∷ b) h = (refl, refl)
less-apart (x ∷ a) (y ∷ b) h = ground (arith, less-apart a b)

pub less_total :
    (a b : Bytes) → bytes_less a b ≡ false → bytes_eq a b ≡ false → bytes_less b a ≡ true
unfolding bytes_less bytes_eq
less_total [] [] h g = ground arith
less_total [] (y ∷ b) h g = ground arith
less_total (x ∷ a) [] h g = refl
less_total (x ∷ a) (y ∷ b) h g = ground (arith, less_total a b)

pub less_asym : (a b : Bytes) → bytes_less a b ≡ true → bytes_less b a ≡ false
unfolding bytes_less
less_asym a [] h = ground arith
less_asym [] (y ∷ b) h = refl
less_asym (x ∷ a) (y ∷ b) h = ground (arith, less_asym a b)

abbrev pub IsSorted : List Bytes → Type 0
IsSorted [] = Unit {0}
IsSorted (x ∷ keys) = All (λ y. bytes_less x y ≡ true) keys × IsSorted keys

abbrev pub has_key : List Bytes → Bytes → Bool
has_key [] k = false
has_key (x ∷ keys) k = bytes_eq x k || has_key keys k

-- The two changes of the slice, one key at a time.
pub insert_key-cons :
    (x : Bytes) (keys : List Bytes) (k : Bytes)
    → insert_key (x ∷ keys) k ≡ (if bytes_less x k then x ∷ insert_key keys k else k ∷ x ∷ keys)
unfolding insert_key search_strings
insert_key-cons x keys k = elim (Bool-cases (bytes_less x k)) [
  | inl e ↦ rw e refl
  | inr e ↦ rw e refl
]

pub remove_key-cons :
    (x : Bytes) (keys : List Bytes) (k : Bytes)
    → remove_key (x ∷ keys) k ≡ (if bytes_less x k then x ∷ remove_key keys k else keys)
unfolding remove_key search_strings
remove_key-cons x keys k = elim (Bool-cases (bytes_less x k)) [
  | inl e ↦ rw e refl
  | inr e ↦ rw e refl
]

All-insert_key :
    (x : Bytes) (keys : List Bytes) (k : Bytes)
    → bytes_less x k ≡ true
    → All (λ y. bytes_less x y ≡ true) keys
    → All (λ y. bytes_less x y ≡ true) (insert_key keys k)
All-insert_key x [] k h a = unfold insert_key in (h, tt)
All-insert_key x (y ∷ keys) k h a = rw (insert_key-cons y keys k) (
    if-either (All (λ z. bytes_less x z ≡ true)) (bytes_less y k)
      (λ e. (a.0, All-insert_key x keys k h a.1)) (λ e. (h, a)))

All-less :
    (x y : Bytes) (keys : List Bytes)
    → bytes_less x y ≡ true
    → All (λ z. bytes_less y z ≡ true) keys
    → All (λ z. bytes_less x z ≡ true) keys
All-less x y [] h a = tt
All-less x y (z ∷ keys) h a = (less_trans x y z h a.0, All-less x y keys h a.1)

pub insert_key-IsSorted :
    (keys : List Bytes) (k : Bytes)
    → IsSorted keys
    → has_key keys k ≡ false
    → IsSorted (insert_key keys k)
insert_key-IsSorted [] k s h = unfold insert_key in (tt, tt)
insert_key-IsSorted (x ∷ keys) k s h =
    let absent : has_key keys k ≡ false = ground arith in
    let apart : bytes_eq x k ≡ false = ground arith in
    rw (insert_key-cons x keys k) (
      if-either IsSorted (bytes_less x k)
        (λ e. (All-insert_key x keys k e s.0, insert_key-IsSorted keys k s.1 absent))
        (λ e. let less = less_total x k e apart in ((less, All-less k x keys less s.0), s)))

All-remove_key :
    (x : Bytes) (keys : List Bytes) (k : Bytes)
    → All (λ y. bytes_less x y ≡ true) keys
    → All (λ y. bytes_less x y ≡ true) (remove_key keys k)
unfolding remove_key search_strings
All-remove_key x [] k a = tt
All-remove_key x (y ∷ keys) k a = rw (remove_key-cons y keys k) (
    if-either (All (λ z. bytes_less x z ≡ true)) (bytes_less y k)
      (λ e. (a.0, All-remove_key x keys k a.1)) (λ e. a.1))

pub remove_key-IsSorted :
    (keys : List Bytes) (k : Bytes) → IsSorted keys → IsSorted (remove_key keys k)
unfolding remove_key search_strings
remove_key-IsSorted [] k s = tt
remove_key-IsSorted (x ∷ keys) k s = rw (remove_key-cons x keys k) (
    if-either IsSorted (bytes_less x k)
      (λ e. (All-remove_key x keys k s.0, remove_key-IsSorted keys k s.1)) (λ e. s.1))

pub has_key-insert_key :
    (keys : List Bytes) (k y : Bytes)
    → has_key (insert_key keys k) y ≡ (bytes_eq k y || has_key keys y)
unfolding insert_key search_strings
has_key-insert_key [] k y = refl
has_key-insert_key (x ∷ keys) k y = rw (insert_key-cons x keys k) (
    if-either (λ l. has_key l y ≡ (bytes_eq k y || (bytes_eq x y || has_key keys y)))
      (bytes_less x k) (λ e. ground (arith, has_key-insert_key keys k y)) (λ e. refl))

-- A key of a sorted list that is not the first comes behind the first.
has_key-less :
    (x : Bytes) (keys : List Bytes) (k : Bytes)
    → All (λ y. bytes_less x y ≡ true) keys
    → has_key keys k ≡ true
    → bytes_less x k ≡ true
has_key-less x [] k a h = ground arith
has_key-less x (y ∷ keys) k a h = elim (Bool-cases (bytes_eq y k)) [
  | inl e ↦ subst (λ z. bytes_less x z ≡ true) ((bytes_eq_iff y k).0 e) a.0
  | inr e ↦ has_key-less x keys k a.1 (ground arith)
]

pub behind_absent :
    (x : Bytes) (keys : List Bytes) → All (λ y. bytes_less x y ≡ true) keys → has_key keys x ≡ false
unfolding bytes_less
behind_absent x keys a = elim (Bool-cases (has_key keys x)) [
  | inl h ↦ let less = has_key-less x keys x a h in ground (arith, less_asym x x less)
  | inr h ↦ h
]

-- Where a key that is there is found: at the first key that is not smaller.
pub found_or_behind :
    (x : Bytes) (keys : List Bytes) (k : Bytes)
    → IsSorted (x ∷ keys)
    → has_key (x ∷ keys) k ≡ true
    → ((bytes_less x k ≡ true) × (bytes_eq x k ≡ false) × (has_key keys k ≡ true))
      ⊎ ((bytes_less x k ≡ false) × (x ≡ k) × (has_key keys k ≡ false))
found_or_behind x keys k s h = elim (Bool-cases (bytes_eq x k)) [
  | inl e ↦
      let same = (bytes_eq_iff x k).0 e in
      inr (
        subst (λ z. bytes_less x z ≡ false) same
            (elim (Bool-cases (bytes_less x x)) [
              | inl b ↦ ground (arith, less_asym x x b)
              | inr b ↦ b
            ]),
        same,
        subst (λ z. has_key keys z ≡ false) same (behind_absent x keys s.0),
      )
  | inr e ↦
      let more : has_key keys k ≡ true = ground arith in
      inl (has_key-less x keys k s.0 more, e, more)
]
