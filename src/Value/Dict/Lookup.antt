-- ===== src/Value/Dict/Lookup.antt =====
-- What a key finds after the dictionary has been set or a key deleted.
use montygo.Prelude.{
  Bool, List, Option, [], false, if◌then◌else◌, none, refl, some, true, ℕ, ◌++◌, ◌∷◌, ◌≡◌,
}
use montygo.Value.Dict.{Pair, append, find, get, next_index, set, store_at, value_at}

module _ {ℓ κ} {K : Type ℓ} {V : Type κ} (eq : K → K → Bool) where
  pub get-cons :
      (k : K) (p : Pair K V) (d : List (Pair K V))
      → get eq k (p ∷ d) ≡ (if eq p.key k then some p.value else get eq k d)
  unfolding get find
  get-cons k p d = by_key (eq p.key k) (find eq k d)
    where
      by_key :
          (b : Bool) (o : Option ℕ)
          → elim (if b then some 0 else next_index o) [ none ↦ none | some i ↦ value_at i (p ∷ d) ]
            ≡ (if b then some p.value else elim o [ none ↦ none | some i ↦ value_at i d ])
      by_key true o = refl
      by_key false none = refl
      by_key false (some i) = refl

  pub set-cons :
      (k : K) (v : V) (p : Pair K V) (d : List (Pair K V))
      → set eq k v (p ∷ d) ≡ (if eq p.key k then record p { value = v } ∷ d else p ∷ set eq k v d)
  unfolding set find append
  set-cons k v p d = by_key (eq p.key k) (find eq k d)
    where
      by_key :
          (b : Bool) (o : Option ℕ)
          → elim (if b then some 0 else next_index o) [
            | none ↦ p ∷ d ++ record { key = k; value = v } ∷ []
            | some i ↦ store_at i v (p ∷ d)
          ]
            ≡ (if b
                then record p { value = v } ∷ d
                else p ∷ elim o [
                  | none ↦ d ++ record { key = k; value = v } ∷ []
                  | some i ↦ store_at i v d
                ])
      by_key true o = refl
      by_key false none = refl
      by_key false (some i) = refl

  get-set_same :
      (k : K) (v : V) (d : List (Pair K V)) → eq k k ≡ true → get eq k (set eq k v d) ≡ some v
  unfolding get set find append
  get-set_same k v [] same = rw (get-cons k (record { key = k; value = v }) [], same) refl
  get-set_same k v (p ∷ d) same =
      rw (set-cons k v p d) (by_key (get-set_same k v d same) (eq p.key k) refl)
    where
      by_key :
          (get eq k (set eq k v d) ≡ some v)
          → (b : Bool) → eq p.key k ≡ b
          → get eq k (if b then record p { value = v } ∷ d else p ∷ set eq k v d) ≡ some v
      by_key rest true q = rw (get-cons k (record p { value = v }) d, q) refl
      by_key rest false q = rw (get-cons k p (set eq k v d), q) rest

  -- The stored keys that equal `k` do not equal `other`.
  abbrev pub Separate : K → K → List (Pair K V) → Type 0
  Separate k other [] = Unit
  Separate k other (p ∷ d) = (eq p.key k ≡ true → eq p.key other ≡ false) × Separate k other d

  get-set_other :
      (k other : K) (v : V) (d : List (Pair K V))
      → Separate k other d
      → eq k other ≡ false
      → get eq other (set eq k v d) ≡ get eq other d
  unfolding get set find append
  get-set_other k other v [] apart differs =
      rw (get-cons other (record { key = k; value = v }) [], differs) refl
  get-set_other k other v (p ∷ d) apart differs =
      rw (set-cons k v p d, get-cons other p d)
        (by_key (get-set_other k other v d apart.1 differs) (eq p.key k) refl)
    where
      by_key :
          get eq other (set eq k v d) ≡ get eq other d
          → (b : Bool) → eq p.key k ≡ b
          → get eq other (if b then record p { value = v } ∷ d else p ∷ set eq k v d)
            ≡ (if eq p.key other then some p.value else get eq other d)
      by_key rest true q = rw (get-cons other (record p { value = v }) d, apart.0 q) refl
      by_key rest false q = rw (get-cons other p (set eq k v d), rest) refl

  -- A key that equals itself has the new value once it is set, whatever the dictionary holds; and a
  -- key that neither the one that is set equals, nor any stored key that equals the one that is set,
  -- finds what it found before.
  pub get-set :
      (k other : K) (v : V) (d : List (Pair K V))
      → eq k k ≡ true
      → eq k other ≡ false
      → Separate k other d
      → (get eq k (set eq k v d) ≡ some v) × (get eq other (set eq k v d) ≡ get eq other d)
  get-set k other v d same differs apart =
      (get-set_same k v d same, get-set_other k other v d apart differs)
