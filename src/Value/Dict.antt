-- ===== src/Value/Dict.antt =====
-- internal/value/dict.go: the dictionary and the set, on lists in the order of insertion. How two
-- keys compare is the argument `eq`, for Equal, with the stored key first as in the source.
mod Lookup
mod Distinct
mod Examples
use montygo.Prelude.{
  Bool, List, Option, [], false, if◌then◌else◌, map, none, some, suc, true, zero, ℕ, ◌++◌, ◌∷◌,
}

abbrev pub next_index : Option ℕ → Option ℕ
next_index none = none
next_index (some i) = some (suc i)

-- Pair.
pub record Pair {ℓ κ} (K : Type ℓ) (V : Type κ) : Type (ℓ ⊔ κ) where
  pub key : K
  pub value : V

-- A change of a dictionary; apply_all makes several, one after another.
pub data Change {ℓ κ} (K : Type ℓ) (V : Type κ) : Type (ℓ ⊔ κ) where
  sets : K → V → Change K V
  deletes : K → Change K V

module _ {ℓ κ} {K : Type ℓ} {V : Type κ} where
  -- d.pairs[i].Value and d.pairs[i].Value = v.
  abbrev pub value_at : ℕ → List (Pair K V) → Option V
  value_at i [] = none
  value_at zero (p ∷ d) = some p.value
  value_at (suc i) (p ∷ d) = value_at i d

  abbrev pub store_at : ℕ → V → List (Pair K V) → List (Pair K V)
  store_at i v [] = []
  store_at zero v (p ∷ d) = record p { value = v } ∷ d
  store_at (suc i) v (p ∷ d) = p ∷ store_at i v d

  -- append(d.pairs[:i], d.pairs[i+1:]...).
  abbrev pub remove_at : ℕ → List (Pair K V) → List (Pair K V)
  remove_at i [] = []
  remove_at zero (p ∷ d) = d
  remove_at (suc i) (p ∷ d) = p ∷ remove_at i d

  -- Dict.Keys, Dict.Values and Dict.Append.
  abbrev pub keys : List (Pair K V) → List K
  keys d = map (λ p. p.key) d

  abbrev pub values : List (Pair K V) → List V
  values d = map (λ p. p.value) d

  unfoldable pub append : K → V → List (Pair K V) → List (Pair K V)
  append k v d = d ++ record { key = k; value = v } ∷ []

module _ {ℓ κ} {K : Type ℓ} {V : Type κ} (eq : K → K → Bool) where
  -- Dict.find.
  unfoldable pub find : K → List (Pair K V) → Option ℕ
  find k [] = none
  find k (p ∷ d) = let rest = find k d in if eq p.key k then some 0 else next_index rest

  -- Dict.Get.
  unfoldable pub get : K → List (Pair K V) → Option V
  unfolding find
  get k d = elim (find k d) [ none ↦ none | some i ↦ value_at i d ]

  -- Dict.Set.
  unfoldable pub set : K → V → List (Pair K V) → List (Pair K V)
  unfolding find append
  set k v d = elim (find k d) [ none ↦ append k v d | some i ↦ store_at i v d ]

  -- Dict.Delete.
  unfoldable pub delete : K → List (Pair K V) → Bool × List (Pair K V)
  unfolding find
  delete k d = elim (find k d) [ none ↦ (false, d) | some i ↦ (true, remove_at i d) ]

  unfoldable pub set_all : List (Pair K V) → List (Pair K V) → List (Pair K V)
  unfolding set
  set_all [] d = d
  set_all (p ∷ ps) d = set_all ps (set p.key p.value d)

  unfoldable pub apply_all : List (Change K V) → List (Pair K V) → List (Pair K V)
  unfolding set delete
  apply_all [] d = d
  apply_all (sets k v ∷ cs) d = apply_all cs (set k v d)
  apply_all (deletes k ∷ cs) d = apply_all cs (delete k d).1

  -- NewDict.
  unfoldable pub new_dict : List (Pair K V) → List (Pair K V)
  unfolding set_all
  new_dict ps = set_all ps []

module _ {ℓ} {K : Type ℓ} (eq : K → K → Bool) where
  -- containsEqual.
  unfoldable pub contains_equal : List K → K → Bool
  contains_equal [] k = false
  contains_equal (s ∷ items) k = let rest = contains_equal items k in if eq s k then true else rest

  -- Set.Add.
  unfoldable pub add : K → List K → List K
  unfolding contains_equal
  add k items = if contains_equal items k then items else items ++ k ∷ []

  -- NewSet and NewFrozenSet.
  unfoldable pub add_all : List K → List K → List K
  unfolding add
  add_all [] items = items
  add_all (k ∷ ks) items = add_all ks (add k items)

  unfoldable pub new_set : List K → List K
  unfolding add_all
  new_set ks = add_all ks []
