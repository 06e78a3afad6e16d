-- ===== src/Value/Dict/Distinct.antt =====
-- That a dictionary or a set holds no key twice.
use montygo.Prelude.{
  Bool, Bool-cases, List, Option, [], arith, false, if-either, if◌then◌else◌, inl, inr, map, none,
  refl, some, suc, true, zero, ℕ, ◌++◌, ◌∷◌, ◌≡◌,
}
use montygo.Value.Dict.{
  Change, Pair, add, add_all, append, apply_all, contains_equal, delete, deletes, find, get, keys,
  new_dict, new_set, next_index, remove_at, set, set_all, sets,
}
use montygo.Value.Dict.Lookup.{get-cons, set-cons}

module _ {ℓ} {K : Type ℓ} (eq : K → K → Bool) where
  -- A stored key equals none of those behind it.
  abbrev pub Apart : K → List K → Type 0
  Apart s [] = Unit
  Apart s (t ∷ ks) = (eq s t ≡ false) × Apart s ks

  abbrev pub Distinct : List K → Type 0
  Distinct [] = Unit
  Distinct (s ∷ ks) = Apart s ks × Distinct ks

  Apart-end : (s t : K) (ks : List K) → Apart s ks → eq s t ≡ false → Apart s (ks ++ t ∷ [])
  Apart-end s t [] h q = (q, tt)
  Apart-end s t (k ∷ ks) h q = (h.0, Apart-end s t ks h.1 q)

  -- Every stored key differs from the new one.
  abbrev pub Absent : K → List K → Type 0
  Absent t [] = Unit
  Absent t (s ∷ ks) = (eq s t ≡ false) × Absent t ks

  Distinct-end : (t : K) (ks : List K) → Distinct ks → Absent t ks → Distinct (ks ++ t ∷ [])
  Distinct-end t [] h a = (tt, tt)
  Distinct-end t (s ∷ ks) h a = (Apart-end s t ks h.0 a.0, Distinct-end t ks h.1 a.1)

  contains_equal-Absent : (ks : List K) (t : K) → contains_equal eq ks t ≡ false → Absent t ks
  unfolding contains_equal
  contains_equal-Absent [] t h = tt
  contains_equal-Absent (s ∷ ks) t h = by_key (contains_equal-Absent ks t) (eq s t) refl h
    where
      by_key :
          (contains_equal eq ks t ≡ false → Absent t ks)
          → (b : Bool) → eq s t ≡ b
          → (if b then true else contains_equal eq ks t) ≡ false
          → Absent t (s ∷ ks)
      by_key rest true q k = absurd (ground arith)
      by_key rest false q k = (q, rest k)

  add-Distinct : (t : K) (ks : List K) → Distinct ks → Distinct (add eq t ks)
  unfolding add
  add-Distinct t ks h =
      if-either Distinct (contains_equal eq ks t) (λ _. h)
        (λ q. Distinct-end t ks h (contains_equal-Absent ks t q))

  add_all-Distinct : (ts ks : List K) → Distinct ks → Distinct (add_all eq ts ks)
  unfolding add_all
  add_all-Distinct [] ks h = h
  add_all-Distinct (t ∷ ts) ks h = add_all-Distinct ts (add eq t ks) (add-Distinct t ks h)

  -- NewSet and NewFrozenSet keep no item that equals one before it.
  pub new_set-Distinct : (ks : List K) → Distinct (new_set eq ks)
  unfolding new_set
  new_set-Distinct ks = add_all-Distinct ks [] tt

  -- Of the stored keys behind it, those that equal `k` equal the key `s`.
  abbrev pub AlikeTo : K → K → List K → Type 0
  AlikeTo s k [] = Unit
  AlikeTo s k (t ∷ ks) = (eq t k ≡ true → eq s t ≡ true) × AlikeTo s k ks

  -- Of two stored keys that equal `k`, the first one equals the other.
  abbrev pub Alike : K → List K → Type 0
  Alike k [] = Unit
  Alike k (s ∷ ks) = (eq s k ≡ true → AlikeTo s k ks) × Alike k ks

module _ {ℓ κ} {K : Type ℓ} {V : Type κ} (eq : K → K → Bool) where
  set-Apart :
      (s k : K) (v : V) (d : List (Pair K V))
      → eq s k ≡ false
      → Apart eq s (keys d)
      → Apart eq s (keys (set eq k v d))
  unfolding set find append
  set-Apart s k v [] q h = (q, tt)
  set-Apart s k v (p ∷ d) q h = rw (set-cons eq k v p d) (
      if-either (λ e. Apart eq s (keys {V = V} e)) (eq p.key k) (λ _. h)
        (λ _. (h.0, set-Apart s k v d q h.1)))

  set-Distinct :
      (k : K) (v : V) (d : List (Pair K V))
      → Distinct eq (keys d)
      → Distinct eq (keys (set eq k v d))
  unfolding set find append
  set-Distinct k v [] h = (tt, tt)
  set-Distinct k v (p ∷ d) h = rw (set-cons eq k v p d) (
      if-either (λ e. Distinct eq (keys {V = V} e)) (eq p.key k) (λ _. h)
        (λ q. (set-Apart p.key k v d q h.0, set-Distinct k v d h.1)))

  remove_at-Apart :
      (s : K) (i : ℕ) (d : List (Pair K V))
      → Apart eq s (keys d)
      → Apart eq s (keys (remove_at i d))
  remove_at-Apart s i [] h = h
  remove_at-Apart s zero (p ∷ d) h = h.1
  remove_at-Apart s (suc i) (p ∷ d) h = (h.0, remove_at-Apart s i d h.1)

  remove_at-Distinct :
      (i : ℕ) (d : List (Pair K V)) → Distinct eq (keys d) → Distinct eq (keys (remove_at i d))
  remove_at-Distinct i [] h = h
  remove_at-Distinct zero (p ∷ d) h = h.1
  remove_at-Distinct (suc i) (p ∷ d) h = (remove_at-Apart p.key i d h.0, remove_at-Distinct i d h.1)

  delete-Distinct :
      (k : K) (d : List (Pair K V)) → Distinct eq (keys d) → Distinct eq (keys (delete eq k d).1)
  unfolding delete find
  delete-Distinct k d h = by_index (find eq k d)
    where
      by_index :
          (o : Option ℕ)
          → Distinct eq (
              keys
                (elim o as (λ _. Bool × List (Pair K V)) [
                  | none ↦ (false, d)
                  | some i ↦ (true, remove_at i d)
                ]).1)
      by_index none = h
      by_index (some i) = remove_at-Distinct i d h

  apply_all-Distinct :
      (cs : List (Change K V)) (d : List (Pair K V))
      → Distinct eq (keys d)
      → Distinct eq (keys (apply_all eq cs d))
  unfolding apply_all
  apply_all-Distinct [] d h = h
  apply_all-Distinct (sets k v ∷ cs) d h =
      apply_all-Distinct cs (set eq k v d) (set-Distinct k v d h)
  apply_all-Distinct (deletes k ∷ cs) d h =
      apply_all-Distinct cs (delete eq k d).1 (delete-Distinct k d h)

  set_all-Distinct :
      (ps d : List (Pair K V)) → Distinct eq (keys d) → Distinct eq (keys (set_all eq ps d))
  unfolding set_all
  set_all-Distinct [] d h = h
  set_all-Distinct (p ∷ ps) d h =
      set_all-Distinct ps (set eq p.key p.value d) (set-Distinct p.key p.value d h)

  -- However keys are compared: a dictionary that NewDict builds, after any Sets and Deletes, has no
  -- key that equals one behind it; and so have a set and a frozen set that are built of its keys.
  pub changes-Distinct :
      (ps : List (Pair K V)) (cs : List (Change K V))
      → Distinct eq (keys (apply_all eq cs (new_dict eq ps)))
        × Distinct eq (new_set eq (map (λ p. p.key) ps))
  unfolding new_dict
  changes-Distinct ps cs = (
    apply_all-Distinct cs (set_all eq ps []) (set_all-Distinct ps [] tt),
    new_set-Distinct eq (map (λ p. p.key) ps),
  )

  absent-get :
      (s k : K) (d : List (Pair K V))
      → AlikeTo eq s k (keys d)
      → Apart eq s (keys d)
      → get eq k d ≡ none
  unfolding get find
  absent-get s k [] alike h = refl
  absent-get s k (p ∷ d) alike h = rw (get-cons eq k p d, not_same) (absent-get s k d alike.1 h.1)
    where
      not_same : eq p.key k ≡ false
      not_same = elim (Bool-cases (eq p.key k)) [
        | inl q ↦ absurd (ground (arith, alike.0 q, h.0))
        | inr q ↦ q
      ]

  delete-cons :
      (k : K) (p : Pair K V) (d : List (Pair K V))
      → (delete eq k (p ∷ d)).1 ≡ (if eq p.key k then d else p ∷ (delete eq k d).1)
  unfolding delete find
  delete-cons k p d = by_key (eq p.key k) (find eq k d)
    where
      by_key :
          (b : Bool) (o : Option ℕ)
          → (elim (if b then some 0 else next_index o) as (λ _. Bool × List (Pair K V)) [
            | none ↦ (false, p ∷ d)
            | some i ↦ (true, remove_at i (p ∷ d))
          ]).1
            ≡ (if b
                then d
                else p
                  ∷ (elim o as (λ _. Bool × List (Pair K V)) [
                    | none ↦ (false, d)
                    | some i ↦ (true, remove_at i d)
                  ]).1)
      by_key true o = refl
      by_key false none = refl
      by_key false (some i) = refl

  -- From a dictionary with distinct keys, in which the first of any two stored keys that equal the
  -- deleted one would equal the other, a key that is deleted is not found any more.
  pub get-delete :
      (k : K) (d : List (Pair K V))
      → Alike eq k (keys d)
      → Distinct eq (keys d)
      → get eq k (delete eq k d).1 ≡ none
  unfolding get delete find
  get-delete k [] alike h = refl
  get-delete k (p ∷ d) alike h = rw (delete-cons k p d) (
      if-either (λ e. get {V = V} eq k e ≡ none) (eq p.key k)
        (λ q. absent-get p.key k d (alike.0 q) h.0)
        (λ q. rw (get-cons eq k p (delete eq k d).1, q) (get-delete k d alike.1 h.1)))
