-- ===== src/Value/Dict/Examples.antt =====
-- A dictionary of numbers.
use montygo.Prelude.{Bool, List, [], arith, map, none, refl, some, ℕ, ◌==◌, ◌∷◌, ◌≡◌}
use montygo.Value.Dict.{
  Pair, add, add_all, apply_all, contains_equal, delete, deletes, find, get, keys, new_dict,
  new_set, set, set_all, sets,
}
use montygo.Value.Dict.Lookup.{get-set}
use montygo.Value.Dict.Distinct.{Distinct, changes-Distinct, get-delete}

abbrev same_number : ℕ → ℕ → Bool
same_number a b = a == b

abbrev entry : ℕ → ℕ → Pair ℕ ℕ
entry k v = record { key = k; value = v }

abbrev squares : List (Pair ℕ ℕ)
squares = entry 2 4 ∷ entry 3 9 ∷ entry 5 25 ∷ []

-- A repeated key keeps its first position and its last value.
new_dict_repeated :
    new_dict same_number (entry 2 1 ∷ entry 3 9 ∷ entry 2 4 ∷ []) ≡ entry 2 4 ∷ entry 3 9 ∷ []
unfolding new_dict set_all set find
new_dict_repeated = refl

new_set_repeated : new_set same_number (2 ∷ 3 ∷ 2 ∷ []) ≡ 2 ∷ 3 ∷ []
unfolding new_set add_all add contains_equal
new_set_repeated = refl

get-set_example :
    (get same_number 3 (set same_number 3 7 squares) ≡ some 7)
    × (get same_number 5 (set same_number 3 7 squares) ≡ get same_number 5 squares)
get-set_example = get-set same_number 3 5 7 squares refl refl (ground arith)

changes-Distinct_example :
    Distinct same_number
      (keys (apply_all same_number (deletes 3 ∷ sets 3 8 ∷ []) (new_dict same_number squares)))
    × Distinct same_number (new_set same_number (map (λ p. p.key) squares))
changes-Distinct_example = changes-Distinct same_number squares (deletes 3 ∷ sets 3 8 ∷ [])

get-delete_example : get same_number 3 (delete same_number 3 squares).1 ≡ none
get-delete_example =
    get-delete same_number 3 squares (ground arith) ((refl, (refl, tt)), ((refl, tt), (tt, tt)))
