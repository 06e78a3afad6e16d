-- ===== src/Value/Depth.antt =====
-- internal/value/depth.go: the nesting of a value against the budget of the wire format. A value is
-- its shape: what Go's type switch asks for, with the values inside.
mod Examples
use montygo.Prelude.{
  Bool, arith, false, if◌then◌else◌, ltb, true, ℕ, ◌&&◌, ◌+◌, ◌-◌, ◌<◌, ◌==◌, ◌||◌, ◌↔◌, ◌≡◌,
}

abbrev pub max_proto_value_depth : ℕ
max_proto_value_depth = 100 - 3

mutual
  -- A list or tuple, a set or frozen set and a named tuple are counted alike. An instance has the
  -- attributes of its type and its own; a type is a builtin or has attributes.
  pub data Value : Type 0 where
    scalar : Value
    sequence set named_tuple : Items → Value
    dict : Pairs → Value
    instance_of : Pairs → Pairs → Value
    type_of : Bool → Pairs → Value

  pub data Items : Type 0 where
    no_items : Items
    item : Value → Items → Items

  pub data Pairs : Type 0 where
    no_pairs : Pairs
    pair : Value → Value → Pairs → Pairs

abbrev has_pairs : Pairs → Bool
has_pairs no_pairs = false
has_pairs (pair k v ps) = true

-- The test of seqExceeds and pairsExceed, before what stands inside.
abbrev costs : ℕ → ℕ → Bool → Bool
costs budget cost inside = if ltb budget cost then true else inside

mutual
  -- depthExceeds, with the calls of seqExceeds, pairsExceed and classTypeExceeds written out.
  pub depth_exceeds : Value → ℕ → Bool
  depth_exceeds scalar budget = budget == 0
  depth_exceeds (sequence xs) budget = costs budget 2 (any_item xs (budget - 2))
  depth_exceeds (set xs) budget = costs budget 2 (any_item xs (budget - 2))
  depth_exceeds (named_tuple xs) budget = costs budget 2 (any_item xs (budget - 2))
  depth_exceeds (dict ps) budget = costs budget 3 (any_pair ps (budget - 3))
  depth_exceeds (instance_of attrs ps) budget =
      ltb budget 3
      || (has_pairs attrs && costs (budget - 3) 2 (any_pair attrs (budget - 3 - 2)))
      || costs budget 4 (any_pair ps (budget - 4))
  depth_exceeds (type_of builtin attrs) budget =
      if builtin
      then ltb budget 2
      else ltb budget 2
        || (has_pairs attrs && costs (budget - 2) 2 (any_pair attrs (budget - 2 - 2)))

  -- The loops over the items and over the pairs.
  pub any_item : Items → ℕ → Bool
  any_item no_items budget = false
  any_item (item x xs) budget = depth_exceeds x budget || any_item xs budget

  pub any_pair : Pairs → ℕ → Bool
  any_pair no_pairs budget = false
  any_pair (pair k v ps) budget =
      (depth_exceeds k budget || depth_exceeds v budget) || any_pair ps budget

pub exceeds_max_depth : Value → Bool
unfolding depth_exceeds
exceeds_max_depth v = depth_exceeds v max_proto_value_depth

abbrev larger : ℕ → ℕ → ℕ
larger a b = if ltb a b then b else a

-- The budget that a value needs: one for a scalar, and for a container its own cost and the most
-- that anything inside it needs. The attributes of a type count only if there are any.
abbrev attributes_need : Bool → ℕ → ℕ
attributes_need true inside = 2 + inside
attributes_need false inside = 0

mutual
  pub needs : Value → ℕ
  needs scalar = 1
  needs (sequence xs) = 2 + items_need xs
  needs (set xs) = 2 + items_need xs
  needs (named_tuple xs) = 2 + items_need xs
  needs (dict ps) = 3 + pairs_need ps
  needs (instance_of attrs ps) =
      larger (3 + attributes_need (has_pairs attrs) (pairs_need attrs)) (4 + pairs_need ps)
  needs (type_of builtin attrs) =
      2 + (if builtin then 0 else attributes_need (has_pairs attrs) (pairs_need attrs))

  pub items_need : Items → ℕ
  items_need no_items = 0
  items_need (item x xs) = larger (needs x) (items_need xs)

  pub pairs_need : Pairs → ℕ
  pairs_need no_pairs = 0
  pairs_need (pair k v ps) = larger (larger (needs k) (needs v)) (pairs_need ps)

mutual
  unfolding depth_exceeds needs

  depth_exceeds-needs : (v : Value) (b : ℕ) → depth_exceeds v b ≡ ltb b (needs v)
  depth_exceeds-needs scalar b = ground arith
  depth_exceeds-needs (sequence xs) b = ground (arith, any_item-needs xs (b - 2))
  depth_exceeds-needs (set xs) b = ground (arith, any_item-needs xs (b - 2))
  depth_exceeds-needs (named_tuple xs) b = ground (arith, any_item-needs xs (b - 2))
  depth_exceeds-needs (dict ps) b = ground (arith, any_pair-needs ps (b - 3))
  depth_exceeds-needs (instance_of attrs ps) b =
      ground (arith, any_pair-needs attrs (b - 3 - 2), any_pair-needs ps (b - 4))
  depth_exceeds-needs (type_of builtin attrs) b = ground (arith, any_pair-needs attrs (b - 2 - 2))

  any_item-needs : (xs : Items) (b : ℕ) → any_item xs b ≡ ltb b (items_need xs)
  any_item-needs no_items b = ground arith
  any_item-needs (item x xs) b = ground (arith, depth_exceeds-needs x b, any_item-needs xs b)

  any_pair-needs : (ps : Pairs) (b : ℕ) → any_pair ps b ≡ ltb b (pairs_need ps)
  any_pair-needs no_pairs b = ground arith
  any_pair-needs (pair k v ps) b =
      ground (arith, depth_exceeds-needs k b, depth_exceeds-needs v b, any_pair-needs ps b)

-- ExceedsMaxDepth refuses exactly the values that need a budget of more than 97.
pub exceeds_max_depth_iff : (v : Value) → (exceeds_max_depth v ≡ true) ↔ (97 < needs v)
unfolding exceeds_max_depth
exceeds_max_depth_iff v = ground (arith, depth_exceeds-needs v 97)
