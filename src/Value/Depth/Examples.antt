-- ===== src/Value/Depth/Examples.antt =====
-- Values at the limit of the nesting depth.
use montygo.Prelude.{false, refl, suc, true, zero, ℕ, ◌≡◌}
use montygo.Value.Depth.{Value, depth_exceeds, exceeds_max_depth, item, no_items, scalar, sequence}

-- `n` lists around a scalar.
nested : ℕ → Value
nested zero = scalar
nested (suc n) = sequence (item (nested n) no_items)

deepest : exceeds_max_depth (nested 48) ≡ false
unfolding exceeds_max_depth depth_exceeds nested
deepest = refl

too_deep : exceeds_max_depth (nested 49) ≡ true
unfolding exceeds_max_depth depth_exceeds nested
too_deep = refl
