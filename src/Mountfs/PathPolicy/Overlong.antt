-- ===== src/Mountfs/PathPolicy/Overlong.antt =====
-- isOverlong against its meaning: the length, the number of components, and their lengths.
use montygo.Prelude.{
  All, Bool-cases, Bytes, List, [], arith, false, inl, inr, length, none, onto_head, refl, some,
  split, split-ne-nil, suc, zero, ℕ, ◌==◌, ◌↔◌, ◌∷◌, ◌≡◌, ◌≢◌, ◌≤◌, ◌⊎◌,
}
use montygo.Value.Vpath.{slash}
use montygo.Mountfs.PathPolicy.{
  behind, component, depth_max, is_overlong, name_max, overlong_from, path_max,
}

split-component :
    (s : Bytes)
    → ((behind s ≡ none) × (split slash s ≡ component s ∷ []))
      ⊎ ((more : Bytes) × (behind s ≡ some more) × (split slash s ≡ component s ∷ split slash more))
unfolding split component behind
split-component [] = inl (refl, refl)
split-component (c ∷ s) = elim (Bool-cases (c == slash)) [
  | inl here ↦ rw here (inr (s, refl, refl))
  | inr other ↦ rw other (onwards c s (split-component s))
]
  where
    onwards :
        (c : ℕ) (s : Bytes)
        → ((behind s ≡ none) × (split slash s ≡ component s ∷ []))
          ⊎ ((more : Bytes) × (behind s ≡ some more)
              × (split slash s ≡ component s ∷ split slash more))
        → ((behind s ≡ none) × (onto_head c (split slash s) ≡ (c ∷ component s) ∷ []))
          ⊎ ((more : Bytes) × (behind s ≡ some more)
              × (onto_head c (split slash s) ≡ (c ∷ component s) ∷ split slash more))
    onwards c s (inl (b, e)) = inl (b, rw e refl)
    onwards c s (inr (more, b, e)) = inr (more, b, rw e refl)

-- A path that isOverlong admits.
abbrev pub Fits : ℕ → List Bytes → Type 0
Fits left parts = (length parts ≤ left) × All (λ part. length part ≤ name_max) parts

overlong_from-Fits :
    (left : ℕ) (s : Bytes) → (overlong_from left s ≡ false) ↔ Fits left (split slash s)
unfolding overlong_from
overlong_from-Fits zero s =
    ((λ h. cc), λ f. absurd (empty (split slash s) (split-ne-nil slash s) f.0))
  where
    empty : (parts : List Bytes) → parts ≢ [] → length parts ≤ 0 → ⊥
    empty [] n h = n refl
    empty (p ∷ ps) n h = omega arith
overlong_from-Fits (suc left) s = elim (split-component s) [
  | inl (b, e) ↦ rw (b, e, overlong_from) (ground arith)
  | inr (more, b, e) ↦ rw (b, e, overlong_from) (ground (arith, overlong_from-Fits left more))
]

-- isOverlong refuses exactly the paths of more than 4096 bytes, of more than 64 components, or with
-- a component of more than 255 bytes.
pub is_overlong_iff :
    (path : Bytes)
    → (is_overlong path ≡ false) ↔ ((length path ≤ path_max) × Fits depth_max (split slash path))
unfolding is_overlong
is_overlong_iff path = grind (arith, overlong_from-Fits depth_max path)
