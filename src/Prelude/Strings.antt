-- ===== src/Prelude/Strings.antt =====
-- What the components use of Go's `strings` package, on bytes.
use Prim.Native.Nat.{ℕ, suc}
use mathlib.Core.Path.{◌≡◌, refl, ap}
use mathlib.Core.Logic.{◌↔◌, ◌≢◌, inl, inr}
use mathlib.Core.Bool.{Bool, true, false, ◌&&◌, ◌||◌}
use mathlib.Core.Option.{Option, none, some}
use mathlib.Core.List.{List, [], ◌∷◌, ◌++◌}
use native.Mathlib.Omega.{arith}
use montygo.Prelude.Tests.{Bool-cases, if◌then◌else◌, ◌==◌}
use montygo.Prelude.Lists.{All, length}
use montygo.Prelude.Text.{Bytes}

-- `a == b` on strings.
unfoldable pub bytes_eq : Bytes → Bytes → Bool
bytes_eq [] [] = true
bytes_eq [] (y ∷ ys) = false
bytes_eq (x ∷ xs) [] = false
bytes_eq (x ∷ xs) (y ∷ ys) = x == y && bytes_eq xs ys

pub bytes_eq_iff : (a b : Bytes) → (bytes_eq a b ≡ true) ↔ (a ≡ b)
unfolding bytes_eq
bytes_eq_iff [] [] = ((λ _. refl), λ _. refl)
bytes_eq_iff [] (y ∷ ys) = ((λ h. cc), λ h. cc)
bytes_eq_iff (x ∷ xs) [] = ((λ h. cc), λ h. cc)
bytes_eq_iff (x ∷ xs) (y ∷ ys) = ground (arith, bytes_eq_iff xs ys)

-- `strings.IndexByte(s, b) >= 0`.
unfoldable pub contains_byte : ℕ → Bytes → Bool
contains_byte b [] = false
contains_byte b (c ∷ s) = c == b || contains_byte b s

-- The bytes hold no `b`.
abbrev pub Lacks : ℕ → Bytes → Type 0
Lacks b = All (λ c. c ≢ b)

pub contains_byte-Lacks : (b : ℕ) (s : Bytes) → (contains_byte b s ≡ false) ↔ Lacks b s
unfolding contains_byte
contains_byte-Lacks b [] = ((λ _. tt), λ _. refl)
contains_byte-Lacks b (c ∷ s) = ground (arith, contains_byte-Lacks b s)

-- `strings.HasPrefix`, and `strings.CutPrefix` with its `ok` as an option.
unfoldable pub cut_prefix : Bytes → Bytes → Option Bytes
cut_prefix s [] = some s
cut_prefix [] (p ∷ ps) = none
cut_prefix (c ∷ s) (p ∷ ps) = if c == p then cut_prefix s ps else none

unfoldable pub has_prefix : Bytes → Bytes → Bool
has_prefix s [] = true
has_prefix [] (p ∷ ps) = false
has_prefix (c ∷ s) (p ∷ ps) = c == p && has_prefix s ps

pub cut_prefix-some : (s p rest : Bytes) → cut_prefix s p ≡ some rest → s ≡ p ++ rest
unfolding cut_prefix
cut_prefix-some s [] rest h = ground arith
cut_prefix-some [] (p ∷ ps) rest h = cc
cut_prefix-some (c ∷ s) (p ∷ ps) rest h = ground (arith, cut_prefix-some s ps rest)

pub cut_prefix-append : (p rest : Bytes) → cut_prefix (p ++ rest) p ≡ some rest
unfolding cut_prefix
cut_prefix-append [] rest = refl
cut_prefix-append (x ∷ p) rest = ground (arith, cut_prefix-append p rest)

-- `strings.HasSuffix(s, string(b))` for one byte `b`.
unfoldable pub ends_with : ℕ → Bytes → Bool
ends_with b [] = false
ends_with b (c ∷ []) = c == b
ends_with b (c ∷ d ∷ s) = ends_with b (d ∷ s)

-- `strings.Split(s, string(sep))` for one byte `sep`.
abbrev pub onto_head : ℕ → List Bytes → List Bytes
onto_head c [] = (c ∷ []) ∷ []
onto_head c (p ∷ ps) = (c ∷ p) ∷ ps

unfoldable pub split : ℕ → Bytes → List Bytes
split sep [] = [] ∷ []
split sep (c ∷ s) = if c == sep then [] ∷ split sep s else onto_head c (split sep s)

-- `strings.LastIndexByte`, with `none` for -1.
unfoldable pub last_index : ℕ → Bytes → Option ℕ
last_index b [] = none
last_index b (c ∷ s) = elim (last_index b s) [
  | some i ↦ some (suc i)
  | none ↦ if c == b then some 0 else none
]

-- `strings.TrimRight(s, string(b))` for one byte `b`.
abbrev pub trim_onto : ℕ → ℕ → Bytes → Bytes
trim_onto b c [] = if c == b then [] else c ∷ []
trim_onto b c (d ∷ s) = c ∷ d ∷ s

unfoldable pub trim_right : ℕ → Bytes → Bytes
trim_right b [] = []
trim_right b (c ∷ s) = trim_onto b c (trim_right b s)

onto_head-Lacks :
    (sep c : ℕ) (ps : List Bytes) → c ≢ sep → All (Lacks sep) ps → All (Lacks sep) (onto_head c ps)
onto_head-Lacks sep c [] h v = ((h, tt), tt)
onto_head-Lacks sep c (p ∷ ps) h v = ((h, v.0), v.1)

-- No part of a split holds the separator, and there is at least one part.
pub split-Lacks : (sep : ℕ) (s : Bytes) → All (Lacks sep) (split sep s)
unfolding split
split-Lacks sep [] = (tt, tt)
split-Lacks sep (c ∷ s) = elim (Bool-cases (c == sep)) [
  | inl here ↦ rw here (tt, split-Lacks sep s)
  | inr other ↦ rw other (onto_head-Lacks sep c (split sep s) (ground arith) (split-Lacks sep s))
]

pub split-ne-nil : (sep : ℕ) (s : Bytes) → split sep s ≢ []
unfolding split
split-ne-nil sep [] h = cc
split-ne-nil sep (c ∷ s) h = ground (arith, split-ne-nil sep s)

-- Text without the separator is one part; at a separator the parts behind it begin.
pub split-part : (sep : ℕ) (p : Bytes) → Lacks sep p → split sep p ≡ p ∷ []
unfolding split
split-part sep [] h = refl
split-part sep (c ∷ p) h = ground (arith, split-part sep p h.1)

onto_head-append :
    (c : ℕ) (ps qs : List Bytes) → ps ≢ [] → onto_head c (ps ++ qs) ≡ onto_head c ps ++ qs
onto_head-append c [] qs h = absurd (h refl)
onto_head-append c (p ∷ ps) qs h = refl

pub split-append : (sep : ℕ) (a b : Bytes) → split sep (a ++ sep ∷ b) ≡ split sep a ++ split sep b
unfolding split
split-append sep [] b = ground arith
split-append sep (c ∷ a) b = elim (Bool-cases (c == sep)) [
  | inl here ↦ rw here (ap (◌∷◌ []) (split-append sep a b))
  | inr other ↦
      rw (other, split-append sep a b)
        (onto_head-append c (split sep a) (split sep b) (split-ne-nil sep a))
]

last_index-none : (b : ℕ) (p : Bytes) → Lacks b p → last_index b p ≡ none
unfolding last_index
last_index-none b [] h = refl
last_index-none b (c ∷ p) h = ground (arith, last_index-none b p h.1)

pub last_index-append :
    (b : ℕ) (a p : Bytes) → Lacks b p → last_index b (a ++ b ∷ p) ≡ some (length a)
unfolding last_index
last_index-append b [] p h = ground (arith, last_index-none b p h)
last_index-append b (c ∷ a) p h = ground (arith, last_index-append b a p h)
