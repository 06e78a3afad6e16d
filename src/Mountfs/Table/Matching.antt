-- ===== src/Mountfs/Table/Matching.antt =====
-- findMount finds the mount with the longest virtual path, and the path it routes resolves there.
use montygo.Prelude.{
  All, Bool, Bool-cases, Bytes, List, Option, [], append-nil, arith, cut_prefix, cut_prefix-some,
  false, get_elem?, has_prefix, inl, inr, length, length-append, ltb, none, refl, some, subst, suc,
  true, ℕ, ◌&&◌, ◌++◌, ◌+◌, ◌==◌, ◌∷◌, ◌≡◌, ◌≤◌, ◌⊎◌,
}
use montygo.Value.Vpath.{normalize_virtual_path, root}
use montygo.Mountfs.Table.{
  Mount, find_from, find_mount, new_table, next_is_slash, path_matches_mount, push, push_all,
}
use montygo.Mountfs.Table.Order.{IsOrdered, new_table-IsOrdered}
use montygo.Mountfs.PathPolicy.{strip_mount_prefix}

abbrev pub matches : Bytes → Mount → Bool
matches normalized m = path_matches_mount normalized m.virtual_path

All-push_back :
    (P : Mount → Type 0) (mounts : List Mount) (m : Mount)
    → All P (push mounts m)
    → All P mounts × P m
unfolding push
All-push_back P [] m v = (tt, v.0)
All-push_back P (x ∷ mounts) m v =
    elim (Bool-cases (ltb (length m.virtual_path) (length x.virtual_path))) [
      | inl e ↦
          let w : All P (x ∷ push mounts m) = rw e at v in
          let (before, here) = All-push_back P mounts m w.1 in ((w.0, before), here)
      | inr e ↦ let w : All P (m ∷ x ∷ mounts) = rw e at v in (w.1, w.0)
    ]

All-push_all :
    (P : Mount → Type 0) (specs mounts : List Mount)
    → All P (push_all mounts specs)
    → All P mounts × All P specs
unfolding push_all
All-push_all P [] mounts v = (v, tt)
All-push_all P (m ∷ specs) mounts v =
    let (pushed, later) = All-push_all P specs (push mounts m) v in
    let (before, here) = All-push_back P mounts m pushed in (before, (here, later))

-- What find_from returns in an ordered list: none that matches is longer than the one found.
find_from-some :
    (mounts : List Mount) (i j : ℕ) (normalized : Bytes)
    → IsOrdered mounts
    → find_from i mounts normalized ≡ some j
    → (k : ℕ) × (m : Mount) × (j ≡ i + k)
      × (get_elem? mounts k ≡ some m)
      × (matches normalized m ≡ true)
      × All
          (λ x. matches normalized x ≡ true → length x.virtual_path ≤ length m.virtual_path)
          mounts
unfolding find_from
find_from-some [] i j n v h = absurd (cc)
find_from-some (x ∷ mounts) i j n v h = elim (Bool-cases (matches n x)) [
  | inl e ↦ (0, x, ground arith, refl, e, ((λ _. omega arith), later x mounts v.0))
  | inr e ↦
      let rest : find_from (suc i) mounts n ≡ some j = ground arith in
      let (k, m, at, found, good, best) = find_from-some mounts (suc i) j n v.1 rest in
      (suc k, m, omega (arith, at), found, good, ((λ yes_. absurd (ground arith)), best))
]
  where
    later :
        (x : Mount) (mounts : List Mount)
        → All (λ y. length y.virtual_path ≤ length x.virtual_path) mounts
        → All (λ y. matches n y ≡ true → length y.virtual_path ≤ length x.virtual_path) mounts
    later x [] w = tt
    later x (y ∷ mounts) w = ((λ _. w.0), later x mounts w.1)

find_from-none :
    (mounts : List Mount) (i : ℕ) (normalized : Bytes)
    → find_from i mounts normalized ≡ none
    → All (λ x. matches normalized x ≡ false) mounts
unfolding find_from
find_from-none [] i n h = tt
find_from-none (x ∷ mounts) i n h = (ground arith, find_from-none mounts (suc i) n (ground arith))

-- The mount that findMount chooses covers the path, and no spec that covers it has a longer
-- virtual path.
pub find_mount_longest :
    (specs : List Mount) (vpath : Bytes) (i : ℕ)
    → find_mount (new_table specs).mounts vpath ≡ some i
    → (m : Mount) × (get_elem? (new_table specs).mounts i ≡ some m)
      × (matches (normalize_virtual_path vpath) m ≡ true)
      × All
          (λ x.
            matches (normalize_virtual_path vpath) x ≡ true
            → length x.virtual_path ≤ length m.virtual_path)
          specs
unfolding find_mount
find_mount_longest specs vpath i h =
    let (k, m, at, found, good, best) =
      find_from-some (new_table specs).mounts 0 i (normalize_virtual_path vpath)
        (new_table-IsOrdered specs).0 h in
    let same : k ≡ i = omega (arith, at) in
    (
      m,
      subst (λ n. get_elem? (new_table specs).mounts n ≡ some m) same found,
      good,
      (unfold new_table in (All-push_all _ specs [] best).1),
    )

-- findMount finds no mount exactly when no spec covers the path.
pub find_mount-none :
    (specs : List Mount) (vpath : Bytes)
    → find_mount (new_table specs).mounts vpath ≡ none
    → All (λ x. matches (normalize_virtual_path vpath) x ≡ false) specs
unfolding find_mount
find_mount-none specs vpath h =
    unfold new_table in
    (All-push_all _ specs [] (find_from-none _ 0 (normalize_virtual_path vpath) h)).1

has_prefix-cut_prefix :
    (s p : Bytes)
    → ((has_prefix s p ≡ false) × (cut_prefix s p ≡ none))
      ⊎ ((rest : Bytes) × (has_prefix s p ≡ true) × (cut_prefix s p ≡ some rest))
unfolding has_prefix cut_prefix
has_prefix-cut_prefix s [] = inr (s, refl, refl)
has_prefix-cut_prefix [] (c ∷ p) = inl (refl, refl)
has_prefix-cut_prefix (d ∷ s) (c ∷ p) = elim (Bool-cases (d == c)) [
  | inl e ↦ rw e (has_prefix-cut_prefix s p)
  | inr e ↦ rw e (inl (refl, refl))
]

get_elem?-append :
    (p : Bytes) (c : ℕ) (rest : Bytes) → get_elem? (p ++ c ∷ rest) (length p) ≡ some c
get_elem?-append [] c rest = refl
get_elem?-append (x ∷ p) c rest = get_elem?-append p c rest

abbrev pub is_some : Option Bytes → Bool
is_some none = false
is_some (some rest) = true

next_of_rest :
    (m rest : Bytes)
    → (ltb (length m) (length (m ++ rest)) && next_is_slash (get_elem? (m ++ rest) (length m)))
      ≡ is_some (cut_prefix rest root)
unfolding next_is_slash cut_prefix
next_of_rest m [] = ground (arith, append-nil m)
next_of_rest m (c ∷ rest) = ground (arith, length-append m (c ∷ rest), get_elem?-append m c rest)

-- A mount covers a path exactly when the path resolves to something below it: the routing and
-- stripMountPrefix agree, so a routed call never meets a mount that does not know its path.
pub path_matches_mount-strip :
    (normalized mount : Bytes)
    → path_matches_mount normalized mount ≡ is_some (strip_mount_prefix normalized mount)
unfolding path_matches_mount strip_mount_prefix
path_matches_mount-strip n m = elim (has_prefix-cut_prefix n m) [
  | inl (a, b) ↦ ground arith
  | inr (rest, a, b) ↦ ground (arith, cut_prefix-some n m rest b, next_of_rest m rest)
]
