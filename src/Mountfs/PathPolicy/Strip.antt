-- ===== src/Mountfs/PathPolicy/Strip.antt =====
-- stripMountPrefix on the paths of names: it cuts the mount's names off, and nothing else.
use montygo.Prelude.{
  All, Bytes, List, Option-cases, [], ap, append-nil, arith, bytes_eq, bytes_eq_iff, cut_prefix,
  cut_prefix-append, cut_prefix-some, drop, false, inl, inr, length, length-append, refl, some,
  split, split-append, split-ne-nil, subst, sym, true, ℕ, ◌++◌, ◌∙◌, ◌∷◌, ◌≡◌, ◌≢◌, ◌⊎◌,
}
use montygo.Value.Vpath.{root, slash}
use montygo.Value.Vpath.Segments.{IsName, path_of, rendered, rendered-append}
use montygo.Value.Vpath.Normal.{rendered-split, split-rendered}
use montygo.Mountfs.PathPolicy.{strip_mount_prefix}

-- The relative path of a list of names.
abbrev pub joined : List Bytes → Bytes
joined [] = []
joined (seg ∷ segs) = seg ++ rendered segs

joined-split : (s : Bytes) → joined (split slash s) ≡ s
joined-split s = joined_of (split slash s) (split-ne-nil slash s) (rendered-split s)
  where
    joined_of : (segs : List Bytes) → segs ≢ [] → rendered segs ≡ slash ∷ s → joined segs ≡ s
    joined_of [] n h = absurd (n refl)
    joined_of (seg ∷ segs) n h = cc

rendered_ne_root :
    (seg : Bytes) (segs : List Bytes) → IsName seg → bytes_eq (rendered (seg ∷ segs)) root ≡ false
unfolding bytes_eq
rendered_ne_root [] segs v = absurd (v.0 refl)
rendered_ne_root (c ∷ seg) segs v = ground arith

split-path_of :
    (segs : List Bytes) → segs ≢ [] → All IsName segs → split slash (drop 1 (path_of segs)) ≡ segs
split-path_of [] n v = absurd (n refl)
split-path_of (seg ∷ segs) n v = split-rendered seg segs v

path_of-injective :
    (ns : List Bytes) (m : Bytes) (ms : List Bytes)
    → All IsName ns
    → All IsName (m ∷ ms)
    → path_of ns ≡ path_of (m ∷ ms)
    → ns ≡ m ∷ ms
path_of-injective [] m ms v w h =
    let same : bytes_eq (rendered (m ∷ ms)) root ≡ true = (bytes_eq_iff _ _).1 (sym h) in
    absurd (ground (arith, rendered_ne_root m ms w.0))
path_of-injective (n ∷ ns) m ms v w h =
    sym (split-rendered n ns v) ∙ ap (λ p. split slash (drop 1 p)) h ∙ split-rendered m ms w

-- What is cut off a path of names below a mount of names is itself a path of names.
behind_mount :
    (ns : List Bytes) (m : Bytes) (ms : List Bytes) (rel : Bytes)
    → All IsName ns
    → All IsName (m ∷ ms)
    → path_of ns ≡ rendered (m ∷ ms) ++ slash ∷ rel
    → ns ≡ (m ∷ ms) ++ split slash rel
behind_mount [] m ms rel v w h =
    absurd (omega (arith, ap length h, length-append (m ++ rendered ms) (slash ∷ rel)))
behind_mount (n ∷ ns) m ms rel v w h =
    sym (split-rendered n ns v)
    ∙ ap (λ p. split slash (drop 1 p)) h
    ∙ split-append slash (m ++ rendered ms) rel
    ∙ ap (λ l. l ++ split slash rel) (split-rendered m ms w)

strip_cases :
    (n m rel : Bytes)
    → bytes_eq m root ≡ false
    → strip_mount_prefix n m ≡ some rel
    → ((n ≡ m) × (rel ≡ [])) ⊎ (n ≡ m ++ slash ∷ rel)
unfolding strip_mount_prefix
strip_cases n m rel low h = elim (Option-cases (cut_prefix n m)) [
  | inl miss ↦ ground (arith, bytes_eq_iff n m)
  | inr (rest, e) ↦
      ground (arith, bytes_eq_iff n m, cut_prefix-some n m rest e, cut_prefix-some rest root rel)
]

pub strip-names :
    (ns ms : List Bytes) (rel : Bytes)
    → All IsName ns
    → All IsName ms
    → strip_mount_prefix (path_of ns) (path_of ms) ≡ some rel
    → (ks : List Bytes) × (ns ≡ ms ++ ks) × (rel ≡ joined ks)
strip-names [] [] rel v w h =
    ([], refl, unfold strip_mount_prefix bytes_eq cut_prefix in ground arith)
strip-names (n ∷ ns) [] rel v w h =
    (n ∷ ns, refl, unfold strip_mount_prefix bytes_eq cut_prefix in ground arith)
strip-names ns (m ∷ ms) rel v w h =
    elim (strip_cases (path_of ns) _ rel (rendered_ne_root m ms w.0) h) [
      | inl (same, at) ↦ ([], path_of-injective ns m ms v w same ∙ sym (append-nil (m ∷ ms)), at)
      | inr further ↦
          (split slash rel, behind_mount ns m ms rel v w further, sym (joined-split rel))
    ]

bytes_eq_longer : (a b : Bytes) (x : ℕ) → bytes_eq (a ++ x ∷ b) a ≡ false
unfolding bytes_eq
bytes_eq_longer [] b x = refl
bytes_eq_longer (c ∷ a) b x = ground (arith, bytes_eq_longer a b x)

strip_further :
    (m rel : Bytes) → bytes_eq m root ≡ false → strip_mount_prefix (m ++ slash ∷ rel) m ≡ some rel
unfolding strip_mount_prefix
strip_further m rel low =
    rw (strip_mount_prefix, low, bytes_eq_longer m rel slash, cut_prefix-append m (slash ∷ rel))
      (cut_prefix-append root rel)

strip_at_mount : (m : Bytes) → bytes_eq m root ≡ false → strip_mount_prefix m m ≡ some []
unfolding strip_mount_prefix
strip_at_mount m low = rw (strip_mount_prefix, low, (bytes_eq_iff m m).1 refl) refl

pub strip-append :
    (ms ks : List Bytes)
    → All IsName ms
    → strip_mount_prefix (path_of (ms ++ ks)) (path_of ms) ≡ some (joined ks)
strip-append [] [] w = unfold strip_mount_prefix bytes_eq cut_prefix in refl
strip-append [] (k ∷ ks) w = unfold strip_mount_prefix bytes_eq cut_prefix in refl
strip-append (m ∷ ms) [] w =
    let low = rendered_ne_root m ms w.0 in rw append-nil (strip_at_mount (rendered (m ∷ ms)) low)
strip-append (m ∷ ms) (k ∷ ks) w =
    let low = rendered_ne_root m ms w.0 in
    subst (λ n. strip_mount_prefix n (rendered (m ∷ ms)) ≡ some (k ++ rendered ks))
      (sym (rendered-append (m ∷ ms) (k ∷ ks)))
      (strip_further (rendered (m ∷ ms)) (k ++ rendered ks) low)
