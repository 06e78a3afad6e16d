-- ===== src/Value/Vpath/Normal.antt =====
-- NormalizeVirtualPath is the path of the resolved stack, on the fast path and behind it.
use montygo.Prelude.{
  All, All-append, Bool-cases, Bytes, Lacks, List, [], ap, append-nil, append_assoc, arith,
  bytes_eq, bytes_eq_iff, ends_with, false, has_prefix, if◌then◌else◌, inl, inr, length, onto_head,
  refl, reverse, reverse-cons, reverse-reverse, split, split-Lacks, split-append, split-ne-nil,
  split-part, subst, sym, true, ℕ, ◌++◌, ◌==◌, ◌∙◌, ◌∷◌, ◌≡◌, ◌≢◌,
}
use montygo.Value.Vpath.{
  any_special, dot, dot_dot, is_normalized_virtual_path, is_special, normalize_virtual_path,
  rebuild, root, slash,
}
use montygo.Value.Vpath.Segments.{
  IsName, build-resolve, path_of, push, rendered, resolve, stacked-rendered,
}

-- The names that a path leads to: its segments, with "." and ".." resolved, oldest first.
abbrev pub names : Bytes → List Bytes
names path = reverse (resolve [] (split slash path))

All-append_reverse : (xs : List Bytes) → All IsName xs → All IsName (reverse xs)
All-append_reverse [] v = tt
All-append_reverse (x ∷ xs) v =
    rw (reverse-cons x xs)
      (All-append IsName (reverse xs) (x ∷ []) (All-append_reverse xs v.1) (v.0, tt))

pub names-IsName : (path : Bytes) → All IsName (names path)
names-IsName path =
    All-append_reverse _ (build-resolve (split slash path) [] (split-Lacks slash path) tt).1

path_of-rendered :
    (segs : List Bytes)
    → (if length (rendered segs) == 0 then root else rendered segs) ≡ path_of segs
path_of-rendered [] = refl
path_of-rendered (seg ∷ segs) = ground arith

rebuild-names : (path : Bytes) → rebuild path ≡ path_of (names path)
unfolding rebuild
rebuild-names path =
    let (e, v) = build-resolve (split slash path) [] (split-Lacks slash path) tt in
    rw (e, stacked-rendered) (path_of-rendered (names path))

-- The segments of a path of names are those names.
pub split-rendered :
    (seg : Bytes) (segs : List Bytes)
    → All IsName (seg ∷ segs)
    → split slash (seg ++ rendered segs) ≡ seg ∷ segs
split-rendered seg [] v = rw append-nil (split-part slash seg v.0.3)
split-rendered seg (next ∷ segs) v =
    rw (split-append slash seg (next ++ rendered segs), split-part slash seg v.0.3)
      (ap (◌∷◌ seg) (split-rendered next segs v.1))

any_special-names : (segs : List Bytes) → All IsName segs → any_special segs ≡ false
unfolding any_special is_special
any_special-names [] v = refl
any_special-names (seg ∷ segs) v = ground (
  arith,
  bytes_eq_iff seg [],
  bytes_eq_iff seg dot,
  bytes_eq_iff seg dot_dot,
  any_special-names segs v.1,
)

ends_with-append : (c x : ℕ) (a b : Bytes) → ends_with c (a ++ x ∷ b) ≡ ends_with c (x ∷ b)
unfolding ends_with
ends_with-append c x [] b = refl
ends_with-append c x (y ∷ []) b = refl
ends_with-append c x (y ∷ z ∷ a) b = ends_with-append c x (z ∷ a) b

ends_with-Lacks : (c : ℕ) (s : Bytes) → Lacks c s → ends_with c s ≡ false
unfolding ends_with
ends_with-Lacks c [] h = refl
ends_with-Lacks c (x ∷ []) h = ground arith
ends_with-Lacks c (x ∷ y ∷ s) h = ends_with-Lacks c (y ∷ s) h.1

ends_with-rendered :
    (seg : Bytes) (segs : List Bytes)
    → All IsName (seg ∷ segs)
    → ends_with slash (rendered (seg ∷ segs)) ≡ false
ends_with-rendered [] segs v = absurd (v.0.0 refl)
ends_with-rendered (x ∷ seg) [] v =
    rw append-nil
      (ends_with-append slash x (slash ∷ []) seg ∙ ends_with-Lacks slash (x ∷ seg) v.0.3)
ends_with-rendered (x ∷ seg) (next ∷ segs) v =
    ends_with-append slash slash (slash ∷ x ∷ seg) (next ++ rendered segs)
    ∙ ends_with-rendered next segs v.1

pub path_of-normalized :
    (segs : List Bytes) → All IsName segs → is_normalized_virtual_path (path_of segs) ≡ true
unfolding is_normalized_virtual_path
path_of-normalized [] v = unfold bytes_eq in refl
path_of-normalized ([] ∷ segs) v = absurd (v.0.0 refl)
path_of-normalized ((x ∷ seg) ∷ segs) v =
    unfold bytes_eq has_prefix in
    ground (
      arith,
      ends_with-rendered (x ∷ seg) segs v,
      split-rendered (x ∷ seg) segs v,
      any_special-names ((x ∷ seg) ∷ segs) v,
    )

rendered-onto_head :
    (c : ℕ) (ps : List Bytes) (s : Bytes)
    → rendered ps ≡ slash ∷ s
    → rendered (onto_head c ps) ≡ slash ∷ c ∷ s
rendered-onto_head c [] s h = cc
rendered-onto_head c (p ∷ ps) s h = cc

-- Rendering the segments of a text gives the text behind a slash.
pub rendered-split : (s : Bytes) → rendered (split slash s) ≡ slash ∷ s
unfolding split
rendered-split [] = refl
rendered-split (c ∷ s) = elim (Bool-cases (c == slash)) [
  | inl here ↦ rw here (ground (arith, rendered-split s))
  | inr other ↦ rw other (rendered-onto_head c (split slash s) s (rendered-split s))
]

any_special-IsName :
    (segs : List Bytes) → any_special segs ≡ false → All (Lacks slash) segs → All IsName segs
unfolding any_special is_special
any_special-IsName [] h v = tt
any_special-IsName (seg ∷ segs) h v = grind (
  arith,
  bytes_eq_iff seg [],
  bytes_eq_iff seg dot,
  bytes_eq_iff seg dot_dot,
  any_special-IsName segs (ground arith) v.1,
)

push_name : (stack : List Bytes) (seg : Bytes) → IsName seg → push stack seg ≡ seg ∷ stack
unfolding push
push_name stack seg v =
    ground (arith, bytes_eq_iff seg [], bytes_eq_iff seg dot, bytes_eq_iff seg dot_dot)

resolve_names :
    (segs stack : List Bytes) → All IsName segs → resolve stack segs ≡ reverse segs ++ stack
unfolding resolve
resolve_names [] stack v = refl
resolve_names (seg ∷ segs) stack v = rw (
  push_name stack seg v.0,
  resolve_names segs (seg ∷ stack) v.1,
  reverse-cons seg segs,
  append_assoc,
)

names_of_segments : (s : Bytes) → All IsName (split slash s) → names (slash ∷ s) ≡ split slash s
names_of_segments s v =
    unfold split resolve push bytes_eq in
    rw (resolve_names (split slash s) [] v, append-nil) (reverse-reverse (split slash s))

path_of_ne_nil : (segs : List Bytes) → segs ≢ [] → path_of segs ≡ rendered segs
path_of_ne_nil [] h = absurd (h refl)
path_of_ne_nil (seg ∷ segs) h = refl

fast_path_below :
    (path : Bytes)
    → bytes_eq path root ≡ false
    → is_normalized_virtual_path path ≡ true
    → path ≡ path_of (names path)
fast_path_below [] e h = unfold is_normalized_virtual_path has_prefix in ground arith
fast_path_below (c ∷ s) e h =
    let first : c ≡ slash = unfold is_normalized_virtual_path has_prefix in ground arith in
    let plain : any_special (split slash s) ≡ false =
      unfold is_normalized_virtual_path in ground arith in
    let proper = any_special-IsName (split slash s) plain (split-Lacks slash s) in
    rw (first, names_of_segments s proper)
      (sym (path_of_ne_nil (split slash s) (split-ne-nil slash s) ∙ rendered-split s))

pub fast_path :
    (path : Bytes) → is_normalized_virtual_path path ≡ true → path ≡ path_of (names path)
fast_path path h = elim (Bool-cases (bytes_eq path root)) [
  | inl e ↦
      subst (λ p. p ≡ path_of (names p)) (sym ((bytes_eq_iff path root).0 e))
        (unfold split resolve push bytes_eq in refl)
  | inr e ↦ fast_path_below path e h
]

-- NormalizeVirtualPath gives the absolute path of the names that the segments lead to, "." and
-- empty segments dropped and ".." taking the last name back, at the root none. The fast path
-- changes nothing.
pub normalize_virtual_path-names :
    (path : Bytes) → normalize_virtual_path path ≡ path_of (names path)
unfolding normalize_virtual_path
normalize_virtual_path-names path = elim (Bool-cases (is_normalized_virtual_path path)) [
  | inl fast ↦ rw fast (fast_path path fast)
  | inr slow ↦ rw slow (rebuild-names path)
]

-- The result is normalized, whatever the path, and normalizing it again changes nothing.
pub normalize-is_normalized :
    (path : Bytes)
    → (is_normalized_virtual_path (normalize_virtual_path path) ≡ true)
      × (normalize_virtual_path (normalize_virtual_path path) ≡ normalize_virtual_path path)
normalize-is_normalized path = (fixed, unfold normalize_virtual_path in rw fixed refl)
  where
    fixed : is_normalized_virtual_path (normalize_virtual_path path) ≡ true
    fixed =
        rw (normalize_virtual_path-names path) (path_of-normalized (names path) (names-IsName path))
