-- ===== src/Value/Vpath/WorkingDir.antt =====
-- ValidateCwd: what it refuses, and that trimming slashes keeps the directory.
use montygo.Prelude.{
  All-append_left, Bool-cases, Bytes, Lacks, List, [], ap, append-nil, append_assoc, arith,
  bytes_eq, bytes_eq_iff, contains_byte, contains_byte-Lacks, ends_with, false, has_prefix,
  if◌then◌else◌, inl, inr, refl, split, split-append, subst, suc, sym, trim_onto, trim_right, true,
  zero, ℕ, ◌++◌, ◌==◌, ◌∙◌, ◌∷◌, ◌≡◌, ◌⊎◌,
}
use montygo.Value.Vpath.{normalize_virtual_path, root, slash, valid, validate_cwd}
use montygo.Value.Vpath.Segments.{path_of, push, resolve}
use montygo.Value.Vpath.Normal.{names, normalize_virtual_path-names}

slashes : ℕ → Bytes
slashes zero = []
slashes (suc k) = slash ∷ slashes k

trim_onto-slashes :
    (c : ℕ) (t : Bytes) (k : ℕ)
    → (n : ℕ) × (c ∷ (t ++ slashes k) ≡ trim_onto slash c t ++ slashes n)
unfolding slashes
trim_onto-slashes c [] k = elim (Bool-cases (c == slash)) [
  | inl here ↦ (suc k, ground arith)
  | inr other ↦ (k, rw other refl)
]
trim_onto-slashes c (d ∷ t) k = (k, refl)

trimmed : (s : Bytes) → (k : ℕ) × (s ≡ trim_right slash s ++ slashes k)
unfolding trim_right slashes
trimmed [] = (0, refl)
trimmed (c ∷ s) =
    let (k, e) = trimmed s in
    let (n, f) = trim_onto-slashes c (trim_right slash s) k in (n, ap (◌∷◌ c) e ∙ f)

trim_onto-ends_with :
    (c : ℕ) (t : Bytes) → ends_with slash t ≡ false → ends_with slash (trim_onto slash c t) ≡ false
unfolding ends_with
trim_onto-ends_with c [] h = ground arith
trim_onto-ends_with c (d ∷ t) h = h

ends_with-trim_right : (s : Bytes) → ends_with slash (trim_right slash s) ≡ false
unfolding trim_right ends_with
ends_with-trim_right [] = refl
ends_with-trim_right (c ∷ s) = trim_onto-ends_with c (trim_right slash s) (ends_with-trim_right s)

trim_onto-has_prefix :
    (c : ℕ) (t : Bytes)
    → bytes_eq (trim_onto slash c t) [] ≡ false
    → has_prefix (trim_onto slash c t) (c ∷ []) ≡ true
unfolding has_prefix bytes_eq
trim_onto-has_prefix c [] h = ground arith
trim_onto-has_prefix c (d ∷ t) h = ground arith

trim_right-has_prefix :
    (s : Bytes)
    → has_prefix s root ≡ true
    → bytes_eq (trim_right slash s) [] ≡ false
    → has_prefix (trim_right slash s) root ≡ true
unfolding trim_right
trim_right-has_prefix [] h n = unfold has_prefix in cc
trim_right-has_prefix (c ∷ s) h n =
    let first : c ≡ slash = unfold has_prefix in ground arith in
    subst (λ b. has_prefix (trim_onto slash c (trim_right slash s)) (b ∷ []) ≡ true) first
      (trim_onto-has_prefix c (trim_right slash s) n)

resolve-append :
    (xs ys stack : List Bytes) → resolve stack (xs ++ ys) ≡ resolve (resolve stack xs) ys
unfolding resolve
resolve-append [] ys stack = refl
resolve-append (x ∷ xs) ys stack = resolve-append xs ys (push stack x)

names_of_trailing : (s : Bytes) → names (s ++ slash ∷ []) ≡ names s
names_of_trailing s =
    rw (split-append slash s [], resolve-append) (unfold split resolve push bytes_eq in refl)

names-slashes : (k : ℕ) (s : Bytes) → names (s ++ slashes k) ≡ names s
unfolding slashes
names-slashes zero s = rw append-nil refl
names-slashes (suc k) s =
    ap names (sym (append_assoc s (slash ∷ []) (slashes k)))
    ∙ names-slashes k (s ++ slash ∷ [])
    ∙ names_of_trailing s

normalize-trim_right :
    (s : Bytes) → normalize_virtual_path (trim_right slash s) ≡ normalize_virtual_path s
normalize-trim_right s =
    let (k, e) = trimmed s in
    let same : names (trim_right slash s) ≡ names s =
      sym (ap names e ∙ names-slashes k (trim_right slash s)) in
    normalize_virtual_path-names (trim_right slash s)
    ∙ ap path_of same
    ∙ sym (normalize_virtual_path-names s)

accepted :
    (cwd dir : Bytes)
    → validate_cwd cwd ≡ valid dir
    → (contains_byte 0 cwd ≡ false)
      × (has_prefix cwd root ≡ true)
      × (dir ≡ (if bytes_eq (trim_right slash cwd) [] then root else trim_right slash cwd))
unfolding validate_cwd
accepted cwd dir h = ground arith

Lacks-trim_right : (s : Bytes) → Lacks 0 s → Lacks 0 (trim_right slash s)
Lacks-trim_right s h =
    let (k, e) = trimmed s in
    All-append_left _ (trim_right slash s) (slashes k) (subst (Lacks 0) e h)

normalize_root : normalize_virtual_path root ≡ normalize_virtual_path []
normalize_root =
    rw (normalize_virtual_path-names root, normalize_virtual_path-names [])
      (unfold split resolve push bytes_eq in refl)

-- A directory that ValidateCwd accepts is absolute, holds no NUL and ends in no slash unless it is
-- the root; and it is the directory that was asked for: both normalize to the same path.
pub validate_cwd_valid :
    (cwd dir : Bytes)
    → validate_cwd cwd ≡ valid dir
    → (has_prefix dir root ≡ true)
      × Lacks 0 dir
      × ((dir ≡ root) ⊎ (ends_with slash dir ≡ false))
      × (normalize_virtual_path dir ≡ normalize_virtual_path cwd)
validate_cwd_valid cwd dir h =
    let (clean, absolute, e) = accepted cwd dir h in
    elim (Bool-cases (bytes_eq (trim_right slash cwd) [])) [
      | inl none_left ↦
          let at_root : dir ≡ root = rw none_left at e in
          let empty : trim_right slash cwd ≡ [] =
            (bytes_eq_iff (trim_right slash cwd) []).0 none_left in
          rw at_root (
            (unfold has_prefix in refl),
            omega arith,
            inl refl,
            (normalize_root ∙ ap normalize_virtual_path (sym empty)) ∙ normalize-trim_right cwd,
          )
      | inr left ↦
          let kept : dir ≡ trim_right slash cwd = rw left at e in
          rw kept (
            trim_right-has_prefix cwd absolute left,
            Lacks-trim_right cwd ((contains_byte-Lacks 0 cwd).0 clean),
            inr (ends_with-trim_right cwd),
            normalize-trim_right cwd,
          )
    ]
