-- ===== src/Value/Vpath/Segments.antt =====
-- A virtual path as the list of its segments, and the stack that NormalizeVirtualPath computes.
use montygo.Prelude.{
  All, Bool, Bytes, Lacks, List, [], ap, append-nil, append_assoc, arith, bytes_eq, bytes_eq_iff,
  false, if◌then◌else◌, inl, inr, last_index, last_index-append, refl, reverse, reverse-cons, tail,
  take-length, true, ◌++◌, ◌||◌, ◌∙◌, ◌∷◌, ◌≡◌, ◌≢◌, ◌⊎◌,
}
use montygo.Value.Vpath.{build, dot, dot_dot, parent, root, slash, step}

-- A segment that names an entry: it is not empty, not "." and not "..", and holds no slash.
abbrev pub IsName : Bytes → Type 0
IsName seg = (seg ≢ []) × (seg ≢ dot) × (seg ≢ dot_dot) × Lacks slash seg

-- The path of a list of names: each behind a slash, and the root for none.
abbrev pub rendered : List Bytes → Bytes
rendered [] = []
rendered (seg ∷ segs) = slash ∷ (seg ++ rendered segs)

abbrev pub path_of : List Bytes → Bytes
path_of [] = root
path_of (seg ∷ segs) = rendered (seg ∷ segs)

-- One segment acts on the stack of names, the newest first.
unfoldable pub push : List Bytes → Bytes → List Bytes
push stack seg =
    if bytes_eq seg [] || bytes_eq seg dot
    then stack
    else if bytes_eq seg dot_dot
    then tail stack
    else seg ∷ stack

unfoldable pub resolve : List Bytes → List Bytes → List Bytes
resolve stack [] = stack
resolve stack (seg ∷ segs) = resolve (push stack seg) segs

abbrev pub stacked : List Bytes → Bytes
stacked [] = []
stacked (seg ∷ stack) = stacked stack ++ slash ∷ seg

parent-append : (a seg : Bytes) → Lacks slash seg → parent (a ++ slash ∷ seg) ≡ a
unfolding parent
parent-append a seg h = ground (arith, last_index-append slash a seg h, take-length a (slash ∷ seg))

parent-stacked :
    (stack : List Bytes) → All IsName stack → parent (stacked stack) ≡ stacked (tail stack)
parent-stacked [] v = unfold parent last_index in refl
parent-stacked (seg ∷ stack) v = parent-append (stacked stack) seg v.0.3

All-tail : (stack : List Bytes) → All IsName stack → All IsName (tail stack)
All-tail [] v = tt
All-tail (seg ∷ stack) v = v.1

-- What the tests of the loop tell of a segment, with what each branch does.
stays : Bytes → Bool
stays seg = bytes_eq seg [] || bytes_eq seg dot

classify :
    (seg : Bytes)
    → (stays seg ≡ true)
      ⊎ ((stays seg ≡ false) × (bytes_eq seg dot_dot ≡ true))
      ⊎ ((stays seg ≡ false)
          × (bytes_eq seg dot_dot ≡ false)
          × (seg ≢ [])
          × (seg ≢ dot)
          × (seg ≢ dot_dot))
unfolding stays
classify seg = grind (arith, bytes_eq_iff seg [], bytes_eq_iff seg dot, bytes_eq_iff seg dot_dot)

push-IsName :
    (stack : List Bytes) (seg : Bytes)
    → Lacks slash seg
    → All IsName stack
    → All IsName (push stack seg)
push-IsName stack seg h v = elim (classify seg) [
  | inl e ↦ unfold push stays in rw e v
  | inr (inl (e, f)) ↦ unfold push stays in rw e (rw f (All-tail stack v))
  | inr (inr (e, f, a, b, c)) ↦ unfold push stays in rw e (rw f ((a, b, c, h), v))
]

step-stacked :
    (stack : List Bytes) (seg : Bytes)
    → All IsName stack
    → step (stacked stack) seg ≡ stacked (push stack seg)
unfolding step
step-stacked stack seg v = elim (classify seg) [
  | inl e ↦ unfold push stays in rw e refl
  | inr (inl (e, f)) ↦ unfold push stays in rw e (rw f (parent-stacked stack v))
  | inr (inr (e, f, a, b, c)) ↦ unfold push stays in rw e (rw f refl)
]

-- The loop keeps the text of the stack of names.
pub build-resolve :
    (segs stack : List Bytes)
    → All (Lacks slash) segs
    → All IsName stack
    → (build (stacked stack) segs ≡ stacked (resolve stack segs)) × All IsName (resolve stack segs)
unfolding build resolve
build-resolve [] stack h v = (refl, v)
build-resolve (seg ∷ segs) stack h v =
    let (e, w) = build-resolve segs (push stack seg) h.1 (push-IsName stack seg h.0 v) in
    (ap (λ out. build out segs) (step-stacked stack seg v) ∙ e, w)

pub rendered-append : (a b : List Bytes) → rendered (a ++ b) ≡ rendered a ++ rendered b
rendered-append [] b = refl
rendered-append (seg ∷ a) b = simp (rendered-append a, append_assoc)

pub stacked-rendered : (stack : List Bytes) → stacked stack ≡ rendered (reverse stack)
stacked-rendered [] = refl
stacked-rendered (seg ∷ stack) =
    rw (reverse-cons seg stack, rendered-append, ← stacked-rendered stack, append-nil seg) refl
