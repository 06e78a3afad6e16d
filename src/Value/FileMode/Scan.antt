-- ===== src/Value/FileMode/Scan.antt =====
-- The loop of CanonicalFileMode, by counting the letters that it reads.
use montygo.Prelude.{
  All, Bool, List, [], arith, if◌then◌else◌, inl, inr, refl, sym, true, ℕ, ◌+◌, ◌==◌, ◌||◌, ◌∙◌,
  ◌∷◌, ◌≡◌, ◌≢◌, ◌⊎◌,
}
use montygo.Value.FileMode.{Flags, ModeError, Parsed, err, is_action, ok, read, read_all}

unfoldable pub count_if : (ℕ → Bool) → List ℕ → ℕ
count_if p [] = 0
count_if p (c ∷ s) = (if p c then 1 else 0) + count_if p s

abbrev pub actions : List ℕ → ℕ
actions = count_if is_action

abbrev pub occurrences : ℕ → List ℕ → ℕ
occurrences b = count_if (λ c. c == b)

abbrev pub is_known : ℕ → Bool
is_known c = is_action c || c == b'b' || c == b't'

-- The flags as counts of what was read.
abbrev pub used : ℕ → ℕ
used a = if a == 0 then 0 else 1

abbrev pub flag : Bool → ℕ
flag b = if b then 1 else 0

abbrev pub reads : ℕ → ℕ
reads a = if a == b'r' then 1 else 0

-- What the loop accepts, and the flags that it ends with.
abbrev pub Accepts : Flags → List ℕ → Flags → Type 0
Accepts f mode g =
    All (λ c. is_known c ≡ true) mode
    × (used g.action ≡ used f.action + actions mode)
    × (flag g.binary ≡ flag f.binary + occurrences b'b' mode)
    × (flag g.text ≡ flag f.text + occurrences b't' mode)
    × (reads g.action ≡ reads f.action + occurrences b'r' mode)

pub read-Accepts : (f : Flags) (c : ℕ) (g : Flags) → read f c ≡ ok g → Accepts f (c ∷ []) g
unfolding read count_if
read-Accepts f c g h = ground arith

pub Parsed-cases {ℓ} :
    {A : Type ℓ} (r : Parsed A) → ((a : A) × (r ≡ ok a)) ⊎ ((e : ModeError) × (r ≡ err e))
Parsed-cases (ok a) = inl (a, refl)
Parsed-cases (err e) = inr (e, refl)

pub read_all_step :
    (f m : Flags) (c : ℕ) (mode : List ℕ)
    → read f c ≡ ok m
    → read_all f (c ∷ mode) ≡ read_all m mode
unfolding read_all
read_all_step f m c mode h = rw (h, read_all) refl

Accepts-cons :
    (f m g : Flags) (c : ℕ) (mode : List ℕ)
    → Accepts f (c ∷ []) m
    → Accepts m mode g
    → Accepts f (c ∷ mode) g
unfolding count_if
Accepts-cons f m g c mode (k, a, b, t, r) (k', a', b', t', r') = (
  (k.0, k'),
  omega (arith, a, a'),
  omega (arith, b, b'),
  omega (arith, t, t'),
  omega (arith, r, r'),
)

failing :
    (f : Flags) (c : ℕ) (mode : List ℕ) (g : Flags) (e : ModeError)
    → read f c ≡ err e
    → read_all f (c ∷ mode) ≢ ok g
unfolding read_all
failing f c mode g e k = rw (k, read_all) (λ h. cc)

pub read_all-Accepts : (mode : List ℕ) (f g : Flags) → read_all f mode ≡ ok g → Accepts f mode g
read_all-Accepts [] f g h = unfold read_all count_if in ground arith
read_all-Accepts (c ∷ mode) f g h = elim (Parsed-cases (read f c)) [
  | inl (m, e) ↦
      Accepts-cons f m g c mode (read-Accepts f c m e)
        (read_all-Accepts mode m g (sym (read_all_step f m c mode e) ∙ h))
  | inr (e, k) ↦ absurd (failing f c mode g e k h)
]

-- The action is one of the three letters, once there is one.
abbrev pub HasAction : Flags → Type 0
HasAction f = (f.action ≡ 0) ⊎ (is_action f.action ≡ true)

read-HasAction : (f : Flags) (c : ℕ) (g : Flags) → read f c ≡ ok g → HasAction f → HasAction g
unfolding read
read-HasAction f c g h v = ground arith

pub read_all-HasAction :
    (mode : List ℕ) (f g : Flags) → read_all f mode ≡ ok g → HasAction f → HasAction g
read_all-HasAction [] f g h v = unfold read_all in ground arith
read_all-HasAction (c ∷ mode) f g h v = elim (Parsed-cases (read f c)) [
  | inl (m, e) ↦
      read_all-HasAction mode m g (sym (read_all_step f m c mode e) ∙ h) (read-HasAction f c m e v)
  | inr (e, k) ↦ absurd (failing f c mode g e k h)
]
