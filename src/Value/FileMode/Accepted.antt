-- ===== src/Value/FileMode/Accepted.antt =====
-- Which modes CanonicalFileMode accepts, and what it makes of them.
use montygo.Prelude.{
  All, Bool, List, [], arith, false, if◌then◌else◌, inl, inr, refl, true, ℕ, ◌+◌, ◌↔◌, ◌∙◌, ◌∷◌,
  ◌≡◌, ◌≢◌, ◌≤◌,
}
use montygo.Value.FileMode.{
  Flags, canonical_file_mode, finish, is_action, mode_creates, no_flags, ok, read, read_all,
}
use montygo.Value.FileMode.Scan.{
  HasAction, Parsed-cases, actions, count_if, flag, is_known, occurrences, read-Accepts,
  read_all-Accepts, read_all-HasAction, read_all_step, reads, used,
}

-- A mode that Python's open() takes here: letters of "rwabt" only, exactly one of "rwa", at most
-- one "b" or "t".
pub record IsMode (mode : List ℕ) : Type 0 where
  pub known : All (λ c. is_known c ≡ true) mode
  pub one_action : actions mode ≡ 1
  pub one_kind : occurrences b'b' mode + occurrences b't' mode ≤ 1

read-ok :
    (f : Flags) (c : ℕ) (mode : List ℕ)
    → is_known c ≡ true
    → used f.action + actions (c ∷ mode) ≤ 1
    → flag f.binary + occurrences b'b' (c ∷ mode) ≤ 1
    → flag f.text + occurrences b't' (c ∷ mode) ≤ 1
    → (m : Flags) × (read f c ≡ ok m)
read-ok f c mode k a b t = elim (Parsed-cases (read f c)) [
  | inl found ↦ found
  | inr (e, h) ↦ absurd (unfold read count_if in ground arith)
]

read_all-ok :
    (mode : List ℕ) (f : Flags)
    → All (λ c. is_known c ≡ true) mode
    → used f.action + actions mode ≤ 1
    → flag f.binary + occurrences b'b' mode ≤ 1
    → flag f.text + occurrences b't' mode ≤ 1
    → (g : Flags) × (read_all f mode ≡ ok g)
unfolding count_if
read_all-ok [] f k a b t = (f, unfold read_all in refl)
read_all-ok (c ∷ mode) f k a b t =
    let (m, e) = read-ok f c mode k.0 a b t in
    let (_, a', b', t', _) = read-Accepts f c m e in
    let (g, h) =
      read_all-ok mode m k.1 (omega (arith, a', a)) (omega (arith, b', b)) (omega (arith, t', t)) in
    (g, read_all_step f m c mode e ∙ h)

finish_ok :
    (g : Flags) (c : List ℕ)
    → finish g ≡ ok c
    → (g.action ≢ 0)
      × (flag g.binary + flag g.text ≤ 1)
      × (c ≡ g.action ∷ (if g.binary then b'b' ∷ [] else []))
unfolding finish
finish_ok g c h = ground arith

finish_total :
    (g : Flags) → g.action ≢ 0 → flag g.binary + flag g.text ≤ 1 → (c : List ℕ) × (finish g ≡ ok c)
finish_total g n o = elim (Parsed-cases (finish g)) [
  | inl found ↦ found
  | inr (e, h) ↦ absurd (unfold finish in ground arith)
]

canonical_of :
    (mode : List ℕ) (g : Flags) (c : List ℕ)
    → read_all no_flags mode ≡ ok g
    → finish g ≡ ok c
    → canonical_file_mode mode ≡ ok c
unfolding canonical_file_mode
canonical_of mode g c e f = rw (canonical_file_mode, e) f

canonical_parts :
    (mode c : List ℕ)
    → canonical_file_mode mode ≡ ok c
    → (g : Flags) × (read_all no_flags mode ≡ ok g) × (finish g ≡ ok c)
canonical_parts mode c h = elim (Parsed-cases (read_all no_flags mode)) [
  | inl (g, e) ↦ (g, e, unfold canonical_file_mode in (rw (e, canonical_file_mode) at h))
  | inr (k, e) ↦ absurd (unfold canonical_file_mode in ground arith)
]

-- CanonicalFileMode accepts a mode exactly when it names one action and at most one kind, and
-- nothing else.
pub canonical_file_mode_iff :
    (mode : List ℕ) → ((c : List ℕ) × (canonical_file_mode mode ≡ ok c)) ↔ IsMode mode
canonical_file_mode_iff mode = (sound, complete)
  where
    one : (g : Flags) → used g.action ≡ 0 + actions mode → g.action ≢ 0 → actions mode ≡ 1
    one g a n = ground arith

    sound : (c : List ℕ) × (canonical_file_mode mode ≡ ok c) → IsMode mode
    sound (c, h) =
        let (g, e, f) = canonical_parts mode c h in
        let (k, a, b, t, r) = read_all-Accepts mode no_flags g e in
        let (n, o, _) = finish_ok g c f in
        record { known = k; one_action = one g a n; one_kind = omega (arith, b, t, o) }

    lone : (g : Flags) → actions mode ≡ 1 → used g.action ≡ 0 + actions mode → g.action ≢ 0
    lone g w a = ground arith

    complete : IsMode mode → (c : List ℕ) × (canonical_file_mode mode ≡ ok c)
    complete v =
        let (g, e) =
          read_all-ok mode no_flags v.known (omega (arith, v.one_action))
            (omega (arith, v.one_kind)) (omega (arith, v.one_kind)) in
        let (k, a, b, t, r) = read_all-Accepts mode no_flags g e in
        let (c, f) = finish_total g (lone g v.one_action a) (omega (arith, v.one_kind, b, t)) in
        (c, canonical_of mode g c e f)

canonical_again :
    (a : ℕ) (b : Bool)
    → is_action a ≡ true
    → canonical_file_mode (a ∷ (if b then b'b' ∷ [] else []))
      ≡ ok (a ∷ (if b then b'b' ∷ [] else []))
unfolding canonical_file_mode
canonical_again a true v = ground arith
canonical_again a false v = ground arith

creates_iff :
    (a n : ℕ) (rest : List ℕ)
    → is_action a ≡ true
    → reads a ≡ 0 + n
    → (mode_creates (a ∷ rest) ≡ true) ↔ (n ≡ 0)
unfolding mode_creates
creates_iff a n rest v r = ground arith

binary_count :
    (a : ℕ) (b : Bool) (n : ℕ)
    → is_action a ≡ true
    → flag b ≡ 0 + n
    → occurrences b'b' (a ∷ (if b then b'b' ∷ [] else [])) ≡ n
unfolding count_if
binary_count a true n v h = ground arith
binary_count a false n v h = ground arith

-- What it returns is "r", "w" or "a", with "b" behind it for a binary mode; it is itself a mode
-- that is already canonical; and it creates the file exactly when the mode does not read.
pub canonical_file_mode_result :
    (mode c : List ℕ)
    → canonical_file_mode mode ≡ ok c
    → (canonical_file_mode c ≡ ok c)
      × ((mode_creates c ≡ true) ↔ (occurrences b'r' mode ≡ 0))
      × (occurrences b'b' c ≡ occurrences b'b' mode)
canonical_file_mode_result mode c h =
    let (g, e, f) = canonical_parts mode c h in
    let (k, a, b, t, r) = read_all-Accepts mode no_flags g e in
    let (n, o, shape) = finish_ok g c f in
    let action : is_action g.action ≡ true =
      letter g n (read_all-HasAction mode no_flags g e (inl refl)) in
    rw shape (
      canonical_again g.action g.binary action,
      creates_iff g.action (occurrences b'r' mode) _ action r,
      binary_count g.action g.binary (occurrences b'b' mode) action b,
    )
  where
    letter : (g : Flags) → g.action ≢ 0 → HasAction g → is_action g.action ≡ true
    letter g n (inl z) = absurd (n z)
    letter g n (inr v) = v
