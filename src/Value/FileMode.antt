-- ===== src/Value/FileMode.antt =====
-- internal/value/filemode.go: the mode string of Python's open(). A mode is its list of runes,
-- which the loop ranges over; `action` 0 is Go's zero rune.
pub mod Scan
pub mod Accepted
mod Examples
use montygo.Prelude.{Bool, List, [], false, if◌then◌else◌, not, true, ℕ, ◌&&◌, ◌==◌, ◌||◌, ◌∷◌}

pub data ModeError : Type 0 where
  two_actions exclusive binary_twice text_twice update both_kinds no_action : ModeError
  unknown : ℕ → ModeError

pub data Parsed {ℓ} (A : Type ℓ) : Type ℓ where
  ok : A → Parsed A
  err : ModeError → Parsed A

-- The variables of the loop.
pub record Flags : Type 0 where
  pub action : ℕ
  pub binary : Bool
  pub text : Bool

abbrev is_action : ℕ → Bool
is_action ch = ch == b'r' || ch == b'w' || ch == b'a'

-- The switch of the loop.
unfoldable pub read : Flags → ℕ → Parsed Flags
read f ch =
    if is_action ch
    then if not (f.action == 0) then err two_actions else ok (record f { action = ch })
    else if ch == b'x'
    then err exclusive
    else if ch == b'b'
    then if f.binary then err binary_twice else ok (record f { binary = true })
    else if ch == b't'
    then if f.text then err text_twice else ok (record f { text = true })
    else if ch == b'+'
    then err update
    else err (unknown ch)

unfoldable pub read_all : Flags → List ℕ → Parsed Flags
read_all f [] = ok f
read_all f (ch ∷ mode) = elim (read f ch) [ ok g ↦ read_all g mode | err e ↦ err e ]

-- What stands behind the loop.
unfoldable pub finish : Flags → Parsed (List ℕ)
finish f =
    if f.binary && f.text
    then err both_kinds
    else if f.action == 0
    then err no_action
    else if f.binary
    then ok (f.action ∷ b'b' ∷ [])
    else ok (f.action ∷ [])

abbrev pub no_flags : Flags
no_flags = record { action = 0; binary = false; text = false }

-- CanonicalFileMode.
unfoldable pub canonical_file_mode : List ℕ → Parsed (List ℕ)
unfolding read read_all finish
canonical_file_mode mode = elim (read_all no_flags mode) [ ok f ↦ finish f | err e ↦ err e ]

-- ModeCreates.
unfoldable pub mode_creates : List ℕ → Bool
mode_creates [] = false
mode_creates (ch ∷ mode) = ch == b'w' || ch == b'a'
