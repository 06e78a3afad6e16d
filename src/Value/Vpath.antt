-- ===== src/Value/Vpath.antt =====
-- internal/value/vpath.go: virtual POSIX paths. A string builder is the bytes written so far.
pub mod Segments
pub mod Normal
pub mod WorkingDir
mod Examples
use montygo.Prelude.{
  Bool, Bytes, List, [], bytes_eq, contains_byte, drop, ends_with, false, has_prefix, if◌then◌else◌,
  last_index, length, none, not, some, split, take, trim_right, true, ℕ, ◌++◌, ◌==◌, ◌||◌, ◌∷◌,
}

abbrev pub slash : ℕ
slash = b'/'

abbrev pub root : Bytes
root = slash ∷ []

abbrev pub dot : Bytes
dot = b'.' ∷ []

abbrev pub dot_dot : Bytes
dot_dot = b'.' ∷ b'.' ∷ []

-- `strings.LastIndexByte(s, '/')`, with -1 raised to 0, and the cut `s[:i]`.
unfoldable pub parent : Bytes → Bytes
parent out = elim (last_index slash out) [ none ↦ [] | some i ↦ take i out ]

-- The body of the loop of NormalizeVirtualPath.
unfoldable pub step : Bytes → Bytes → Bytes
unfolding parent
step out seg =
    if bytes_eq seg [] || bytes_eq seg dot
    then out
    else if bytes_eq seg dot_dot
    then parent out
    else out ++ slash ∷ seg

unfoldable pub build : Bytes → List Bytes → Bytes
build out [] = out
build out (seg ∷ segs) = build (step out seg) segs

-- The test of the loop of isNormalizedVirtualPath.
unfoldable pub is_special : Bytes → Bool
is_special seg = bytes_eq seg [] || bytes_eq seg dot || bytes_eq seg dot_dot

any_special : List Bytes → Bool
any_special [] = false
any_special (seg ∷ segs) = is_special seg || any_special segs

unfoldable pub is_normalized_virtual_path : Bytes → Bool
unfolding any_special
is_normalized_virtual_path path =
    if bytes_eq path root
    then true
    else if not (has_prefix path root) || ends_with slash path
    then false
    else not (any_special (split slash (drop 1 path)))

-- NormalizeVirtualPath behind its fast path.
unfoldable pub rebuild : Bytes → Bytes
rebuild path = let out = build [] (split slash path) in if length out == 0 then root else out

unfoldable pub normalize_virtual_path : Bytes → Bytes
normalize_virtual_path path = if is_normalized_virtual_path path then path else rebuild path

-- ValidateCwd; the two errors differ in their message.
pub data CwdError : Type 0 where
  nul_byte not_absolute : CwdError

pub data Cwd : Type 0 where
  valid : Bytes → Cwd
  invalid : CwdError → Cwd

pub validate_cwd : Bytes → Cwd
validate_cwd cwd =
    let trimmed = trim_right slash cwd in
    if contains_byte 0 cwd
    then invalid nul_byte
    else if not (has_prefix cwd root)
    then invalid not_absolute
    else if bytes_eq trimmed []
    then valid root
    else valid trimmed
