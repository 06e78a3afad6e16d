-- ===== src/Mountfs/PathPolicy.antt =====
-- internal/mountfs/pathpolicy.go: which paths reach a mount, and as what relative path.
pub mod Strip
pub mod Confinement
pub mod Overlong
mod Examples
use montygo.Prelude.{
  Bool, Bytes, List, Option, [], bytes_eq, codes, contains_byte, cut_prefix, drop, ends_with, false,
  if◌then◌else◌, leb, length, ltb, none, not, some, split, suc, take, true, zero, ℕ, ◌&&◌, ◌*◌,
  ◌++◌, ◌+◌, ◌-◌, ◌==◌, ◌||◌, ◌∷◌,
}
use montygo.Value.Vpath.{normalize_virtual_path, parent, root, slash}
use montygo.Mountfs.Errors.{
  Result, err, invalid_filename, io_err, no_mount_point, ok, path_escape, reject_if, value_error,
  ◌>>=◌, ◌>>◌,
}
use montygo.Mountfs.Utf8.{Round, advance, bad, round}

abbrev pub path_max : ℕ
path_max = 4096

abbrev pub name_max : ℕ
name_max = 255

abbrev pub depth_max : ℕ
depth_max = 64

abbrev pub error_path_edge : ℕ
error_path_edge = 20

-- dirOp.
unfoldable pub dir_op : Bytes → Bytes
dir_op rel = if bytes_eq rel [] then b'.' ∷ [] else rel

-- stripMountPrefix.
unfoldable pub strip_mount_prefix : Bytes → Bytes → Option Bytes
strip_mount_prefix normalized mount =
    if bytes_eq mount root
    then some (elim (cut_prefix normalized root) [ some rest ↦ rest | none ↦ normalized ])
    else if bytes_eq normalized mount
    then some []
    else elim (cut_prefix normalized mount) [ some rest ↦ cut_prefix rest root | none ↦ none ]

abbrev is_letter : ℕ → Bool
is_letter c = (leb b'a' c && leb c b'z') || (leb b'A' c && leb c b'Z')

-- isWindowsDrivePrefix.
unfoldable pub is_windows_drive_prefix : Bytes → Bool
is_windows_drive_prefix [] = false
is_windows_drive_prefix (c ∷ []) = false
is_windows_drive_prefix (c ∷ d ∷ seg) = if not (d == b':') then false else is_letter c

unfoldable pub any_drive : List Bytes → Bool
any_drive [] = false
any_drive (seg ∷ segs) = is_windows_drive_prefix seg || any_drive segs

-- rejectDriveOrUNCSegments.
unfoldable pub reject_drive_or_unc_segments : Bytes → Bytes → Result (Unit {0})
unfolding any_drive
reject_drive_or_unc_segments rel normalized =
    if contains_byte b'\\' rel
    then err (path_escape normalized)
    else reject_if (any_drive (split slash rel)) (path_escape normalized)

-- rejectNullBytes.
unfoldable pub reject_null_bytes : Bytes → Result (Unit {0})
reject_null_bytes path = reject_if (contains_byte 0 path) (value_error (codes "embedded null byte"))

abbrev or_no_mount : Bytes → Option Bytes → Result Bytes
or_no_mount vpath none = err (no_mount_point vpath)
or_no_mount vpath (some rel) = ok rel

-- resolveVirtualPath.
unfoldable pub resolve_virtual_path : Bytes → Bytes → Result Bytes
resolve_virtual_path vpath mount = do
  let normalized = normalize_virtual_path vpath
  reject_null_bytes vpath
  rel ← or_no_mount vpath (strip_mount_prefix normalized mount)
  reject_drive_or_unc_segments rel normalized
  ok rel

-- One component of the loop of isOverlong, and what stands behind its slash.
unfoldable pub component : Bytes → Bytes
component [] = []
component (c ∷ rest) = if c == slash then [] else c ∷ component rest

unfoldable pub behind : Bytes → Option Bytes
behind [] = none
behind (c ∷ rest) = if c == slash then some rest else behind rest

-- The loop of isOverlong. The first number is `depthMax - count`: the loop returns when it is 0.
unfoldable pub overlong_from : ℕ → Bytes → Bool
unfolding component behind
overlong_from zero rest = true
overlong_from (suc left) rest =
    if ltb name_max (length (component rest))
    then true
    else elim (behind rest) [ none ↦ false | some more ↦ overlong_from left more ]

unfoldable pub is_overlong : Bytes → Bool
unfolding overlong_from
is_overlong path = if ltb path_max (length path) then true else overlong_from depth_max path

-- The byte offsets at which `range path` finds a rune: a byte that begins no encoding is a rune
-- of its own.
abbrev width_of : Round → ℕ
width_of (advance w) = w
width_of (bad e) = 1

rune_starts : Bytes → ℕ → ℕ → List ℕ
rune_starts [] i skip = []
rune_starts (b ∷ t) i (suc skip) = rune_starts t i skip
rune_starts (b ∷ t) i zero = i ∷ rune_starts t (i + width_of (round b t)) (width_of (round b t) - 1)

abbrev ellipsis : Bytes
ellipsis = 0xE2 ∷ 0x80 ∷ 0xA6 ∷ []

get_or : List ℕ → ℕ → ℕ
get_or [] i = 0
get_or (x ∷ xs) zero = x
get_or (x ∷ xs) (suc i) = get_or xs i

-- elideMiddle; the two reads of `starts` are in range where they are made.
unfoldable pub elide_middle : Bytes → Option Bytes
unfolding rune_starts get_or
elide_middle path =
    let starts = rune_starts path 0 0 in
    let n = length starts in
    if ltb n (2 * error_path_edge + 1)
    then none
    else some (
        take (get_or starts error_path_edge) path
        ++ (ellipsis ++ drop (get_or starts (n - error_path_edge)) path))

-- rejectOverlongPath.
unfoldable pub reject_overlong_path : Bytes → Result (Unit {0})
reject_overlong_path path =
    let shown : Bytes = elim (elide_middle path) [ some elided ↦ elided | none ↦ path ] in
    reject_if (is_overlong path) (io_err invalid_filename (codes "File name too long") shown)

-- formatChildPath and joinMountRelative.
pub format_child_path : Bytes → Bytes → Bytes
format_child_path parent child =
    if ends_with slash parent then parent ++ child else parent ++ (slash ∷ child)

pub join_mount_relative : Bytes → Bytes → Bytes
join_mount_relative rel child =
    if bytes_eq rel [] || bytes_eq rel (b'.' ∷ []) then child else rel ++ (slash ∷ child)
